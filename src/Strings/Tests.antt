-- ===== src/Strings/Tests.antt =====
-- Runs on short strings, and the theorems of the string applied to them.
use libcfu.Common.{◌≡◌, refl, inr, some, List, [], ◌∷◌, arith, length-replicate, ok, fault, Returns}
use libcfu.Strings.Format.{unsigned_arg, string_arg}
use libcfu.Strings.Printf.{vsprintf, sprintf_c_str}
use libcfu.Strings.Rendered.{percent_sign, value, c_string}
use libcfu.Strings.Sprintf.{vsprintf-rendered}
use libcfu.Strings.PastEnd.{vsprintf-past_end}
use libcfu.Strings.Plain.{sprintf_c_str-plain}
use libcfu.Strings.Sample.{
  ones, decimal_on, width_of, sample_text, write_sample, sample_text-NoMark, write_sample-Printed,
}
use libcfu.Strings.Buffer.{CfuString, append}
use libcfu.Strings.Room.{IsText, block}
use libcfu.Strings.Append.{append-IsText}
use libcfu.Strings.Split.{split_loop, check_sep, find_sep, scan_seps, dup_n, split_to_raw, room_for}
use libcfu.Strings.Whole.{split, AllTexts, split-AllTexts}
use libcfu.Strings.Fields.{IsField, split_to_raw-join}

-- "ab" in a block of four bytes.
abbrev ab : CfuString
ab = block (97 ∷ 98 ∷ []) (9 ∷ [])

ab-IsText : IsText ab (97 ∷ 98 ∷ [])
ab-IsText = inr (9 ∷ [], refl)

append-IsText_example :
    Returns (append ones ab (some (99 ∷ 100 ∷ 0 ∷ 7 ∷ []))) λ b. IsText b (97 ∷ 98 ∷ 99 ∷ 100 ∷ [])
append-IsText_example =
    append-IsText ones (λ n. length-replicate n 1) ab (97 ∷ 98 ∷ []) (99 ∷ 100 ∷ []) (7 ∷ [])
      ab-IsText (ground arith, (ground arith, tt))

-- "ab" and "d" at a comma.
ab-IsField : IsField 44 (97 ∷ 98 ∷ [])
ab-IsField = record { some_bytes = omega arith; free = (ground arith, (ground arith, tt)) }

d-IsField : IsField 44 (100 ∷ [])
d-IsField = record { some_bytes = omega arith; free = (ground arith, tt) }

split_to_raw-join_example :
    split_to_raw (some (97 ∷ 98 ∷ 44 ∷ 100 ∷ [])) ((44 ∷ []) ∷ []) 0
    ≡ ok (some (some (97 ∷ 98 ∷ []) ∷ some (100 ∷ []) ∷ []))
split_to_raw-join_example =
    split_to_raw-join 44 ((97 ∷ 98 ∷ []) ∷ (100 ∷ []) ∷ []) (ab-IsField, (d-IsField, tt))
      ((ground arith, (ground arith, tt)), ((ground arith, tt), tt)) (ground arith) (omega arith)

-- The separator "ab" is missed in "aabc": a pointer that fails is not tried again at the same byte.
separator_missed :
    split_to_raw (some (97 ∷ 97 ∷ 98 ∷ 99 ∷ [])) ((97 ∷ 98 ∷ []) ∷ []) 0
    ≡ ok (some (some (97 ∷ 97 ∷ 98 ∷ 99 ∷ []) ∷ []))
unfolding split_to_raw split_loop room_for check_sep find_sep scan_seps dup_n
separator_missed = refl

split-AllTexts_example :
    Returns (split ones (some (97 ∷ 98 ∷ 44 ∷ 100 ∷ [])) ((44 ∷ []) ∷ []) 0) λ r.
      (strings : List CfuString) × (r ≡ some strings)
      × AllTexts strings ((97 ∷ 98 ∷ []) ∷ (100 ∷ []) ∷ [])
split-AllTexts_example =
    split-AllTexts ones (λ n. length-replicate n 1) 44 (97 ∷ 98 ∷ []) ((100 ∷ []) ∷ [])
      (ab-IsField, (d-IsField, tt)) ((ground arith, (ground arith, tt)), ((ground arith, tt), tt))
      (ground arith) (omega arith)

-- "%u." with 7: the `%` is left in the text and the full stop is not.
vsprintf-rendered_example :
    Returns
      (vsprintf ones write_sample ab (b'%' ∷ b'u' ∷ b'.' ∷ 0 ∷ []) (unsigned_arg 7 ∷ []))
      λ r. IsText r.0 (b'%' ∷ b'7' ∷ []) × (r.1 ≡ 3)
unfolding sample_text decimal_on
vsprintf-rendered_example =
    vsprintf-rendered ones (λ n. length-replicate n 1) write_sample sample_text write_sample-Printed
      sample_text-NoMark ab (97 ∷ 98 ∷ []) (([], value [] b'u' (unsigned_arg 7)) ∷ []) (b'.' ∷ [])
      [] ab-IsText ((tt, (tt, refl, omega arith), tt)) (omega arith)

-- "n%%=%u %s" with 7 and "ab".
sprintf_c_str-plain_example :
    sprintf_c_str ones write_sample
      (b'n' ∷ b'%' ∷ b'%' ∷ b'=' ∷ b'%' ∷ b'u' ∷ b' ' ∷ b'%' ∷ b's' ∷ 0 ∷ [])
      (unsigned_arg 7 ∷ string_arg (some (97 ∷ 98 ∷ 0 ∷ [])) ∷ [])
    ≡ ok (some (b'n' ∷ b'%' ∷ b'=' ∷ b'7' ∷ b' ' ∷ 97 ∷ 98 ∷ 0 ∷ []))
unfolding sample_text decimal_on width_of
sprintf_c_str-plain_example =
    sprintf_c_str-plain ones (λ n. length-replicate n 1) write_sample sample_text
      write_sample-Printed sample_text-NoMark
      ((b'n' ∷ [], percent_sign)
        ∷ (b'=' ∷ [], value [] b'u' (unsigned_arg 7))
        ∷ (b' ' ∷ [], c_string [] (97 ∷ 98 ∷ []) [])
        ∷ [])
      [] []
      (
        omega arith,
        tt,
        (
          omega arith,
          (tt, refl, omega arith),
          (omega arith, (tt, (omega arith, (omega arith, tt)), omega arith), tt),
        ),
      )
      tt (omega arith) (omega arith) (omega arith)

-- "%u5%-" with 7.
vsprintf-past_end_example :
    vsprintf ones write_sample ab (b'%' ∷ b'u' ∷ b'5' ∷ b'%' ∷ b'-' ∷ 0 ∷ []) (unsigned_arg 7 ∷ [])
    ≡ fault
unfolding sample_text decimal_on
vsprintf-past_end_example =
    vsprintf-past_end ones (λ n. length-replicate n 1) write_sample sample_text write_sample-Printed
      sample_text-NoMark ab (97 ∷ 98 ∷ []) (([], value [] b'u' (unsigned_arg 7)) ∷ []) (b'5' ∷ [])
      (b'-' ∷ []) ab-IsText ((tt, (tt, refl, omega arith), tt)) (omega arith)
      (refl, omega arith, tt)
