-- ===== src/Opt/Shown.antt =====
-- The text that the help of src/cfuopt.c shows for an option: its names and what its argument is.
use libcfu.Common.{
  ℕ, suc, ◌+◌, ◌<◌, ◌≡◌, refl, sym, ap, ◌∙◌, true, false, Option, none, some, List, [], ◌∷◌, ◌++◌,
  append-nil, arith, ltb, ◌==◌, length, length-append, ok,
}
use libcfu.Strings.Memory.{strlen, NoMark, put_bytes, memcpy}
use libcfu.Strings.Buffer.{dup_c_str}
use libcfu.Strings.Format.{VaArg, string_arg}
use libcfu.Strings.Printf.{sprintf_c_str}
use libcfu.Strings.Convert.{Printed}
use libcfu.Strings.Rendered.{IsSpec, Converts, source_of, c_string, IsLiteral}
use libcfu.Strings.Plain.{sprintf_c_str-plain}
use libcfu.Conf.Lexer.{Bytes}
use libcfu.Opt.Context.{Entry}
use libcfu.Opt.Help.{c_str, string_value, bare_name, name_text, param_map_fn, map_names}

-- A C string of less than a GiB.
abbrev pub IsShort : Bytes → Type 0
IsShort s = NoMark s × (length s + 1 < 1073741824)

abbrev pub IsShortArg : Option Bytes → Type 0
IsShortArg none = Unit
IsShortArg (some s) = IsShort s

abbrev pub AreShort : List Bytes → Type 0
AreShort [] = Unit
AreShort (s ∷ strings) = IsShort s × AreShort strings

-- What an argument is, behind the byte that sets it off.
abbrev pub arg_shown : ℕ → Option Bytes → Bytes
arg_shown sep none = []
arg_shown sep (some []) = []
arg_shown sep (some (c ∷ d)) = sep ∷ c ∷ d

abbrev pub name_shown : Bytes → Option Bytes → Bytes
name_shown [] d = []
name_shown (c ∷ []) d = (b'-' ∷ c ∷ []) ++ arg_shown b' ' d
name_shown (c ∷ c' ∷ name) d = (b'-' ∷ b'-' ∷ c ∷ c' ∷ name) ++ arg_shown b'=' d

abbrev pub names_shown : List Bytes → Option Bytes → List Bytes
names_shown [] d = []
names_shown (name ∷ names) d = name_shown name d ∷ names_shown names d

abbrev pub c_strs : List Bytes → List (Option (List ℕ))
c_strs [] = []
c_strs (s ∷ strings) = some (c_str s) ∷ c_strs strings

module _ (malloc : ℕ → List ℕ) (sized : (n : ℕ) → length (malloc n) ≡ n)
    (vsnprintf : List ℕ → ℕ → List ℕ → VaArg → List ℕ × ℕ) (printed : List ℕ → VaArg → List ℕ)
    (documented : (buf flags more : List ℕ) (c : ℕ) (arg : VaArg)
      → IsSpec flags
      → Converts c arg
      → length buf < 2147483648
      → length (printed (source_of flags c) arg) + 1 < 1073741824
      → Printed buf
          (printed (source_of flags c) arg)
          (vsnprintf buf (length buf) (source_of flags c ++ 0 ∷ more) arg))
    (unmarked : (flags : List ℕ) (c : ℕ) (arg : VaArg)
      → IsSpec flags
      → Converts c arg
      → NoMark (printed (source_of flags c) arg))
    (whole : (s : List ℕ)
      → NoMark s
      → printed (b'%' ∷ b's' ∷ []) (string_arg (some (s ++ 0 ∷ []))) ≡ s) where
  -- "%s" behind literal bytes.
  one_string :
      (lead s : List ℕ)
      → IsLiteral lead
      → 0 < length lead
      → IsShort s
      → sprintf_c_str malloc vsnprintf (lead ++ b'%' ∷ b's' ∷ 0 ∷ []) (string_value s ∷ [])
        ≡ ok (some (c_str (lead ++ s)))
  one_string lead s clean some_lead (mark, short) =
      let e = whole s mark in
      let text = printed (b'%' ∷ b's' ∷ []) (string_value s) in
      sprintf_c_str-plain malloc sized vsnprintf printed documented unmarked
        ((lead, c_string [] s []) ∷ []) [] []
        (clean, (tt, mark, omega (arith, ap length e, short)), tt) tt tt (omega arith)
        (omega (arith, length-append (lead ++ text) [], length-append lead text, some_lead))
      ∙ ap (λ t. ok (some (c_str t))) (append-nil (lead ++ text) ∙ ap (λ t. lead ++ t) e)

  -- Two of them.
  two_strings :
      (lead s sep t : List ℕ)
      → IsLiteral lead
      → IsLiteral sep
      → 0 < length lead
      → IsShort s
      → IsShort t
      → sprintf_c_str malloc vsnprintf
          (lead ++ b'%' ∷ b's' ∷ (sep ++ b'%' ∷ b's' ∷ 0 ∷ []))
          (string_value s ∷ string_value t ∷ [])
        ≡ ok (some (c_str ((lead ++ s) ++ (sep ++ t))))
  two_strings lead s sep t clean clean' some_lead (mark, short) (mark', short') =
      let e = whole s mark in
      let e' = whole t mark' in
      let text = printed (b'%' ∷ b's' ∷ []) (string_value s) in
      let text' = printed (b'%' ∷ b's' ∷ []) (string_value t) in
      sprintf_c_str-plain malloc sized vsnprintf printed documented unmarked
        ((lead, c_string [] s []) ∷ (sep, c_string [] t []) ∷ []) [] []
        (
          clean,
          (tt, mark, omega (arith, ap length e, short)),
          (clean', (tt, mark', omega (arith, ap length e', short')), tt),
        )
        tt tt (omega arith)
        (omega (
          arith,
          length-append (lead ++ text) ((sep ++ text') ++ []),
          length-append lead text,
          some_lead,
        ))
      ∙ ap (λ u. ok (some (c_str ((lead ++ text) ++ u)))) (append-nil (sep ++ text'))
      ∙ ap (λ u. ok (some (c_str ((lead ++ u) ++ (sep ++ text'))))) e
      ∙ ap (λ u. ok (some (c_str ((lead ++ s) ++ (sep ++ u))))) e'

  name_text-shown :
      (name : Bytes) (d : Option Bytes)
      → 0 < length name
      → IsShort name
      → IsShortArg d
      → name_text malloc vsnprintf name d ≡ ok (some (c_str (name_shown name d)))
  unfolding name_text bare_name
  name_text-shown [] d h short short' = absurd (omega (arith, h))
  name_text-shown (c ∷ []) none h short short' =
      one_string (b'-' ∷ []) (c ∷ []) (omega arith) (omega arith) short
  name_text-shown (c ∷ []) (some []) h short short' =
      one_string (b'-' ∷ []) (c ∷ []) (omega arith) (omega arith) short
  name_text-shown (c ∷ []) (some (x ∷ d)) h short short' =
      let some_arg : ltb 0 (suc (length d)) ≡ true = ground arith in
      rw some_arg (
        two_strings (b'-' ∷ []) (c ∷ []) (b' ' ∷ []) (x ∷ d) (omega arith) (omega arith)
          (omega arith) short short')
  name_text-shown (c ∷ c' ∷ name) none h short short' =
      let long : (suc (suc (length name)) == 1) ≡ false = ground arith in
      rw long (
        one_string (b'-' ∷ b'-' ∷ []) (c ∷ c' ∷ name) (omega arith) (omega arith) short
        ∙ ap (λ t. ok (some (c_str (b'-' ∷ b'-' ∷ c ∷ c' ∷ t)))) (sym (append-nil name)))
  name_text-shown (c ∷ c' ∷ name) (some []) h short short' =
      let long : (suc (suc (length name)) == 1) ≡ false = ground arith in
      rw long (
        one_string (b'-' ∷ b'-' ∷ []) (c ∷ c' ∷ name) (omega arith) (omega arith) short
        ∙ ap (λ t. ok (some (c_str (b'-' ∷ b'-' ∷ c ∷ c' ∷ t)))) (sym (append-nil name)))
  name_text-shown (c ∷ c' ∷ name) (some (x ∷ d)) h short short' =
      let some_arg : ltb 0 (suc (length d)) ≡ true = ground arith in
      let long : (suc (suc (length name)) == 1) ≡ false = ground arith in
      rw (some_arg, long)
        (two_strings (b'-' ∷ b'-' ∷ []) (c ∷ c' ∷ name) (b'=' ∷ []) (x ∷ d) (omega arith)
          (omega arith) (omega arith) short short')

  param_map_fn-shown :
      (opt : Entry) (name : Bytes)
      → IsShort name
      → IsShortArg opt.arg_description
      → param_map_fn malloc vsnprintf opt (some name)
        ≡ ok (some (c_str (name_shown name opt.arg_description)))
  unfolding param_map_fn dup_c_str strlen memcpy put_bytes
  param_map_fn-shown opt [] short short' = refl
  param_map_fn-shown opt (c ∷ name) short short' =
      let some_name : (suc (length name) == 0) ≡ false = ground arith in
      rw some_name (name_text-shown (c ∷ name) opt.arg_description (omega arith) short short')

  pub map_names-shown :
      (opt : Entry) (names : List Bytes)
      → AreShort names
      → IsShortArg opt.arg_description
      → map_names malloc vsnprintf opt names ≡ ok (c_strs (names_shown names opt.arg_description))
  unfolding map_names
  map_names-shown opt [] short short' = refl
  map_names-shown opt (name ∷ names) short short' =
      rw (param_map_fn-shown opt name short.0 short', map_names-shown opt names short.1 short') refl
