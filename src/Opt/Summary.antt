-- ===== src/Opt/Summary.antt =====
-- The whole help text of `cfuopt_get_help_str` of src/cfuopt.c.
use libcfu.Common.{
  ℕ, ◌+◌, ◌%◌, ◌<◌, ◌≡◌, refl, sym, ap, ◌∙◌, Option, some, List, [], ◌∷◌, ◌++◌, append-nil,
  append_assoc, arith, zero, suc, ◌-◌, ◌≤◌, inl, replicate, length-append, length-replicate, length,
  ok, ◌>>=◌,
}
use libcfu.Strings.Memory.{NoMark}
use libcfu.Strings.Format.{VaArg, string_arg, unsigned_arg}
use libcfu.Strings.Printf.{sprintf_c_str}
use libcfu.Strings.Convert.{Printed}
use libcfu.Strings.Rendered.{IsSpec, Converts, source_of, value, c_string, percent_sign, IsWidth}
use libcfu.Strings.Plain.{sprintf_c_str-plain, sprintf_c_str-rendered}
use libcfu.List.Join.{joined}
use libcfu.Conf.Lexer.{Bytes}
use libcfu.Opt.Context.{Entry, Context}
use libcfu.Opt.Help.{
  c_str, string_value, line_fmt, description_of, join, find_all, find_longest_help_desc,
  get_help_lines, all_help_lines, lines_with, get_help_str,
}
use libcfu.Opt.Shown.{c_strs}
use libcfu.Opt.Column.{
  AreUnmarked, NoMark-append, join-words, larger, left_column, longest, columns, left_column-NoMark,
  IsShown, AreShown,
}
use libcfu.Opt.Longest.{found, find_all-found}

spaces-NoMark : (n : ℕ) → NoMark (replicate n b' ')
spaces-NoMark zero = tt
spaces-NoMark (suc n) = (omega arith, spaces-NoMark n)

module _ (malloc : ℕ → List ℕ) (sized : (n : ℕ) → length (malloc n) ≡ n)
    (vsnprintf : List ℕ → ℕ → List ℕ → VaArg → List ℕ × ℕ) (printed : List ℕ → VaArg → List ℕ)
    (documented : (buf flags more : List ℕ) (c : ℕ) (arg : VaArg)
      → IsSpec flags
      → Converts c arg
      → length buf < 2147483648
      → length (printed (source_of flags c) arg) + 1 < 1073741824
      → Printed buf
          (printed (source_of flags c) arg)
          (vsnprintf buf (length buf) (source_of flags c ++ 0 ∷ more) arg))
    (unmarked : (flags : List ℕ) (c : ℕ) (arg : VaArg)
      → IsSpec flags
      → Converts c arg
      → NoMark (printed (source_of flags c) arg))
    (whole : (s : List ℕ)
      → NoMark s
      → printed (b'%' ∷ b's' ∷ []) (string_arg (some (s ++ 0 ∷ []))) ≡ s)
    (digits : (n : ℕ)
      → 0 < n
      → n < 4294967296
      → IsWidth (printed (b'%' ∷ b'u' ∷ []) (unsigned_arg n))
        × (length (printed (b'%' ∷ b'u' ∷ []) (unsigned_arg n)) + 1 < 1073741824))
    (pads : (n : ℕ) (s : List ℕ)
      → 0 < n
      → n < 2147483648
      → NoMark s
      → printed
          (source_of (b'-' ∷ printed (b'%' ∷ b'u' ∷ []) (unsigned_arg n)) b's')
          (string_arg (some (s ++ 0 ∷ [])))
        ≡ s ++ replicate (n - length s) b' ') where
  -- The digits of a width.
  abbrev pub width_text : ℕ → Bytes
  width_text n = printed (b'%' ∷ b'u' ∷ []) (unsigned_arg (n % 4294967296))

  -- A space, the left column filled up to the width, two spaces and the description.
  abbrev pub line_of : ℕ → Entry → Bytes
  line_of width opt =
      (b' ' ∷ (left_column opt ++ replicate (width - length (left_column opt)) b' '))
      ++ b' ' ∷ b' ' ∷ description_of opt

  abbrev pub lines_of : ℕ → List Entry → List Bytes
  lines_of width [] = []
  lines_of width (opt ∷ options) = line_of width opt ∷ lines_of width options

  -- A width that a conversion can have, with the columns that it fills.
  abbrev IsFor : ℕ → List Entry → Type 0
  IsFor width options = (0 < width) × (width + 1 < 1073741824) × (longest options ≤ width)

  -- " %-Ns  %s\n"
  abbrev format_text : ℕ → Bytes
  format_text width =
      b' ' ∷ b'%' ∷ b'-' ∷ (width_text width ++ b's' ∷ b' ' ∷ b' ' ∷ b'%' ∷ b's' ∷ b'\n' ∷ [])

  line_fmt-text :
      (width : ℕ)
      → 0 < width
      → width + 1 < 1073741824
      → sprintf_c_str malloc vsnprintf line_fmt (unsigned_arg (width % 4294967296) ∷ [])
        ≡ ok (some (c_str (format_text width)))
  line_fmt-text width some_width small =
      let low : width % 4294967296 ≡ width = omega (arith, small) in
      sprintf_c_str-plain malloc sized vsnprintf printed documented unmarked
        ((b' ' ∷ [], percent_sign)
          ∷ (b'-' ∷ [], value [] b'u' (unsigned_arg (width % 4294967296)))
          ∷ (b's' ∷ b' ' ∷ b' ' ∷ [], percent_sign)
          ∷ [])
        (b's' ∷ b'\n' ∷ []) []
        (
          omega arith,
          tt,
          (
            omega arith,
            (
              tt,
              refl,
              (digits (width % 4294967296) (omega (arith, low, some_width)) (omega arith)).1,
            ),
            (omega arith, tt, tt),
          ),
        )
        (omega arith) (omega arith, tt) (omega arith) (omega arith)

  line-text :
      (width : ℕ) (opt : Entry)
      → IsShown opt
      → 0 < width
      → width + 1 < 1073741824
      → length (left_column opt) ≤ width
      → sprintf_c_str malloc vsnprintf
          (c_str (format_text width))
          (string_arg (some (c_str (left_column opt))) ∷ string_value (description_of opt) ∷ [])
        ≡ ok (some (c_str (line_of width opt)))
  line-text width opt h some_width small within =
      let low : width % 4294967296 ≡ width = omega (arith, small) in
      let n = width_text width in
      let col = left_column opt in
      let mark = left_column-NoMark opt h in
      let full = col ++ replicate (width - length col) b' ' in
      let padded : printed (source_of (b'-' ∷ n) b's') (string_value col) ≡ full =
        ap
          (λ (k : ℕ).
            printed (source_of (b'-' ∷ printed (b'%' ∷ b'u' ∷ []) (unsigned_arg k)) b's')
              (string_value col))
          low
        ∙ pads width col some_width (omega (arith, small)) mark in
      let fits : length full ≡ width = omega (
        arith,
        within,
        length-append col (replicate (width - length col) b' '),
        length-replicate {A = ℕ} (width - length col) b' ',
      ) in
      let d = description_of opt in
      let behind : List ℕ = b's' ∷ b' ' ∷ b' ' ∷ b'%' ∷ b's' ∷ b'\n' ∷ [] in
      let shown = printed (b'%' ∷ b's' ∷ []) (string_value d) in
      let e = whole d h.2.0 in
      let made =
        sprintf_c_str-rendered malloc sized vsnprintf printed documented unmarked
          ((b' ' ∷ [], c_string (b'-' ∷ n) col []) ∷ (b' ' ∷ b' ' ∷ [], c_string [] d []) ∷ [])
          (b'\n' ∷ []) []
          (
            omega arith,
            (
              inl (
                refl,
                (digits (width % 4294967296) (omega (arith, low, some_width)) (omega arith)).0,
              ),
              mark,
              omega (arith, ap length padded, fits, small),
            ),
            (omega arith, (tt, h.2.0, omega (arith, ap length e, h.2.1)), tt),
          )
          (omega arith) (omega arith) in
      ap
        (λ f.
          sprintf_c_str malloc vsnprintf (b' ' ∷ b'%' ∷ b'-' ∷ f)
            (string_arg (some (c_str col)) ∷ string_value d ∷ []))
        (append_assoc n behind (0 ∷ []))
      ∙ made
      ∙ ap (λ u. ok (some (c_str ((b' ' ∷ u) ++ ((b' ' ∷ b' ' ∷ shown) ++ []))))) padded
      ∙ ap (λ t. ok (some (c_str ((b' ' ∷ full) ++ t)))) (append-nil (b' ' ∷ b' ' ∷ shown))
      ∙ ap (λ t. ok (some (c_str ((b' ' ∷ full) ++ b' ' ∷ b' ' ∷ t)))) e

  all_help_lines-lines :
      (width : ℕ) (options : List Entry) (lines : List (Option (List ℕ)))
      → AreShown options
      → IsFor width options
      → all_help_lines malloc vsnprintf (c_str (format_text width)) (columns options) lines
        ≡ ok (lines ++ c_strs (lines_of width options))
  unfolding all_help_lines get_help_lines
  all_help_lines-lines width [] lines h fits = ap ok (sym (append-nil lines))
  all_help_lines-lines width (opt ∷ options) lines h fits =
      let line = some (c_str (line_of width opt)) in
      ap
        (λ x. (x >>= λ l. ok (lines ++ l ∷ [])) >>= λ all.
          all_help_lines malloc vsnprintf (c_str (format_text width)) (columns options) all)
        (line-text width opt h.0 fits.0 fits.1 (ground (arith, fits.2)))
      ∙ all_help_lines-lines width options (lines ++ line ∷ []) h.1
          (fits.0, fits.1, ground (arith, fits.2))
      ∙ ap ok (append_assoc lines (line ∷ []) (c_strs (lines_of width options)))

  lines_of-AreUnmarked :
      (width : ℕ) (options : List Entry) → AreShown options → AreUnmarked (lines_of width options)
  lines_of-AreUnmarked width [] h = tt
  lines_of-AreUnmarked width (opt ∷ options) h = (
    NoMark-append (b' ' ∷ (left_column opt ++ replicate (width - length (left_column opt)) b' '))
        (b' ' ∷ b' ' ∷ description_of opt)
        (
          omega arith,
          NoMark-append (left_column opt) (replicate (width - length (left_column opt)) b' ')
              (left_column-NoMark opt h.0) (spaces-NoMark (width - length (left_column opt))),
        )
        (omega arith, (omega arith, h.0.2.0)),
    lines_of-AreUnmarked width options h.1,
  )

  -- Let `vsnprintf` and the texts of conversions be as documented, `%s` giving the string, `%u` digits,
  -- and `%-Ns` the string with spaces behind it up to N bytes. For a context with at least one option,
  -- each of which has a name of some bytes and C strings of less than 2 ^ 30 - 1 bytes, the names with
  -- what the argument is of less than 2 ^ 30 - 1 bytes too, `cfuopt_get_help_str` returns a C string: a
  -- line for each option in the order they were added, joined by line ends, and each line is a
  -- space, the option's names with what its argument is, spaces up to the length of the longest such
  -- text of all options, two spaces, and the description.
  pub get_help_str-lines :
      (context : Context) (first : Entry) (others : List Entry)
      → context.option_list ≡ first ∷ others
      → AreShown (first ∷ others)
      → longest (first ∷ others) + 1 < 1073741824
      → get_help_str malloc vsnprintf context
        ≡ ok (
            some
              (c_str (joined (b'\n' ∷ []) (lines_of (longest (first ∷ others)) (first ∷ others)))))
  unfolding get_help_str find_longest_help_desc lines_with
  get_help_str-lines context first others e h small =
      let options = first ∷ others in
      let width = longest options in
      let zero_width : larger 0 width ≡ width = ground arith in
      let searched : find_longest_help_desc malloc vsnprintf context
          ≡ ok (found (columns options) width) =
        ap (λ l. find_all malloc vsnprintf l (found [] 0)) e
        ∙ find_all-found malloc sized vsnprintf printed documented unmarked whole options [] 0 h
        ∙ ap (λ (w : ℕ). ok (found (columns options) w)) zero_width in
      let some_width : 0 < width = ground (arith, h.0.3) in
      let fmt = line_fmt-text width some_width small in
      let lines = all_help_lines-lines width options [] h (some_width, small, omega arith) in
      let out =
        join-words malloc sized (b'\n' ∷ []) (omega arith) (lines_of width options)
          (lines_of-AreUnmarked width options h) (omega arith) in
      let ending : List ℕ = b'\n' ∷ 0 ∷ [] in
      ap
        (λ x. x >>= λ f.
          sprintf_c_str malloc vsnprintf line_fmt (unsigned_arg (f.max_size % 4294967296) ∷ [])
          >>= λ t. lines_with malloc vsnprintf t f.desc_list >>= λ l. join malloc ending l)
        searched
      ∙ ap
          (λ x. x >>= λ t.
            lines_with malloc vsnprintf t (columns options) >>= λ l. join malloc ending l)
          fmt
      ∙ ap (λ x. x >>= λ l. join malloc ending l) lines
      ∙ out
