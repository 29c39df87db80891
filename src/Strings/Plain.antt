-- ===== src/Strings/Plain.antt =====
-- Formats that the printf family of src/cfustring.c takes as printf does, and
-- `cfustring_sprintf_c_str` on them.
use libcfu.Common.{
  ◌+◌, ℕ, ◌<◌, ◌≡◌, refl, sym, ap, ◌∙◌, subst, ◌≢◌, inl, inr, false, none, some, List, [], ◌∷◌,
  ◌++◌, arith, ◌==◌, if◌then◌else◌, length, ok, ◌>>=◌,
}
use libcfu.Strings.Memory.{NoMark}
use libcfu.Strings.Buffer.{CfuString, cfu_string, new, new_with_initial_size, get_buffer_copy}
use libcfu.Strings.Room.{IsText}
use libcfu.Strings.Append.{get_buffer_copy-text}
use libcfu.Strings.Format.{VaArg}
use libcfu.Strings.Printf.{sprintf_c_str}
use libcfu.Strings.Convert.{Printed}
use libcfu.Strings.Rendered.{
  IsSpec, Converts, source_of, Directive, percent_sign, value, c_string, cut_short, Piece,
  format_of, args_of, IsLiteral, last_bytes, before, ArePieces, value_text, string_text, rendered,
}
use libcfu.Strings.Sprintf.{vsprintf-rendered}

-- Literal bytes ahead of each number, and no `%` that a blank cuts short.
abbrev pub ArePlain : List Piece → Type 0
ArePlain [] = Unit
ArePlain ((lit, percent_sign) ∷ pieces) = ArePlain pieces
ArePlain ((lit, value flags c arg) ∷ pieces) = (0 < length lit) × ArePlain pieces
ArePlain ((lit, c_string flags s more) ∷ pieces) = ArePlain pieces
ArePlain ((lit, cut_short flags c) ∷ pieces) = ⊥

module _ (printed : List ℕ → VaArg → List ℕ) where
  abbrev pub directive_text : Directive → List ℕ
  directive_text percent_sign = b'%' ∷ []
  directive_text (value flags c arg) = value_text printed flags c arg
  directive_text (c_string flags s more) = string_text printed flags s more
  directive_text (cut_short flags c) = []

  -- The text that printf makes.
  abbrev pub printf_text : List Piece → (tail : List ℕ) → List ℕ
  printf_text [] tail = tail
  printf_text ((lit, d) ∷ pieces) tail = (lit ++ directive_text d) ++ printf_text pieces tail

  last_bytes-all : (tail : List ℕ) → length tail ≢ 1 → last_bytes tail ≡ tail
  last_bytes-all [] h = refl
  last_bytes-all (c ∷ []) h = absurd (h refl)
  last_bytes-all (c ∷ c' ∷ tail) h = refl

  before-some : (lit : List ℕ) → 0 < length lit → before lit ≡ lit
  before-some [] h = absurd (omega (arith, h))
  before-some (c ∷ lit) h = refl

  rendered-plain :
      (pieces : List Piece) (tail : List ℕ)
      → ArePlain pieces
      → length tail ≢ 1
      → rendered printed pieces tail ≡ printf_text pieces tail
  rendered-plain [] tail plain h = last_bytes-all tail h
  rendered-plain ((lit, percent_sign) ∷ pieces) tail plain h =
      rw (rendered-plain pieces tail plain h) refl
  rendered-plain ((lit, value flags c arg) ∷ pieces) tail plain h =
      rw (rendered-plain pieces tail plain.1 h, before-some lit plain.0) refl
  rendered-plain ((lit, c_string flags s more) ∷ pieces) tail plain h =
      rw (rendered-plain pieces tail plain h) refl
  rendered-plain ((lit, cut_short flags c) ∷ pieces) tail plain h = elim plain [ ]

-- A string with a text has a block.
pub text-has_block :
    (b : CfuString) (text : List ℕ) → IsText b text → 0 < length text → (b.used_size == 0) ≡ false
text-has_block b text (inl (e, nothing)) h = absurd (omega (arith, h, ap length nothing))
text-has_block b text (inr (rest, e)) h = rw e (ground arith)

new_empty : new ≡ cfu_string 0 0 none
unfolding new new_with_initial_size
new_empty = refl

module _ (malloc : ℕ → List ℕ) (sized : (n : ℕ) → length (malloc n) ≡ n)
    (vsnprintf : List ℕ → ℕ → List ℕ → VaArg → List ℕ × ℕ) (printed : List ℕ → VaArg → List ℕ)
    (documented : (buf flags more : List ℕ) (c : ℕ) (arg : VaArg)
      → IsSpec flags
      → Converts c arg
      → length buf < 2147483648
      → length (printed (source_of flags c) arg) + 1 < 1073741824
      → Printed buf
          (printed (source_of flags c) arg)
          (vsnprintf buf (length buf) (source_of flags c ++ 0 ∷ more) arg))
    (unmarked : (flags : List ℕ) (c : ℕ) (arg : VaArg)
      → IsSpec flags
      → Converts c arg
      → NoMark (printed (source_of flags c) arg)) where
  -- `cfustring_sprintf_c_str` of a format whose text is not empty.
  pub sprintf_c_str-rendered :
      (pieces : List Piece) (tail more : List ℕ)
      → ArePieces printed pieces
      → IsLiteral tail
      → 0 < length (rendered printed pieces tail)
      → sprintf_c_str malloc vsnprintf (format_of pieces tail more) (args_of pieces)
        ≡ ok (some (rendered printed pieces tail ++ 0 ∷ []))
  unfolding sprintf_c_str
  sprintf_c_str-rendered pieces tail more sound clean some_text =
      let out = rendered printed pieces tail in
      let (r, run, (is, size)) =
        vsprintf-rendered malloc sized vsnprintf printed documented unmarked new [] pieces tail more
          (inl (new_empty, refl)) sound clean in
      let copied = get_buffer_copy-text r.0 out is in
      let block = text-has_block r.0 out is some_text in
      ap (λ w. w >>= λ b. get_buffer_copy b.0) run
      ∙ (copied ∙ ap (λ e. ok (if e then none else some (out ++ 0 ∷ []))) block)

  -- Let `vsnprintf` be as documented for such conversions. Where literal bytes stand ahead of each number, no `%` is cut short by a space or a tab, the
  -- tail is not a single byte and the text is not empty, `cfustring_sprintf_c_str` gives the text
  -- that printf makes, with its end mark: the literal bytes, `%` for `%%`, what `vsnprintf`
  -- documents for each conversion, which has a width or none, and a `-` ahead of it or none.
  pub sprintf_c_str-plain :
      (pieces : List Piece) (tail more : List ℕ)
      → ArePieces printed pieces
      → IsLiteral tail
      → ArePlain pieces
      → length tail ≢ 1
      → 0 < length (printf_text printed pieces tail)
      → sprintf_c_str malloc vsnprintf (format_of pieces tail more) (args_of pieces)
        ≡ ok (some (printf_text printed pieces tail ++ 0 ∷ []))
  sprintf_c_str-plain pieces tail more sound clean plain longer some_text =
      let same = rendered-plain printed pieces tail plain longer in
      sprintf_c_str-rendered pieces tail more sound clean
        (subst (λ t. 0 < length t) (sym same) some_text)
      ∙ ap (λ t. ok (some (t ++ 0 ∷ []))) same
