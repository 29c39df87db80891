-- ===== src/Strings/Directives.antt =====
-- What one directive of a format does to the string in `cfustring_vsprintf` of src/cfustring.c.
use libcfu.Common.{
  ◌<◌, ℕ, suc, ◌+◌, ◌≡◌, refl, ap, ◌∙◌, subst, false, some, List, [], ◌∷◌, ◌++◌, append-nil,
  append_assoc, arith, ◌==◌, length, length-append, ok, Returns,
}
use libcfu.Strings.Memory.{strlen, NoMark, strlen-marked}
use libcfu.Strings.Buffer.{CfuString, append}
use libcfu.Strings.Room.{IsText}
use libcfu.Strings.Append.{append-IsText}
use libcfu.Strings.Printf
use libcfu.Strings.Format.{VaArg, string_arg}
use libcfu.Strings.Printf.{
  Buffers, Format, format, restart, null_text, shown, percent, ahead_of_text, blank, convert,
  number, conversion, directive, character,
}
use libcfu.Strings.Convert.{Printed}
use libcfu.Strings.Rendered.{
  IsSpec, Converts, source_of, Reads-Converts, value, c_string, IsLiteral, before, value_text,
  string_text, IsDirective, piece_text,
}
use libcfu.Strings.Scan.{walked, walked-before, number-stops, Reads-number, number_value-Reads}
use libcfu.Strings.Printing.{
  AreReady, AtPiece, append_before, append_percent, convert-directive, reset-buffer,
}

module _ (malloc : ℕ → List ℕ) (sized : (n : ℕ) → length (malloc n) ≡ n)
    (vsnprintf : List ℕ → ℕ → List ℕ → VaArg → List ℕ × ℕ) (printed : List ℕ → VaArg → List ℕ)
    (documented : (buf flags more : List ℕ) (c : ℕ) (arg : VaArg)
      → IsSpec flags
      → Converts c arg
      → length buf < 2147483648
      → length (printed (source_of flags c) arg) + 1 < 1073741824
      → Printed buf
          (printed (source_of flags c) arg)
          (vsnprintf buf (length buf) (source_of flags c ++ 0 ∷ more) arg))
    (unmarked : (flags : List ℕ) (c : ℕ) (arg : VaArg)
      → IsSpec flags
      → Converts c arg
      → NoMark (printed (source_of flags c) arg)) where
  pub number-printed :
      (b : CfuString) (text lit flags rest : List ℕ) (c : ℕ) (arg : VaArg) (args : List VaArg)
      (at count : ℕ) (buffers : Buffers)
      → IsText b text
      → AreReady buffers
      → IsLiteral lit
      → IsDirective printed (value flags c arg)
      → Returns
          (number malloc vsnprintf
            (format b
              (arg ∷ args)
              (lit ++ b'%' ∷ (flags ++ c ∷ rest))
              (walked lit 0 0)
              at
              count
              buffers)
            (b'%' ∷ flags ++ c ∷ rest)
            (length flags + 2)
            c
            rest)
          (AtPiece
            (text ++ piece_text printed lit (value flags c arg))
            args
            rest
            (count + length (piece_text printed lit (value flags c arg))))
  unfolding number
  number-printed b text lit flags rest c arg args at count buffers is ready clean
        (flagged, reads, short) =
      let word = value_text printed flags c arg in
      let mark = (number-stops c (Reads-number c arg reads)).2 in
      let (r, run, (behind, e, ready')) =
        convert-directive malloc sized vsnprintf printed documented buffers flags c rest arg ready
          flagged (Reads-Converts c arg reads) mark short in
      let (b₁, run₁, is₁) = append_before malloc sized b text lit (flags ++ c ∷ rest) is clean in
      let (b₂, run₂, is₂) =
        append-IsText malloc sized b₁ (text ++ before lit) word behind is₁
          (unmarked flags c arg flagged (Reads-Converts c arg reads)) in
      let appended : append malloc b₁ (some r.buf) ≡ ok b₂ =
        ap (λ m. append malloc b₁ (some m)) e ∙ run₂ in
      let long : strlen r.buf ≡ ok (length word) =
        ap strlen e
        ∙ strlen-marked word behind (unmarked flags c arg flagged (Reads-Converts c arg reads)) in
      let sum : count + (walked lit 0 0 + 1) + length word ≡ count + length (before lit ++ word) =
        omega (arith, length-append (before lit) word, walked-before lit) in
      let taken = number_value-Reads c arg args reads in
      (
        _,
        rw (taken, run, run₁, appended, long) refl,
        (
          b₂,
          r,
          ap (λ (k : ℕ). (format b₂ args rest 0 0 k r, rest)) sum,
          subst (IsText b₂) (append_assoc text (before lit) word) is₂,
          ready',
        ),
      )

  pub percent-printed :
      (b : CfuString) (text lit rest : List ℕ) (args : List VaArg) (ahead count : ℕ)
      (buffers : Buffers)
      → IsText b text
      → AreReady buffers
      → IsLiteral lit
      → Returns
          (percent malloc
            (format b args (lit ++ b'%' ∷ b'%' ∷ rest) ahead (length lit) count buffers)
            rest)
          (AtPiece (text ++ (lit ++ b'%' ∷ [])) args rest (count + length (lit ++ b'%' ∷ [])))
  unfolding percent
  percent-printed b text lit rest args ahead count buffers is ready clean =
      let (b₁, run₁, is₁) = append_percent malloc sized b text lit (b'%' ∷ rest) is clean in
      let sum : count + (length lit + 1) ≡ count + length (lit ++ b'%' ∷ []) =
        omega (arith, length-append lit (b'%' ∷ [])) in
      (
        _,
        rw run₁ refl,
        (b₁, buffers, ap (λ (k : ℕ). (format b₁ args rest 0 0 k buffers, rest)) sum, is₁, ready),
      )

  pub blank-printed :
      (b : CfuString) (text lit rest after : List ℕ) (args : List VaArg) (at count : ℕ)
      (buffers : Buffers)
      → IsText b text
      → AreReady buffers
      → IsLiteral lit
      → Returns
          (blank malloc
            (format b args (lit ++ b'%' ∷ rest) (walked lit 0 0) at count buffers)
            after)
          (AtPiece (text ++ before lit) args after (count + length (before lit)))
  unfolding blank
  blank-printed b text lit rest after args at count buffers is ready clean =
      let (b₁, run₁, is₁) = append_before malloc sized b text lit rest is clean in
      let sum : count + (walked lit 0 0 + 1) ≡ count + length (before lit) =
        omega (arith, walked-before lit) in
      (
        _,
        rw run₁ refl,
        (b₁, buffers, ap (λ (k : ℕ). (format b₁ args after 0 0 k buffers, after)) sum, is₁, ready),
      )

  -- Ahead of a C string the literal bytes are appended, none if there are none.
  ahead_of_text-printed :
      (b : CfuString) (text lit rest : List ℕ) (args : List VaArg) (count : ℕ) (buffers : Buffers)
      → IsText b text
      → IsLiteral lit
      → Returns
          (ahead_of_text malloc
            (format b args (lit ++ b'%' ∷ rest) (walked lit 0 0) (length lit) count buffers))
          λ r. IsText r.0 (text ++ lit) × (r.1 ≡ length lit)
  unfolding ahead_of_text
  ahead_of_text-printed b text [] rest args count buffers is clean =
      ((b, 0), refl, (rw (append-nil text) is, refl))
  ahead_of_text-printed b text (c ∷ lit) rest args count buffers is clean =
      let (b₁, run₁, is₁) = append_before malloc sized b text (c ∷ lit) rest is clean in
      let some_bytes : (suc (length lit) == 0) ≡ false = ground arith in
      (_, rw (some_bytes, run₁) refl, (is₁, walked-before (c ∷ lit)))

  pub text-printed :
      (b : CfuString) (text lit flags rest s behind_s : List ℕ) (args : List VaArg) (count : ℕ)
      (buffers : Buffers)
      → IsText b text
      → AreReady buffers
      → IsLiteral lit
      → IsDirective printed (c_string flags s behind_s)
      → Returns
          (Printf.text malloc vsnprintf
            (format b
              (string_arg (some (s ++ 0 ∷ behind_s)) ∷ args)
              (lit ++ b'%' ∷ (flags ++ b's' ∷ rest))
              (walked lit 0 0)
              (length lit)
              count
              buffers)
            (b'%' ∷ flags ++ b's' ∷ rest)
            (length flags + 2)
            rest)
          (AtPiece
            (text ++ (lit ++ string_text printed flags s behind_s))
            args
            rest
            (count + length (lit ++ string_text printed flags s behind_s)))
  unfolding Printf.text
  text-printed b text lit flags rest s behind_s args count buffers is (fits, l) clean
        (flagged, no_mark, short) =
      let arg = string_arg (some (s ++ 0 ∷ behind_s)) in
      let reads : Converts b's' arg = (refl, s, behind_s, refl, no_mark) in
      let (buf, reset, size) = reset-buffer buffers.buf (omega (arith, fits)) in
      let ready : Buffers = record buffers { buf = buf } in
      let are : AreReady ready = ((size ∙ fits.0, fits.1, fits.2), l) in
      let (r, run, (behind, e, are')) =
        convert-directive malloc sized vsnprintf printed documented ready flags b's' rest arg are
          flagged reads (omega arith) short in
      let (begun, run₁, (is₁, size₁)) =
        ahead_of_text-printed b text lit (flags ++ b's' ∷ rest) (arg ∷ args) count buffers is
          clean in
      let word = string_text printed flags s behind_s in
      let marked = unmarked flags b's' arg flagged reads in
      let (b₂, run₂, is₂) =
        append-IsText malloc sized begun.0 (text ++ lit) word behind is₁ marked in
      let appended : append malloc begun.0 (some r.buf) ≡ ok b₂ =
        ap (λ m. append malloc begun.0 (some m)) e ∙ run₂ in
      let long : strlen r.buf ≡ ok (length word) = ap strlen e ∙ strlen-marked word behind marked in
      let sum : count + begun.1 + length word ≡ count + length (lit ++ word) =
        omega (arith, length-append lit word, size₁) in
      (
        _,
        rw (reset, run, run₁, appended, long) refl,
        (
          b₂,
          r,
          ap (λ (k : ℕ). (format b₂ args rest 0 0 k r, rest)) sum,
          subst (IsText b₂) (append_assoc text lit word) is₂,
          are',
        ),
      )
