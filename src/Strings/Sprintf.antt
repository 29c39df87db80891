-- ===== src/Strings/Sprintf.antt =====
-- `cfustring_vsprintf` and `cfustring_sprintf_c_str` of src/cfustring.c against the description of
-- Strings/Rendered.antt.
use libcfu.Common.{
  ℕ, suc, ◌+◌, ◌-◌, ◌≤◌, ◌<◌, ◌≡◌, refl, ap, ◌∙◌, subst, false, List, [], ◌∷◌, ◌++◌, append-nil,
  append_assoc, arith, ◌==◌, length, length-append, ok, ◌>>=◌, Returns,
}
use libcfu.Strings.Memory.{NoMark}
use libcfu.Strings.Buffer.{CfuString}
use libcfu.Strings.Room.{IsText}
use libcfu.Strings.Append.{append_n-IsText, clear-IsText}
use libcfu.Strings.Format.{VaArg}
use libcfu.Strings.Printf.{
  Buffers, Format, format, character, directive, conversion, finish, vsprintf_loop, vsprintf,
}
use libcfu.Strings.Convert.{Printed}
use libcfu.Strings.Rendered.{
  IsSpec, Converts, source_of, spec-IsFlags, Directive, percent_sign, value, c_string, cut_short,
  Piece, format_of, args_of, spelled, asked, IsLiteral, last_bytes, IsDirective, ArePieces,
  piece_text, rendered, counted,
}
use libcfu.Strings.Scan.{
  walked, walked-before, number-stops, blank-IsBlankOnly, Reads-number, directive-flags,
  vsprintf_loop-literal,
}
use libcfu.Strings.Printing.{AreReady, AtPiece}
use libcfu.Strings.Directives.{number-printed, percent-printed, blank-printed, text-printed}

pub length-spelled : (d : Directive) (rest : List ℕ) → length rest < length (spelled d rest)
length-spelled percent_sign rest = omega arith
length-spelled (value flags c arg) rest = omega (arith, length-append flags (c ∷ rest))
length-spelled (c_string flags s more) rest = omega (arith, length-append flags (b's' ∷ rest))
length-spelled (cut_short flags c) rest = omega (arith, length-append flags (c ∷ rest))

module _ (malloc : ℕ → List ℕ) (sized : (n : ℕ) → length (malloc n) ≡ n)
    (vsnprintf : List ℕ → ℕ → List ℕ → VaArg → List ℕ × ℕ) (printed : List ℕ → VaArg → List ℕ)
    (documented : (buf flags more : List ℕ) (c : ℕ) (arg : VaArg)
      → IsSpec flags
      → Converts c arg
      → length buf < 2147483648
      → length (printed (source_of flags c) arg) + 1 < 1073741824
      → Printed buf
          (printed (source_of flags c) arg)
          (vsnprintf buf (length buf) (source_of flags c ++ 0 ∷ more) arg))
    (unmarked : (flags : List ℕ) (c : ℕ) (arg : VaArg)
      → IsSpec flags
      → Converts c arg
      → NoMark (printed (source_of flags c) arg)) where
  abbrev scanned :
      CfuString → (lit : List ℕ) → Directive → (rest : List ℕ) → List VaArg → ℕ → Buffers → Format
  scanned b lit d rest args count buffers =
      format b (asked d args) (lit ++ b'%' ∷ spelled d rest) (walked lit 0 0) (length lit) count
        buffers

  -- One directive, from its `%` to what is behind it.
  character-printed :
      (b : CfuString) (text lit rest : List ℕ) (d : Directive) (args : List VaArg) (count : ℕ)
      (buffers : Buffers)
      → IsText b text
      → AreReady buffers
      → IsLiteral lit
      → IsDirective printed d
      → Returns
          (character malloc vsnprintf
            (scanned b lit d rest args count buffers)
            b'%'
            (spelled d rest))
          (AtPiece
            (text ++ piece_text printed lit d)
            args
            rest
            (count + length (piece_text printed lit d)))
  unfolding character directive conversion
  character-printed b text lit rest percent_sign args count buffers is ready clean sound =
      percent-printed malloc sized vsnprintf printed documented unmarked b text lit rest args
        (walked lit 0 0) count buffers is ready clean
  character-printed b text lit rest (value flags c arg) args count buffers is ready clean sound =
      let st = scanned b lit (value flags c arg) rest args count buffers in
      let a_number = Reads-number c arg sound.1 in
      let (stop, other, mark) = number-stops c a_number in
      let there =
        directive-flags malloc vsnprintf st flags c rest (spec-IsFlags flags sound.0) stop other in
      let (r, run, post) =
        number-printed malloc sized vsnprintf printed documented unmarked b text lit flags rest c
          arg args (length lit) count buffers is ready clean sound in
      (r, there ∙ rw a_number run, post)
  character-printed b text lit rest (c_string flags s more) args count buffers is ready clean
        sound =
      let st = scanned b lit (c_string flags s more) rest args count buffers in
      let there =
        directive-flags malloc vsnprintf st flags b's' rest (spec-IsFlags flags sound.0) refl
          refl in
      let (r, run, post) =
        text-printed malloc sized vsnprintf printed documented unmarked b text lit flags rest s more
          args count buffers is ready clean sound in
      (r, there ∙ run, post)
  character-printed b text lit rest (cut_short flags c) args count buffers is ready clean sound =
      let st = scanned b lit (cut_short flags c) rest args count buffers in
      let (stop, other, not_number, not_string, a_blank) = blank-IsBlankOnly c sound.1 in
      let there = directive-flags malloc vsnprintf st flags c rest sound.0 stop other in
      let (r, run, post) =
        blank-printed malloc sized vsnprintf printed documented unmarked b text lit
          (flags ++ c ∷ rest) rest args (length lit) count buffers is ready clean in
      (r, there ∙ rw (not_number, not_string, a_blank) run, post)

  -- The end of a format: what is left is appended, unless it is a single byte.
  finish-printed :
      (b : CfuString) (text tail more : List ℕ) (args : List VaArg) (at count : ℕ)
      (buffers : Buffers)
      → IsText b text
      → IsLiteral tail
      → Returns
          (finish malloc (format b args (tail ++ 0 ∷ more) (walked tail 0 0) at count buffers))
          λ r. IsText r.0 (text ++ last_bytes tail) × (r.1 ≡ count + length (last_bytes tail))
  unfolding finish
  finish-printed b text [] more args at count buffers is clean =
      ((b, count), refl, (rw (append-nil text) is, omega arith))
  finish-printed b text (c ∷ []) more args at count buffers is clean =
      ((b, count), refl, (rw (append-nil text) is, omega arith))
  finish-printed b text (c ∷ c' ∷ tail) more args at count buffers is clean =
      let size = walked-before (c ∷ c' ∷ tail) in
      let going : (walked (c ∷ c' ∷ tail) 0 0 == 0) ≡ false = ground (arith, size) in
      let (b', run, is') =
        append_n-IsText malloc sized b text (c' ∷ tail) (0 ∷ more) c is clean.0 in
      ((b', count + length (c ∷ c' ∷ tail)), rw (going, size, run) refl, (is', refl))

  -- One piece, with enough fuel for it: the loop goes on at what is behind it.
  pub vsprintf_loop-piece :
      (lit rest : List ℕ) (d : Directive) (args : List VaArg) (n : ℕ) (b : CfuString)
      (text : List ℕ) (count : ℕ) (buffers : Buffers)
      → length lit < n
      → IsText b text
      → AreReady buffers
      → IsLiteral lit
      → IsDirective printed d
      → (b' : CfuString) × (buffers' : Buffers) × IsText b' (text ++ piece_text printed lit d)
        × AreReady buffers'
        × (vsprintf_loop malloc vsnprintf n
              (format b (asked d args) (lit ++ b'%' ∷ spelled d rest) 0 0 count buffers)
              (lit ++ b'%' ∷ spelled d rest)
            ≡ vsprintf_loop malloc vsnprintf
                (n - length lit - 1)
                (format b' args rest 0 0
                  (count + length lit + length (piece_text printed lit d))
                  buffers')
                rest)
  unfolding vsprintf_loop
  vsprintf_loop-piece lit rest d args n b text count buffers enough is ready clean sound =
      let fmt = lit ++ b'%' ∷ spelled d rest in
      let m = n - length lit - 1 in
      let rounds : n ≡ length lit + suc m = omega (arith, enough) in
      let step =
        vsprintf_loop-literal malloc vsnprintf lit (b'%' ∷ spelled d rest) (suc m) b (asked d args)
          fmt 0 0 count buffers clean in
      let (r, run, (b', buffers', e, is', ready')) =
        character-printed b text lit rest d args (count + length lit) buffers is ready clean
          sound in
      let from = λ (k p : ℕ).
        vsprintf_loop malloc vsnprintf k
          (format b (asked d args) fmt (walked lit 0 0) p (count + length lit) buffers)
          (b'%' ∷ spelled d rest) in
      let more_fuel =
        ap
          (λ (k : ℕ).
            vsprintf_loop malloc vsnprintf k (format b (asked d args) fmt 0 0 count buffers) fmt)
          rounds in
      (
        b',
        buffers',
        is',
        ready',
        more_fuel
            ∙ (step
                ∙ (ap (from (suc m)) (omega arith)
                    ∙ ap (λ x. x >>= λ next. vsprintf_loop malloc vsnprintf m next.0 next.1)
                        (run ∙ ap ok e))),
      )

  -- The loop, with enough fuel for the bytes of the format.
  vsprintf_loop-rendered :
      (pieces : List Piece) (tail more : List ℕ) (n : ℕ) (b : CfuString) (text : List ℕ) (count : ℕ)
      (buffers : Buffers)
      → length (format_of pieces tail more) ≤ n
      → IsText b text
      → AreReady buffers
      → ArePieces printed pieces
      → IsLiteral tail
      → Returns
          (vsprintf_loop malloc vsnprintf n
            (format b (args_of pieces) (format_of pieces tail more) 0 0 count buffers)
            (format_of pieces tail more))
          λ r.
            IsText r.0 (text ++ rendered printed pieces tail)
            × (r.1 ≡ count + counted printed pieces tail)
  unfolding vsprintf_loop
  vsprintf_loop-rendered [] tail more n b text count buffers enough is ready sound clean =
      let m = n - length tail - 1 in
      let rounds : n ≡ length tail + suc m = omega (arith, enough, length-append tail (0 ∷ more)) in
      let step =
        vsprintf_loop-literal malloc vsnprintf tail (0 ∷ more) (suc m) b [] (tail ++ 0 ∷ more) 0 0
          count buffers clean in
      let (r, run, (is', size)) =
        finish-printed b text tail more [] (0 + length tail) (count + length tail) buffers is
          clean in
      let st = format b [] (tail ++ 0 ∷ more) 0 0 count buffers in
      let more_fuel =
        ap (λ (k : ℕ). vsprintf_loop malloc vsnprintf k st (tail ++ 0 ∷ more)) rounds in
      (r, more_fuel ∙ step ∙ run, (is', omega (arith, size)))
  vsprintf_loop-rendered ((lit, d) ∷ pieces) tail more n b text count buffers enough is ready sound
        clean =
      let rest = format_of pieces tail more in
      let long = length-append lit (b'%' ∷ spelled d rest) in
      let (b', buffers', is', ready', round) =
        vsprintf_loop-piece lit rest d (args_of pieces) n b text count buffers
          (omega (arith, enough, long)) is ready sound.0 sound.1 in
      let (r, run, (is'', size)) =
        vsprintf_loop-rendered pieces tail more (n - length lit - 1) b'
          (text ++ piece_text printed lit d)
          (count + length lit + length (piece_text printed lit d)) buffers'
          (omega (arith, enough, long, length-spelled d rest)) is' ready' sound.2 clean in
      (
        r,
        round ∙ run,
        (
          subst (IsText r.0) (append_assoc text (piece_text printed lit d) _) is'',
          omega (arith, size),
        ),
      )

  -- Let `vsnprintf` do what C documents for a conversion with a width or none, and a `-` ahead of it or
  -- none, whose argument is of the type that it reads, a C string for `%s`; and let the format be literal
  -- bytes, directives of this kind with their arguments (each text shorter than 2 ^ 30 - 1 bytes) and a
  -- tail. Then `cfustring_vsprintf` returns: every call of `vsnprintf` gets a large enough buffer, and no
  -- byte outside the format, the buffers or the string is read or written. The string then holds,
  -- whatever text it held, the pieces as Strings/Rendered.antt describes them, and the result is the
  -- count of that description.
  pub vsprintf-rendered :
      (b : CfuString) (old : List ℕ) (pieces : List Piece) (tail more : List ℕ)
      → IsText b old
      → ArePieces printed pieces
      → IsLiteral tail
      → Returns
          (vsprintf malloc vsnprintf b (format_of pieces tail more) (args_of pieces))
          λ r. IsText r.0 (rendered printed pieces tail) × (r.1 ≡ counted printed pieces tail)
  unfolding vsprintf
  vsprintf-rendered b old pieces tail more is sound clean =
      let (b', run, is') = clear-IsText b old is in
      let buffers : Buffers = record {
        buf = malloc 128;
        buf_size = 128;
        buf2 = malloc 128;
        buf2_size = 128;
      } in
      let (r, run', (is'', size)) =
        vsprintf_loop-rendered pieces tail more (length (format_of pieces tail more)) b' [] 0
          buffers (omega arith) is' ((sized 128, omega arith, omega arith), sized 128) sound
          clean in
      (r, rw (run, run') refl, (is'', omega (arith, size)))
