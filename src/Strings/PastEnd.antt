-- ===== src/Strings/PastEnd.antt =====
-- A format of src/cfustring.c that ends inside a conversion.
use libcfu.Common.{
  ◌<◌, ℕ, suc, ◌+◌, ◌-◌, ◌≤◌, ◌≡◌, refl, ap, ◌∙◌, List, [], ◌∷◌, ◌++◌, arith, length, length-append,
  fault, ◌>>=◌,
}
use libcfu.Strings.Memory.{NoMark}
use libcfu.Strings.Buffer.{CfuString}
use libcfu.Strings.Room.{IsText}
use libcfu.Strings.Append.{clear-IsText}
use libcfu.Strings.Format.{VaArg}
use libcfu.Strings.Printf.{Buffers, format, character, conversion, vsprintf_loop, vsprintf}
use libcfu.Strings.Convert.{Printed}
use libcfu.Strings.Rendered.{
  IsSpec, Converts, source_of, Piece, args_of, spelled, IsLiteral, IsFlags, ArePieces, piece_text,
}
use libcfu.Strings.Scan.{walked, directive-flags, vsprintf_loop-literal}
use libcfu.Strings.Printing.{AreReady}
use libcfu.Strings.Sprintf.{length-spelled, vsprintf_loop-piece}

-- Pieces, and then literal bytes, a `%`, flags and the end mark, with no memory behind it.
abbrev pub unfinished : List Piece → (lit flags : List ℕ) → List ℕ
unfinished [] lit flags = lit ++ b'%' ∷ (flags ++ 0 ∷ [])
unfinished ((lit', d) ∷ pieces) lit flags = lit' ++ b'%' ∷ spelled d (unfinished pieces lit flags)

module _ (malloc : ℕ → List ℕ) (sized : (n : ℕ) → length (malloc n) ≡ n)
    (vsnprintf : List ℕ → ℕ → List ℕ → VaArg → List ℕ × ℕ) (printed : List ℕ → VaArg → List ℕ)
    (documented : (buf flags more : List ℕ) (c : ℕ) (arg : VaArg)
      → IsSpec flags
      → Converts c arg
      → length buf < 2147483648
      → length (printed (source_of flags c) arg) + 1 < 1073741824
      → Printed buf
          (printed (source_of flags c) arg)
          (vsnprintf buf (length buf) (source_of flags c ++ 0 ∷ more) arg))
    (unmarked : (flags : List ℕ) (c : ℕ) (arg : VaArg)
      → IsSpec flags
      → Converts c arg
      → NoMark (printed (source_of flags c) arg)) where
  -- The scan stops at the end mark, and `fmt` moves past it.
  loop-unfinished :
      (lit flags : List ℕ) (n : ℕ) (b : CfuString) (count : ℕ) (buffers : Buffers)
      → length (unfinished [] lit flags) ≤ n
      → IsLiteral lit
      → IsFlags flags
      → vsprintf_loop malloc vsnprintf n
          (format b [] (unfinished [] lit flags) 0 0 count buffers)
          (unfinished [] lit flags)
        ≡ fault
  unfolding vsprintf_loop character conversion
  loop-unfinished lit flags n b count buffers enough clean flagged =
      let fmt = unfinished [] lit flags in
      let m = n - length lit - 2 in
      let long = length-append lit (b'%' ∷ (flags ++ 0 ∷ [])) in
      let rounds : n ≡ length lit + suc (suc m) =
        omega (arith, enough, long, length-append flags (0 ∷ [])) in
      let st = format b [] fmt (walked lit 0 0) (0 + length lit) (count + length lit) buffers in
      let step =
        vsprintf_loop-literal malloc vsnprintf lit (b'%' ∷ (flags ++ 0 ∷ [])) (suc (suc m)) b [] fmt
          0 0 count buffers clean in
      let there = directive-flags malloc vsnprintf st flags 0 [] flagged refl refl in
      ap (λ (k : ℕ). vsprintf_loop malloc vsnprintf k (format b [] fmt 0 0 count buffers) fmt)
        rounds
      ∙ (step ∙ ap (λ x. x >>= λ next. vsprintf_loop malloc vsnprintf (suc m) next.0 next.1) there)

  loop-past_end :
      (pieces : List Piece) (lit flags : List ℕ) (n : ℕ) (b : CfuString) (text : List ℕ) (count : ℕ)
      (buffers : Buffers)
      → length (unfinished pieces lit flags) ≤ n
      → IsText b text
      → AreReady buffers
      → ArePieces printed pieces
      → IsLiteral lit
      → IsFlags flags
      → vsprintf_loop malloc vsnprintf n
          (format b (args_of pieces) (unfinished pieces lit flags) 0 0 count buffers)
          (unfinished pieces lit flags)
        ≡ fault
  loop-past_end [] lit flags n b text count buffers enough is ready sound clean flagged =
      loop-unfinished lit flags n b count buffers enough clean flagged
  loop-past_end ((lit', d) ∷ pieces) lit flags n b text count buffers enough is ready sound clean
        flagged =
      let rest = unfinished pieces lit flags in
      let long = length-append lit' (b'%' ∷ spelled d rest) in
      let (b', buffers', is', ready', round) =
        vsprintf_loop-piece malloc sized vsnprintf printed documented unmarked lit' rest d
          (args_of pieces) n b text count buffers (omega (arith, enough, long)) is ready sound.0
          sound.1 in
      round
      ∙ loop-past_end pieces lit flags (n - length lit' - 1) b' (text ++ piece_text printed lit' d)
          (count + length lit' + length (piece_text printed lit' d)) buffers'
          (omega (arith, enough, long, length-spelled d rest)) is' ready' sound.2 clean flagged

  -- Let `vsnprintf` do what C documents for a conversion with a width or none, and a `-` ahead of it or
  -- none, whose argument is of the type that it reads. For a format of literal bytes and directives, with an argument each of the type they read, that ends
  -- in a `%` with nothing but flags behind it, `cfustring_vsprintf` reads past the end of the format.
  pub vsprintf-past_end :
      (b : CfuString) (old : List ℕ) (pieces : List Piece) (lit flags : List ℕ)
      → IsText b old
      → ArePieces printed pieces
      → IsLiteral lit
      → IsFlags flags
      → vsprintf malloc vsnprintf b (unfinished pieces lit flags) (args_of pieces) ≡ fault
  unfolding vsprintf
  vsprintf-past_end b old pieces lit flags is sound clean flagged =
      let (b', run, is') = clear-IsText b old is in
      let buffers : Buffers = record {
        buf = malloc 128;
        buf_size = 128;
        buf2 = malloc 128;
        buf2_size = 128;
      } in
      rw run (
        loop-past_end pieces lit flags (length (unfinished pieces lit flags)) b' [] 0 buffers
          (omega arith) is' ((sized 128, omega arith, omega arith), sized 128) sound clean flagged)
