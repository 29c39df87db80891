-- ===== src/Strings/Printing.antt =====
-- What the directives of `cfustring_vsprintf` of src/cfustring.c share: the literal bytes ahead of
-- them, and the conversion of a value.
use libcfu.Common.{
  ℕ, suc, ◌+◌, ◌<◌, ◌≡◌, refl, sym, ap, ◌∙◌, ◌≢◌, some, List, [], ◌∷◌, ◌++◌, append_assoc, arith,
  length, length-append, ok, Returns,
}
use libcfu.Strings.Memory.{put_bytes, memcpy, put_byte, NoMark}
use libcfu.Strings.Buffer.{CfuString, append_n}
use libcfu.Strings.Room.{IsText, first_byte}
use libcfu.Strings.Append.{append_n-IsText}
use libcfu.Strings.Format.{VaArg}
use libcfu.Strings.Printf.{Buffers, Format, format, convert}
use libcfu.Strings.Convert.{
  IsBuffer, Printed, put_byte-marked, safe_strncpy-copied, safe_sprintf-printed,
}
use libcfu.Strings.Rendered.{
  IsSpec, Converts, source_of, spec-IsFlags, IsLiteral, IsFlags, before, value_text,
}
use libcfu.Strings.Scan.{walked, walked-before}

abbrev pub AreReady : Buffers → Type 0
AreReady r = IsBuffer r.buf r.buf_size × (length r.buf2 ≡ r.buf2_size)

-- The state at the start of a piece, with nothing scanned.
abbrev pub AtPiece :
    (text : List ℕ) → List VaArg → (fmt : List ℕ) → (count : ℕ) → Format × List ℕ → Type 0
AtPiece text args fmt count r =
    (b : CfuString) × (buffers : Buffers) × (r ≡ (format b args fmt 0 0 count buffers, fmt))
    × IsText b text
    × AreReady buffers

flags-NoMark : (flags : List ℕ) (c : ℕ) → IsFlags flags → c ≢ 0 → NoMark (flags ++ c ∷ [])
flags-NoMark [] c h mark = (mark, tt)
flags-NoMark (f ∷ flags) c h mark = (ground (arith, h.0), flags-NoMark flags c h.2 mark)

source-NoMark : (flags : List ℕ) (c : ℕ) → IsFlags flags → c ≢ 0 → NoMark (source_of flags c)
source-NoMark flags c h mark = (omega arith, flags-NoMark flags c h mark)

source-length : (flags : List ℕ) (c : ℕ) → length (source_of flags c) ≡ length flags + 2
source-length flags c = omega (arith, length-append flags (c ∷ []))

source-rest :
    (flags : List ℕ) (c : ℕ) (rest : List ℕ) → source_of flags c ++ rest ≡ b'%' ∷ flags ++ c ∷ rest
source-rest flags c rest = ap (λ t. b'%' ∷ t) (append_assoc flags (c ∷ []) rest)

pub literal-NoMark : (lit : List ℕ) → IsLiteral lit → NoMark lit
literal-NoMark [] h = tt
literal-NoMark (c ∷ lit) h = (h.0, literal-NoMark lit h.2)

pub reset-buffer :
    (buf : List ℕ) → 0 < length buf → Returns (put_byte buf 0 0) λ r. length r ≡ length buf
unfolding memcpy put_bytes
reset-buffer buf h =
    let (x, rest, whole) = first_byte buf (omega (arith, h)) in
    (0 ∷ rest, rw whole refl, rw whole refl)

module _ (malloc : ℕ → List ℕ) (sized : (n : ℕ) → length (malloc n) ≡ n) where
  -- The bytes from `start` to `end`.
  pub append_before :
      (b : CfuString) (text lit rest : List ℕ)
      → IsText b text
      → IsLiteral lit
      → Returns
          (append_n malloc b (some (lit ++ b'%' ∷ rest)) (walked lit 0 0 + 1))
          λ b'. IsText b' (text ++ before lit)
  append_before b text [] rest is clean =
      append_n-IsText malloc sized b text [] rest b'%' is (omega arith)
  append_before b text (c ∷ lit) rest is clean =
      rw (walked-before (c ∷ lit))
        (append_n-IsText malloc sized b text lit (b'%' ∷ rest) c is clean.0)

  -- The literal bytes and the `%` behind them.
  pub append_percent :
      (b : CfuString) (text lit rest : List ℕ)
      → IsText b text
      → IsLiteral lit
      → Returns
          (append_n malloc b (some (lit ++ b'%' ∷ rest)) (length lit + 1))
          λ b'. IsText b' (text ++ (lit ++ b'%' ∷ []))
  append_percent b text [] rest is clean =
      append_n-IsText malloc sized b text [] rest b'%' is (omega arith)
  append_percent b text (c ∷ lit) rest is clean =
      let size : suc (length lit) + 1 ≡ suc (length (lit ++ b'%' ∷ [])) =
        omega (arith, length-append lit (b'%' ∷ [])) in
      rw (size, sym (append_assoc lit (b'%' ∷ []) rest))
        (append_n-IsText malloc sized b text (lit ++ b'%' ∷ []) rest c is clean.0)

  module _ (vsnprintf : List ℕ → ℕ → List ℕ → VaArg → List ℕ × ℕ)
      (printed : List ℕ → VaArg → List ℕ)
      (documented : (buf flags more : List ℕ) (c : ℕ) (arg : VaArg)
        → IsSpec flags
        → Converts c arg
        → length buf < 2147483648
        → length (printed (source_of flags c) arg) + 1 < 1073741824
        → Printed buf
            (printed (source_of flags c) arg)
            (vsnprintf buf (length buf) (source_of flags c ++ 0 ∷ more) arg)) where
    -- A conversion copied and its value written.
    convert-printed :
        (buffers : Buffers) (flags : List ℕ) (c : ℕ) (more : List ℕ) (arg : VaArg)
        → AreReady buffers
        → IsSpec flags
        → Converts c arg
        → c ≢ 0
        → length (printed (source_of flags c) arg) + 1 < 1073741824
        → Returns
            (convert malloc vsnprintf buffers
              (source_of flags c ++ more)
              (length (source_of flags c))
              arg)
            λ r.
              (rest : List ℕ) × (r.buf ≡ printed (source_of flags c) arg ++ 0 ∷ rest) × AreReady r
    unfolding convert
    convert-printed buffers flags c more arg (is, l) spec reads mark short =
        let source = source_of flags c in
        let clean = source-NoMark flags c (spec-IsFlags flags spec) mark in
        let (copied, run, (z, rest, e, l')) =
          safe_strncpy-copied malloc sized buffers.buf2 source more buffers.buf2_size l clean in
        let marked : put_byte copied.0 (length source) 0 ≡ ok (source ++ 0 ∷ rest) =
          ap (λ m. put_byte m (length source) 0) e ∙ put_byte-marked source rest z in
        let (written, run', (behind, e', is')) =
          safe_sprintf-printed malloc sized vsnprintf printed source arg
            (λ buf more' small. documented buf flags more' c arg spec reads small short) buffers.buf
            buffers.buf_size rest is short in
        let same : length (source ++ 0 ∷ rest) ≡ copied.1 = omega (
          arith,
          l',
          ap length e,
          length-append source (0 ∷ rest),
          length-append source (z ∷ rest),
        ) in
        (
          record {
            buf = written.0;
            buf_size = written.1;
            buf2 = source ++ 0 ∷ rest;
            buf2_size = copied.1;
          },
          rw (run, marked, run') refl,
          (behind, e', (is', same)),
        )

    -- The same with the conversion where it stands in the format.
    pub convert-directive :
        (buffers : Buffers) (flags : List ℕ) (c : ℕ) (rest : List ℕ) (arg : VaArg)
        → AreReady buffers
        → IsSpec flags
        → Converts c arg
        → c ≢ 0
        → length (value_text printed flags c arg) + 1 < 1073741824
        → Returns
            (convert malloc vsnprintf buffers (b'%' ∷ flags ++ c ∷ rest) (length flags + 2) arg)
            λ r.
              (behind : List ℕ) × (r.buf ≡ value_text printed flags c arg ++ 0 ∷ behind)
              × AreReady r
    convert-directive buffers flags c rest arg ready spec reads mark short =
        rw (sym (source-length flags c), sym (source-rest flags c rest))
          (convert-printed buffers flags c rest arg ready spec reads mark short)
