-- ===== src/Strings/Memory.antt =====
-- Blocks of bytes, and the C library's functions on them that src/cfustring.c calls.
use libcfu.Common.{
  false, ℕ, zero, suc, ◌+◌, ◌≤◌, ◌≡◌, refl, ap, ◌≢◌, List, [], ◌∷◌, ◌++◌, arith, ◌==◌,
  if◌then◌else◌, length, Run, ok, fault, ◌>>=◌,
}

-- `strlen`: a block without an end mark is read past its end.
unfoldable pub strlen : List ℕ → Run ℕ
strlen [] = fault
strlen (c ∷ s) = let rest = strlen s in if c == 0 then ok 0 else (do n ← rest; ok (n + 1))

-- `n` bytes written at the front of a block.
unfoldable pub put_bytes : (block source : List ℕ) → ℕ → Run (List ℕ)
put_bytes block source zero = ok block
put_bytes [] source (suc n) = fault
put_bytes (x ∷ block) [] (suc n) = fault
put_bytes (x ∷ block) (c ∷ source) (suc n) = do rest ← put_bytes block source n; ok (c ∷ rest)

-- `memcpy(&block[at], source, n)`
unfoldable pub memcpy : (block : List ℕ) → ℕ → (source : List ℕ) → ℕ → Run (List ℕ)
memcpy block zero source n = put_bytes block source n
memcpy [] (suc at) source n = fault
memcpy (x ∷ block) (suc at) source n = do rest ← memcpy block at source n; ok (x ∷ rest)

-- `strncpy(block, source, n)`: an end mark in the source is written until the `n` bytes are full.
unfoldable pub strncpy : (block source : List ℕ) → ℕ → Run (List ℕ)
strncpy block source zero = ok block
strncpy [] source (suc n) = fault
strncpy (x ∷ block) [] (suc n) = fault
strncpy (x ∷ block) (c ∷ source) (suc n) = do
  rest ← strncpy block (if c == 0 then c ∷ source else source) n
  ok (c ∷ rest)

-- `block[at] = c`
abbrev pub put_byte : (block : List ℕ) → ℕ → ℕ → Run (List ℕ)
put_byte block at c = memcpy block at (c ∷ []) 1

-- No byte is the end mark.
abbrev pub NoMark : List ℕ → Type 0
NoMark [] = Unit
NoMark (c ∷ s) = (c ≢ 0) × NoMark s

pub strlen-marked :
    (word more : List ℕ) → NoMark word → strlen (word ++ 0 ∷ more) ≡ ok (length word)
unfolding strlen
strlen-marked [] more h = refl
strlen-marked (c ∷ word) more h =
    let not_end : (c == 0) ≡ false = ground arith in
    rw (not_end, strlen-marked word more h.1) (ap ok (omega arith))

put_bytes-exact :
    (source more old rest : List ℕ)
    → length old ≡ length source
    → put_bytes (old ++ rest) (source ++ more) (length source) ≡ ok (source ++ rest)
unfolding put_bytes
put_bytes-exact [] more [] rest h = refl
put_bytes-exact [] more (x ∷ old) rest h = absurd (omega arith)
put_bytes-exact (c ∷ source) more [] rest h = absurd (omega arith)
put_bytes-exact (c ∷ source) more (x ∷ old) rest h =
    rw (put_bytes-exact source more old rest (omega arith))

-- A copy replaces the bytes at its place and no others.
pub memcpy-exact :
    (ahead source more old rest : List ℕ)
    → length old ≡ length source
    → memcpy (ahead ++ (old ++ rest)) (length ahead) (source ++ more) (length source)
      ≡ ok (ahead ++ (source ++ rest))
unfolding memcpy
memcpy-exact [] source more old rest h = put_bytes-exact source more old rest h
memcpy-exact (a ∷ ahead) source more old rest h = rw (memcpy-exact ahead source more old rest h)

-- A list cut at a length that it has.
pub split_at :
    (n : ℕ) (xs : List ℕ)
    → n ≤ length xs
    → (front : List ℕ) × (back : List ℕ) × (xs ≡ front ++ back) × (length front ≡ n)
split_at zero xs h = ([], xs, refl, refl)
split_at (suc n) [] h = absurd (omega arith)
split_at (suc n) (x ∷ xs) h =
    let (front, back, e, l) = split_at n xs (omega arith) in
    (x ∷ front, back, ap (λ t. x ∷ t) e, omega arith)
