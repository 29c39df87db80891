-- ===== src/Strings/Piece.antt =====
-- The copies of pieces that `_dup_str_n` of src/cfustring.c makes.
use libcfu.Common.{
  ◌∙◌, ap, ℕ, zero, suc, ◌+◌, ◌≡◌, refl, sym, subst, false, Option, none, some, List, [], ◌∷◌, ◌++◌,
  arith, ◌==◌, length, replicate, take, length-replicate, ok,
}
use libcfu.Strings.Memory.{memcpy, put_byte, memcpy-exact}
use libcfu.Strings.Buffer.{dup_c_str_n}
use libcfu.Strings.Split.{dup_n}

-- A piece with its end mark, if there is one.
abbrev pub marked : Option (List ℕ) → Option (List ℕ)
marked none = none
marked (some piece) = some (piece ++ 0 ∷ [])

replicate-last : (n : ℕ) → replicate {A = ℕ} (suc n) 0 ≡ replicate n 0 ++ 0 ∷ []
replicate-last zero = refl
replicate-last (suc n) = ap (λ s. 0 ∷ s) (replicate-last n)

pub take-front : (f more : List ℕ) → take (length f) (f ++ more) ≡ f
take-front [] more = refl
take-front (x ∷ f) more = rw (take-front f more)

-- `_dup_str_n` of the front of a string gives that front with an end mark, and a null pointer for an
-- empty front: what the splitting takes for a piece.
pub dup_c_str_n-dup_n :
    (front rest : List ℕ)
    → dup_c_str_n (front ++ rest) (length front)
      ≡ ok (marked (dup_n (front ++ rest) (length front)))
unfolding dup_c_str_n dup_n
dup_c_str_n-dup_n [] rest = refl
dup_c_str_n-dup_n (x ∷ front) rest =
    let f = x ∷ front in
    let n = length f in
    let some_bytes : (n == 0) ≡ false = ground arith in
    let one_more : n + 1 ≡ suc n = omega arith in
    let copied : memcpy (replicate (n + 1) 0) 0 (f ++ rest) n ≡ ok (f ++ 0 ∷ []) =
      subst (λ m. memcpy m 0 (f ++ rest) n ≡ ok (f ++ 0 ∷ []))
        (sym (ap (λ k. replicate k 0) one_more ∙ replicate-last n))
        (memcpy-exact [] f rest (replicate n 0) (0 ∷ []) (length-replicate n 0)) in
    let ended : put_byte (f ++ 0 ∷ []) n 0 ≡ ok (f ++ 0 ∷ []) =
      memcpy-exact f (0 ∷ []) [] (0 ∷ []) [] refl in
    rw (some_bytes, copied, ended, take-front front rest)
