-- ===== src/Hash/Size.antt =====
-- `hash_size` of src/cfuhash.c: the number of buckets as a power of two.
use native.Mathlib.Nat.{pow-suc, pow-le-pow_right}
use native.Mathlib.Decide.{dec_lt}
use libcfu.Common.{
  ℕ, zero, suc, ◌+◌, ◌*◌, ◌%◌, ◌^◌, ◌≤◌, ◌<◌, ◌≡◌, refl, arith, ltb, if◌then◌else◌, Run, ok, hangs,
  Returns, inl, inr, Bool-cases,
}

-- `while (i < s) i <<= 1`, with `i` of 32 bits.
unfoldable pub hash_size_loop : ℕ → ℕ → ℕ → Run ℕ
hash_size_loop zero s i = hangs
hash_size_loop (suc f) s i =
    let rest = hash_size_loop f s (i * 2 % 2 ^ 32) in if ltb i s then rest else ok i

-- `s` is converted to an unsigned int by the call; 33 rounds are enough where the loop ends.
unfoldable pub hash_size : ℕ → Run ℕ
hash_size s = hash_size_loop 33 (s % 2 ^ 32) 1

abbrev pub IsPow2 : ℕ → Type 0
IsPow2 n = (k : ℕ) × (n ≡ 2 ^ k) × (k ≤ 31)

-- The least power of two that is not below `s`.
pub record IsSize (s n : ℕ) : Type 0 where
  pub power : IsPow2 n
  pub enough : s ≤ n
  pub least : (k : ℕ) → s ≤ 2 ^ k → n ≤ 2 ^ k

lt_of_pow : (j k : ℕ) → 2 ^ j < 2 ^ k → j < k
lt_of_pow j k h = elim (dec_lt j k) [
  | yes p ↦ p
  | no p ↦
      absurd (omega (arith, pow-le-pow_right {n = 2} (omega arith) {i = k} {j = j} (omega arith)))
]

-- One round on a power of two below the bound.
double-pow : (j s : ℕ) → 2 ^ j < s → s ≤ 2 ^ 31 → (2 ^ j * 2 % 2 ^ 32 ≡ 2 ^ suc j) × (suc j ≤ 31)
double-pow j s h b =
    let lt : j < 31 = lt_of_pow j 31 (omega arith) in (omega (arith, pow-suc 2 j), lt)

hash_size_loop-IsSize :
    (f s j : ℕ)
    → s ≤ 2 ^ 31
    → j ≤ 31
    → 31 < f + j
    → ((k : ℕ) → s ≤ 2 ^ k → 2 ^ j ≤ 2 ^ k)
    → Returns (hash_size_loop f s (2 ^ j)) (IsSize s)
unfolding hash_size_loop
hash_size_loop-IsSize zero s j b h m least = absurd (omega arith)
hash_size_loop-IsSize (suc f) s j b h m least = elim (Bool-cases (ltb (2 ^ j) s)) [
  | inl more ↦
      let below : 2 ^ j < s = ground arith in
      let (e, h') = double-pow j s below b in
      rw (more, e)
        (hash_size_loop-IsSize f s (suc j) b h' (omega arith)
          λ k e. pow-le-pow_right {n = 2} (omega arith) (lt_of_pow j k (omega arith)))
  | inr done ↦
      (2 ^ j, rw done, record { power = (j, refl, h); enough = ground arith; least = least })
]

-- For a request of at most 2 ^ 31 `hash_size` returns, and gives the least power of two that is not
-- below the request.
pub hash_size-IsSize : (s : ℕ) → s ≤ 2 ^ 31 → Returns (hash_size s) (IsSize s)
unfolding hash_size
hash_size-IsSize s b =
    let e : s % 2 ^ 32 ≡ s = omega arith in
    rw e (
      hash_size_loop-IsSize 33 s 0 b (omega arith) (omega arith)
        λ k h. pow-le-pow_right {n = 2} (omega arith) {i = 0} {j = k} (omega arith))

hash_size_loop-zero : (f s : ℕ) → 0 < s → hash_size_loop f s 0 ≡ hangs
unfolding hash_size_loop
hash_size_loop-zero zero s h = refl
hash_size_loop-zero (suc f) s h = ground (arith, hash_size_loop-zero f s)

-- For a request above 2 ^ 31 the loop of `hash_size`, from any power of two up to 2 ^ 31, has no
-- end: no fuel is enough, since `i` is shifted out to 0.
pub hash_size_loop-hangs : (f s j : ℕ) → j ≤ 31 → 2 ^ 31 < s → hash_size_loop f s (2 ^ j) ≡ hangs
unfolding hash_size_loop
hash_size_loop-hangs zero s j h big = refl
hash_size_loop-hangs (suc f) s j h big = elim (dec_lt j 31) [
  | yes p ↦
      let e : 2 ^ j * 2 % 2 ^ 32 ≡ 2 ^ suc j =
        omega (arith, pow-suc 2 j, pow-le-pow_right {n = 2} (omega arith) {i = suc j} {j = 31} p) in
      ground (
        arith,
        e,
        hash_size_loop-hangs f s (suc j),
        pow-le-pow_right {n = 2} (omega arith) {i = j} {j = 31} h,
      )
  | no p ↦ let e : j ≡ 31 = omega arith in rw e (ground (arith, hash_size_loop-zero f s))
]
