-- ===== src/Hash/Home.antt =====
-- Where a key's bucket is: the mask of `hash_value` in src/cfuhash.c.
use Prim.Native.Nat.{min, digits, bit_and-bitwise}
use native.Mathlib.Nat.{
  div-add-mod, mod-eq_of_lt, add-mul-mod_self_right, pow-suc, pow-le-pow_right, one-le-pow,
}
use libcfu.Common.{
  ℕ, zero, suc, ◌+◌, ◌-◌, ◌*◌, ◌/◌, ◌%◌, ◌^◌, ◌≤◌, ◌<◌, ◌≡◌, refl, sym, ap, ◌∙◌, List, arith,
  bit_and,
}
use libcfu.Hash.Value.{home}

abbrev low_bits : (fuel mask word : ℕ) → ℕ
low_bits fuel mask word = digits (λ _. zero) min fuel word mask

-- More fuel than the word has bits changes nothing.
low_bits-enough :
    (word mask fuel more : ℕ)
    → word ≤ fuel
    → word ≤ more
    → low_bits fuel mask word ≡ low_bits more mask word
low_bits-enough zero mask (suc fuel) (suc more) h h' = refl
low_bits-enough zero mask (suc fuel) zero h h' = refl
low_bits-enough zero mask zero (suc more) h h' = refl
low_bits-enough zero mask zero zero h h' = refl
low_bits-enough (suc word) mask (suc fuel) (suc more) h h' =
    let half = suc word / 2 in
    let rest = low_bits-enough half (mask / 2) fuel more (omega arith) (omega arith) in
    omega (arith, rest)
low_bits-enough (suc word) mask (suc fuel) zero h h' = absurd (omega arith)
low_bits-enough (suc word) mask zero more h h' = absurd (omega arith)

none-bit_and : (mask : ℕ) → bit_and 0 mask ≡ 0
none-bit_and = bit_and-bitwise 0

-- The lowest bit apart from the others.
bit_and_halves :
    (word mask : ℕ)
    → bit_and word mask ≡ min (word % 2) (mask % 2) + 2 * bit_and (word / 2) (mask / 2)
bit_and_halves zero mask = omega (arith, none-bit_and (mask / 2), none-bit_and mask)
bit_and_halves (suc word) mask =
    let half = suc word / 2 in
    let rest = low_bits-enough half (mask / 2) word half (omega arith) (omega arith) in
    omega (arith, rest, bit_and-bitwise half (mask / 2), bit_and-bitwise (suc word) mask)

bit_and-le_fuel : (n a b : ℕ) → a ≤ n → bit_and a b ≤ b
bit_and-le_fuel n zero b h = omega (arith, none-bit_and b)
bit_and-le_fuel zero (suc a) b h = absurd (omega arith)
bit_and-le_fuel (suc n) (suc a) b h =
    omega (arith, bit_and_halves (suc a) b, bit_and-le_fuel n (suc a / 2) (b / 2) (omega arith))

bit_and-zero : (n a : ℕ) → a ≤ n → bit_and a 0 ≡ 0
bit_and-zero n a h = omega (arith, bit_and-le_fuel n a 0 h)

mod_double : (a p : ℕ) → 1 ≤ p → a / 2 % p * 2 + a % 2 ≡ a % (p * 2)
mod_double a p h =
    let q = a / 2 / p in
    let r = a / 2 % p * 2 + a % 2 in
    let small : r < p * 2 = omega arith in
    let e : a ≡ r + q * (p * 2) = omega (arith, div-add-mod (a / 2) p) in
    sym (ap (λ (t : ℕ). t % (p * 2)) e ∙ add-mul-mod_self_right r q (p * 2) ∙ mod-eq_of_lt small)

-- The low `k` bits are the remainder.
bit_and_mask : (k a : ℕ) → bit_and a (2 ^ k - 1) ≡ a % 2 ^ k
bit_and_mask zero a = omega (arith, bit_and-zero a a (omega arith))
bit_and_mask (suc k) a =
    let big : 1 ≤ 2 ^ k = one-le-pow k 2 (omega arith) in
    let twice : 2 ^ suc k ≡ 2 ^ k * 2 = pow-suc 2 k in
    let half : (2 ^ suc k - 1) / 2 ≡ 2 ^ k - 1 = omega arith in
    let odd : (2 ^ suc k - 1) % 2 ≡ 1 = omega arith in
    let rec : bit_and (a / 2) ((2 ^ suc k - 1) / 2) ≡ a / 2 % 2 ^ k =
      rw half (bit_and_mask k (a / 2)) in
    let split : a / 2 % 2 ^ k * 2 + a % 2 ≡ a % (2 ^ k * 2) = mod_double a (2 ^ k) big in
    omega (arith, bit_and_halves a (2 ^ suc k - 1), ap (λ (t : ℕ). a % t) twice)

pub home-lt : (f : List ℕ → ℕ) (name : List ℕ) (n : ℕ) → 0 < n → n < 2 ^ 64 → home f name n < n
unfolding home
home-lt f name n h b =
    let e : (n + 2 ^ 64 - 1) % 2 ^ 64 ≡ n - 1 = omega arith in
    let hv = f name % 2 ^ 32 in
    omega (arith, ap (bit_and hv) e, bit_and-le_fuel hv hv (n - 1) (omega arith))

-- For a number of buckets that is a power of two, up to 2 ^ 31, the mask of `hash_value` gives the
-- remainder of the 32-bit hash value.
pub home-mod :
    (f : List ℕ → ℕ) (name : List ℕ) (k : ℕ)
    → k ≤ 31
    → home f name (2 ^ k) ≡ f name % 2 ^ 32 % 2 ^ k
unfolding home
home-mod f name k h =
    let small = pow-le-pow_right {n = 2} (omega arith) {i = k} {j = 31} h in
    let e : (2 ^ k + 2 ^ 64 - 1) % 2 ^ 64 ≡ 2 ^ k - 1 =
      omega (arith, one-le-pow k 2 (omega arith)) in
    rw e (bit_and_mask k (f name % 2 ^ 32))
