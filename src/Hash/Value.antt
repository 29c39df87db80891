-- ===== src/Hash/Value.antt =====
-- The hash function and `hash_value` of src/cfuhash.c.
use libcfu.Common.{
  ℕ, ◌+◌, ◌-◌, ◌*◌, ◌/◌, ◌%◌, ◌^◌, Bool, Option, none, some, List, [], ◌∷◌, map, bit_and, bit_xor,
  leb, ◌&&◌, if◌then◌else◌,
}

-- One round of the loop of `cfuhash_one_at_a_time_hash`, in 32 bits.
unfoldable pub mix : ℕ → ℕ → ℕ
mix hv c =
    let h₁ = (hv + c) % 2 ^ 32 in
    let h₂ = (h₁ + h₁ * 2 ^ 10 % 2 ^ 32) % 2 ^ 32 in bit_xor h₂ (h₂ / 2 ^ 6)

unfoldable pub mix_all : ℕ → List ℕ → ℕ
mix_all hv [] = hv
mix_all hv (c ∷ s) = mix_all (mix hv c) s

unfoldable pub one_at_a_time_hash : List ℕ → ℕ
one_at_a_time_hash s =
    let h₀ = mix_all 0 s in
    let h₁ = (h₀ + h₀ * 2 ^ 3 % 2 ^ 32) % 2 ^ 32 in
    let h₂ = bit_xor h₁ (h₁ / 2 ^ 11) in (h₂ + h₂ * 2 ^ 15 % 2 ^ 32) % 2 ^ 32

-- `tolower` of the C locale, on a byte.
abbrev pub tolower : ℕ → ℕ
tolower c = if leb b'A' c && leb c b'Z' then c + 32 else c

-- What a key pointer reads: `none` is a null pointer, `some` the `key_size` bytes behind it.
abbrev pub Key : Type 0
Key = Option (List ℕ)

-- The bytes as they are hashed: lower-cased, if the table ignores case.
abbrev pub fold_bytes : Bool → List ℕ → List ℕ
fold_bytes ic bs = if ic then map tolower bs else bs

-- `hv & (num_buckets - 1)` for the folded bytes: `hv` is an unsigned int, the mask a size_t.
unfoldable pub home : (List ℕ → ℕ) → List ℕ → ℕ → ℕ
home hash_func name num_buckets =
    bit_and (hash_func name % 2 ^ 32) ((num_buckets + 2 ^ 64 - 1) % 2 ^ 64)

unfoldable pub hash_value : (List ℕ → ℕ) → Bool → Key → ℕ → ℕ
hash_value hash_func ic none num_buckets = bit_and 0 ((num_buckets + 2 ^ 64 - 1) % 2 ^ 64)
hash_value hash_func ic (some bs) num_buckets = home hash_func (fold_bytes ic bs) num_buckets
