-- ===== src/Hash/Found.antt =====
-- Keys of src/cfuhash.c that are C strings, and entries found under their own names.
use libcfu.Common.{
  ℕ, ◌+◌, ◌≤◌, ◌≡◌, refl, ap, Bool, true, false, some, List, [], ◌∷◌, ◌++◌, arith, ◌==◌,
  bytes_eq_iff, length, length-append, take_all,
}
use libcfu.Strings.Memory.{NoMark}
use libcfu.Hash.Key.{is_key, nul_last, name_of}
use libcfu.Hash.Chain.{Entry, Chain, find, named, count, count-eq-zero, find-eq-none}
use libcfu.Hash.Access.{read_key, unknown_size, key_size_of, key_strlen}

key_strlen-marked : (k : List ℕ) → NoMark k → key_strlen (k ++ 0 ∷ []) ≡ length k
unfolding key_strlen
key_strlen-marked [] h = refl
key_strlen-marked (c ∷ k) h =
    let more : (c == 0) ≡ false = ground (arith, h.0) in rw (more, key_strlen-marked k h.1) refl

-- A C string read with no size is its bytes with the end mark.
pub read_key-marked :
    (k : List ℕ) → NoMark k → read_key (some (k ++ 0 ∷ [])) unknown_size ≡ some (k ++ 0 ∷ [])
unfolding read_key key_size_of
read_key-marked k h =
    let size : length (k ++ 0 ∷ []) ≡ length k + 1 = length-append k (0 ∷ []) in
    rw (key_strlen-marked k h) (ap some (take_all (length k + 1) (k ++ 0 ∷ []) size))

nul_last-marked : (k : List ℕ) → NoMark k → nul_last (k ++ 0 ∷ []) ≡ true
unfolding nul_last
nul_last-marked [] h = refl
nul_last-marked (c ∷ []) h = ground (arith, h.0)
nul_last-marked (c ∷ d ∷ k) h = ground (arith, h.0, nul_last-marked (d ∷ k) h.1)

pub is_key-marked : (ic : Bool) (k : List ℕ) → NoMark k → is_key ic (some (k ++ 0 ∷ [])) ≡ true
unfolding is_key
is_key-marked false k h = refl
is_key-marked true k h = nul_last-marked k h

module _ (ic : Bool) where
  -- Each entry of a chain is the one found under its name.
  abbrev pub Found : (whole part : Chain) → Type 0
  Found whole [] = Unit
  Found whole (e ∷ part) = (find (named ic (name_of ic e.key)) whole ≡ some e) × Found whole part

  Found-behind :
      (x : Entry) (c part : Chain)
      → ((q : List ℕ) → count ic q (x ∷ c) ≤ 1)
      → Found c part
      → Found (x ∷ c) part
  unfolding find count
  Found-behind x c [] once h = tt
  Found-behind x c (e ∷ part) once h =
      let q = name_of ic e.key in
      (
        ground (arith, once q, h.0, count-eq-zero ic q c, find-eq-none ic q c),
        Found-behind x c part once h.1,
      )

  pub Found-all : (c : Chain) → ((q : List ℕ) → count ic q c ≤ 1) → Found c c
  unfolding find count
  Found-all [] once = tt
  Found-all (x ∷ c) once =
      let q = name_of ic x.key in
      (
        ground (arith, bytes_eq_iff q q),
        Found-behind x c c once (Found-all c (λ q. omega (arith, once q))),
      )
