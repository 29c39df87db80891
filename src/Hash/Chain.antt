-- ===== src/Hash/Chain.antt =====
-- A bucket's chain. Where the code keeps the pointer `he` at which its loop broke off, the model
-- repeats the walk: `test` is the loop's `!hash_cmp(key, key_size, he, ...)`.
use mathlib.Core.Option.{or_else}
use libcfu.Common.{
  ℕ, ◌+◌, ◌≤◌, ◌≡◌, refl, Bool, Option, none, some, List, [], ◌∷◌, ◌++◌, arith, bytes_eq,
  bytes_eq_iff, if◌then◌else◌, length,
}
use libcfu.Hash.Value.{Key}
use libcfu.Hash.Key.{name_of}

-- `struct cfuhash_entry`; `key_size` is the length of the key's bytes, `data` an address.
pub record Entry : Type 0 where
  pub key : Key
  pub value : ℕ
  pub data_size : ℕ

abbrev pub entry : Key → ℕ → ℕ → Entry
entry k d n = record { key = k; value = d; data_size = n }

abbrev pub Chain : Type 0
Chain = List Entry

unfoldable pub find : (Entry → Bool) → Chain → Option Entry
find test [] = none
find test (e ∷ c) = if test e then some e else find test c

-- `he->data = data; he->data_size = data_size` at the entry found.
unfoldable pub assign : (Entry → Bool) → ℕ → ℕ → Chain → Chain
assign test d n [] = []
assign test d n (e ∷ c) =
    if test e then record e { value = d; data_size = n } ∷ c else e ∷ assign test d n c

-- `hep->next = he->next`, or the bucket's head where the first entry matched.
unfoldable pub unlink : (Entry → Bool) → Chain → Chain
unlink test [] = []
unlink test (e ∷ c) = if test e then c else e ∷ unlink test c

-- The entry bears this name.
abbrev pub named : Bool → List ℕ → Entry → Bool
named ic name e = bytes_eq name (name_of ic e.key)

unfoldable pub count : Bool → List ℕ → Chain → ℕ
count ic name [] = 0
count ic name (e ∷ c) = (if named ic name e then 1 else 0) + count ic name c

module _ (test other : Entry → Bool) (same : (e : Entry) → test e ≡ other e) where
  pub find_congr : (c : Chain) → find test c ≡ find other c
  unfolding find
  find_congr [] = refl
  find_congr (e ∷ c) = rw (same e, find_congr c)

  pub assign_congr : (d n : ℕ) (c : Chain) → assign test d n c ≡ assign other d n c
  unfolding assign
  assign_congr d n [] = refl
  assign_congr d n (e ∷ c) = rw (same e, assign_congr d n c)

  pub unlink_congr : (c : Chain) → unlink test c ≡ unlink other c
  unfolding unlink
  unlink_congr [] = refl
  unlink_congr (e ∷ c) = rw (same e, unlink_congr c)

module _ (ic : Bool) where
  pub find-eq-none : (q : List ℕ) (c : Chain) → count ic q c ≡ 0 → find (named ic q) c ≡ none
  unfolding count find
  find-eq-none q [] h = refl
  find-eq-none q (e ∷ c) h = ground (arith, find-eq-none q c)

  pub count-eq-zero : (q : List ℕ) (c : Chain) → find (named ic q) c ≡ none → count ic q c ≡ 0
  unfolding count find
  count-eq-zero q [] h = refl
  count-eq-zero q (e ∷ c) h = ground (arith, count-eq-zero q c)

  pub find-append :
      (q : List ℕ) (a b : Chain)
      → find (named ic q) (a ++ b) ≡ or_else (find (named ic q) a) (find (named ic q) b)
  unfolding find or_else
  find-append q [] b = refl
  find-append q (e ∷ a) b = rw (find-append q a b) (ground arith)

  pub count-append : (q : List ℕ) (a b : Chain) → count ic q (a ++ b) ≡ count ic q a + count ic q b
  unfolding count
  count-append q [] b = omega arith
  count-append q (e ∷ a) b = omega (arith, count-append q a b)

  module _ (k q : List ℕ) where
    pub find-assign :
        (d n : ℕ) (c : Chain) (old : Entry)
        → find (named ic k) c ≡ some old
        → find (named ic q) (assign (named ic k) d n c) ≡ (
            if bytes_eq q k
            then some (record old { value = d; data_size = n })
            else find (named ic q) c)
    unfolding find assign
    find-assign d n [] old h = cc
    find-assign d n (e ∷ c) old h =
        let j = name_of ic e.key in
        ground (arith, find-assign d n c old, bytes_eq_iff q k, bytes_eq_iff q j, bytes_eq_iff k j)

    pub count-assign : (d n : ℕ) (c : Chain) → count ic q (assign (named ic k) d n c) ≡ count ic q c
    unfolding count assign
    count-assign d n [] = refl
    count-assign d n (e ∷ c) = ground (arith, count-assign d n c)

    pub find-unlink :
        (c : Chain)
        → count ic q c ≤ 1
        → find (named ic q) (unlink (named ic k) c)
          ≡ (if bytes_eq q k then none else find (named ic q) c)
    unfolding find unlink count
    find-unlink [] h = ground arith
    find-unlink (e ∷ c) h =
        let j = name_of ic e.key in
        ground (
          arith,
          find-unlink c,
          find-eq-none q c,
          bytes_eq_iff q k,
          bytes_eq_iff q j,
          bytes_eq_iff k j,
        )

    pub count-unlink-le : (c : Chain) → count ic q (unlink (named ic k) c) ≤ count ic q c
    unfolding count unlink
    count-unlink-le [] = omega arith
    count-unlink-le (e ∷ c) = ground (arith, count-unlink-le c)

module _ (test : Entry → Bool) where
  pub length-assign : (d n : ℕ) (c : Chain) → length (assign test d n c) ≡ length c
  unfolding assign
  length-assign d n [] = refl
  length-assign d n (e ∷ c) = ground (arith, length-assign d n c)

  pub length-unlink :
      (c : Chain) (old : Entry) → find test c ≡ some old → length (unlink test c) + 1 ≡ length c
  unfolding unlink find
  length-unlink [] old h = cc
  length-unlink (e ∷ c) old h = ground (arith, length-unlink c old)
