-- ===== src/Hash/View.antt =====
-- Where the entries of a table stand and what the bucket array means as a map from names.
use Prim.Native.Nat.{max}
use mathlib.Core.List.{flatten}
use mathlib.Core.Option.{or_else}
use libcfu.Common.{
  ℕ, zero, suc, ◌+◌, ◌^◌, ◌≤◌, ◌<◌, ◌≡◌, refl, ◌≢◌, Bool, true, false, ◌&&◌, Option, none, some,
  List, [], ◌∷◌, ◌++◌, arith, bytes_eq, bytes_eq_iff, if◌then◌else◌, length, get_or, set,
  length-set, get_or-set, length-flatten-set,
}
use libcfu.Hash.Value.{Key, home}
use libcfu.Hash.Home.{home-lt}
use libcfu.Hash.Chain.{Entry, Chain, find, named, count, find-eq-none, find-append, count-append}

-- No key of the chain is a null pointer.
abbrev pub is_keyed : Key → Bool
is_keyed none = false
is_keyed (some bs) = true

abbrev pub all_keyed : Chain → Bool
all_keyed [] = true
all_keyed (e ∷ c) = is_keyed e.key && all_keyed c

all_keyed-append : (a b : Chain) → all_keyed (a ++ b) ≡ (all_keyed a && all_keyed b)
all_keyed-append [] b = refl
all_keyed-append (e ∷ a) b = ground (arith, all_keyed-append a b)

module _ (ic : Bool) (f : List ℕ → ℕ) where
  abbrev pub chain_of : List Chain → List ℕ → Chain
  chain_of bs q = get_or bs (home f q (length bs)) []

  -- The entry of a name, looked for in its own bucket alone.
  unfoldable pub lookup : List Chain → List ℕ → Option Entry
  lookup bs q = find (named ic q) (chain_of bs q)

  -- A name occurs at most once, and only in its own bucket; no key is null.
  pub record IsPlaced (bs : List Chain) : Type 0 where
    pub once : (q : List ℕ) (i : ℕ) → count ic q (get_or bs i []) ≤ 1
    pub at_home : (q : List ℕ) (i : ℕ) → home f q (length bs) ≢ i → count ic q (get_or bs i []) ≡ 0
    pub keyed : (i : ℕ) → all_keyed (get_or bs i []) ≡ true

  -- `bs` has `n` buckets and `total` entries in their places, and reads as `v`.
  pub record Holds (n total : ℕ) (v : List ℕ → Option Entry) (bs : List Chain) : Type 0 where
    pub width : length bs ≡ n
    pub counted : length (flatten bs) ≡ total
    pub placed : IsPlaced bs
    pub reads : (q : List ℕ) → lookup bs q ≡ v q

  home_congr : (q k : List ℕ) (n : ℕ) → bytes_eq q k ≡ true → home f q n ≡ home f k n
  home_congr q k n e = rw ((bytes_eq_iff q k).0 e)

  module _ (bs : List Chain) (pos : 0 < length bs) (small : length bs < 2 ^ 64)
      (placed : IsPlaced bs) (k : List ℕ) where
    -- The code writes only to the bucket of the key at hand.
    pub set-Holds :
        (v : Option Entry) (c : Chain) (total : ℕ)
        → total + length (chain_of bs k) ≡ length (flatten bs) + length c
        → all_keyed c ≡ true
        → ((q : List ℕ)
            → count ic q c ≤ max (if bytes_eq q k then 1 else 0) (count ic q (chain_of bs k)))
        → ((q : List ℕ)
            → find (named ic q) c ≡ (if bytes_eq q k then v else find (named ic q) (chain_of bs k)))
        → Holds
            (length bs)
            total
            (λ q. if bytes_eq q k then v else lookup bs q)
            (set bs (home f k (length bs)) c)
    unfolding lookup
    set-Holds v c total size kc few reads =
        let h = home f k (length bs) in
        let lt : h < length bs = home-lt f k (length bs) pos small in
        record {
          width = length-set bs h c;
          counted = omega (arith, length-flatten-set bs h c lt);
          placed = record {
            once = λ q i.
                rw (get_or-set bs h i c [] lt)
                  (ground (arith, few q, placed.once q i, placed.once q h));
            at_home = λ q i ne. rw (get_or-set bs h i c [] lt) (
                ground (
                  arith,
                  few q,
                  rw length-set at ne,
                  placed.at_home q i,
                  home_congr q k (length bs),
                ));
            keyed = λ i. rw (get_or-set bs h i c [] lt) (ground (arith, placed.keyed i));
          };
          reads = λ q.
              rw (length-set, get_or-set bs h (home f q (length bs)) c [] lt)
                (ground (arith, reads q, home_congr q k (length bs)));
        }

  count-flatten_nowhere :
      (q : List ℕ) (bs : List Chain)
      → ((i : ℕ) → count ic q (get_or bs i []) ≡ 0)
      → count ic q (flatten bs) ≡ 0
  unfolding flatten count
  count-flatten_nowhere q [] h = refl
  count-flatten_nowhere q (c ∷ cs) h =
      rw (count-append ic q c (flatten cs), h 0, count-flatten_nowhere q cs (λ i. h (suc i)))

  flatten_only :
      (q : List ℕ) (bs : List Chain) (own : ℕ)
      → ((i : ℕ) → own ≢ i → count ic q (get_or bs i []) ≡ 0)
      → (find (named ic q) (flatten bs) ≡ find (named ic q) (get_or bs own []))
        × (count ic q (flatten bs) ≡ count ic q (get_or bs own []))
  unfolding flatten or_else find count
  flatten_only q (ahead ∷ bs) (suc own) others =
      let nothing = find-eq-none ic q ahead (others 0 (omega arith)) in
      let behind = flatten_only q bs own (λ i ne. others (suc i) (omega arith)) in
      (
        rw (find-append ic q ahead (flatten bs), nothing) behind.0,
        omega (arith, behind.1, others 0 (omega arith), count-append ic q ahead (flatten bs)),
      )
  flatten_only q (here ∷ bs) zero others =
      let nowhere = count-flatten_nowhere q bs (λ i. others (suc i) (omega arith)) in
      (
        rw (find-append ic q here (flatten bs), find-eq-none ic q (flatten bs) nowhere)
            (ground arith),
        omega (arith, nowhere, count-append ic q here (flatten bs)),
      )
  flatten_only q [] own others = (refl, refl)

  -- Read from the front, all entries together mean the same map.
  pub flatten-lookup :
      (bs : List Chain) (q : List ℕ)
      → IsPlaced bs
      → (find (named ic q) (flatten bs) ≡ lookup bs q) × (count ic q (flatten bs) ≤ 1)
  unfolding lookup
  flatten-lookup bs q placed =
      let (found, counted) = flatten_only q bs (home f q (length bs)) (placed.at_home q) in
      (found, rw counted (placed.once q (home f q (length bs))))

  all_keyed-flatten :
      (bs : List Chain)
      → ((i : ℕ) → all_keyed (get_or bs i []) ≡ true)
      → all_keyed (flatten bs) ≡ true
  unfolding flatten
  all_keyed-flatten [] h = refl
  all_keyed-flatten (c ∷ cs) h =
      ground (arith, h 0, all_keyed-append c (flatten cs), all_keyed-flatten cs (λ i. h (suc i)))

  pub keyed-flatten : (bs : List Chain) → IsPlaced bs → all_keyed (flatten bs) ≡ true
  keyed-flatten bs placed = all_keyed-flatten bs placed.keyed
