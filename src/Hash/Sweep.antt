-- ===== src/Hash/Sweep.antt =====
-- `cfuhash_foreach_remove` of src/cfuhash.c against the entries of the table.
use libcfu.Common.{
  ℕ, ◌+◌, ◌<◌, ◌≡◌, refl, sym, ap, Bool, true, false, List, [], ◌∷◌, ◌++◌, arith, if◌then◌else◌,
  length, length-append,
}
use mathlib.Core.List.{flatten}
use libcfu.Hash.Chain.{Entry, Chain}
use libcfu.Hash.Table.{Table, null}
use libcfu.Hash.Walk.{destroy_entry, Callback, sweep_chain, sweep_all, foreach_remove}
use libcfu.Hash.Whole.{release_chain, release_all}
use libcfu.Hash.Valid.{IsValid}

-- A callback that keeps its state and answers by a test.
abbrev pub by_test : {S : Type 0} → (Entry → Bool) → Callback S
by_test test s e = (s, test e)

pub reject : (Entry → Bool) → List Entry → List Entry
reject test [] = []
reject test (e ∷ es) = if test e then reject test es else e ∷ reject test es

reject-append :
    (test : Entry → Bool) (a b : List Entry) → reject test (a ++ b) ≡ reject test a ++ reject test b
unfolding reject
reject-append test [] b = refl
reject-append test (e ∷ a) b = ground (arith, reject-append test a b)

module _ {S F : Type 0} (ht : Table F) (ff : ℕ) (s : S) where
  sweep_chain-reject :
      (test : Entry → Bool) (prev : Bool) (c : Chain)
      → ((sweep_chain (by_test test) ht ff prev c s).kept ≡ reject test c)
        × ((sweep_chain (by_test test) ht ff prev c s).state ≡ s)
        × ((sweep_chain (by_test test) ht ff prev c s).num_removed + length (reject test c)
            ≡ length c)
  unfolding sweep_chain reject
  sweep_chain-reject test prev [] = (refl, refl, omega arith)
  sweep_chain-reject test prev (e ∷ c) =
      ground (arith, sweep_chain-reject test prev c, sweep_chain-reject test true c)

  sweep_all-reject :
      (test : Entry → Bool) (cs : List Chain)
      → (flatten (sweep_all (by_test test) ht ff cs s).kept ≡ reject test (flatten cs))
        × ((sweep_all (by_test test) ht ff cs s).num_removed + length (reject test (flatten cs))
            ≡ length (flatten cs))
        × (length (sweep_all (by_test test) ht ff cs s).kept ≡ length cs)
  unfolding sweep_all flatten reject
  sweep_all-reject test [] = (refl, omega arith, refl)
  sweep_all-reject test (c ∷ cs) =
      let one = sweep_chain-reject test false c in
      let rest = sweep_all-reject test cs in
      (
        rw (one.0, one.1, rest.0) (sym (reject-append test c (flatten cs))),
        rw (one.1, reject-append test c (flatten cs))
            (omega (
              arith,
              one.2,
              rest.1,
              length-append (reject test c) (reject test (flatten cs)),
              length-append c (flatten cs),
            )),
        rw one.1 (omega (arith, rest.2)),
      )

  -- On a valid table, with a callback that tests the entry alone, `cfuhash_foreach_remove` keeps
  -- exactly the entries at which the test fails and returns how many it dropped, but the count of
  -- entries in the table stays as it was: it is too large by that number.
  pub foreach_remove-stale :
      (test : Entry → Bool)
      → IsValid ht
      → let r = foreach_remove (by_test test) ht ff s in
        (flatten r.0.buckets ≡ reject test (flatten ht.buckets))
        × (r.0.entries ≡ length (flatten r.0.buckets) + r.1.num_removed)
        × (r.0.entries ≡ ht.entries)
  unfolding foreach_remove
  foreach_remove-stale test v =
      let all = sweep_all-reject test ht.buckets in
      (all.0, omega (arith, v.counted, ap length all.0, all.1), refl)

  -- If `cfuhash_foreach_remove`, with a callback that tests the entry alone, removes anything from
  -- a valid table, the table is not valid any more.
  pub foreach_remove-invalid :
      (test : Entry → Bool)
      → IsValid ht
      → 0 < (foreach_remove (by_test test) ht ff s).1.num_removed
      → ¬ IsValid (foreach_remove (by_test test) ht ff s).0
  foreach_remove-invalid test v some_gone broken =
      let r = foreach_remove-stale test v in absurd (omega (arith, broken.counted, r.1))

  sweep_chain-release :
      (c : Chain)
      → ((sweep_chain (by_test (λ _. true)) ht ff false c s).released
          ≡ release_chain (destroy_entry ht null) c)
        × ((sweep_chain (by_test (λ _. true)) ht ff false c s).state ≡ s)
  unfolding sweep_chain release_chain
  sweep_chain-release [] = (refl, refl)
  sweep_chain-release (e ∷ c) = let rest = sweep_chain-release c in (rw rest.0, rest.1)

  sweep_all-release :
      (cs : List Chain)
      → (sweep_all (by_test (λ _. true)) ht ff cs s).released
        ≡ release_all (destroy_entry ht null) cs
  unfolding sweep_all release_all
  sweep_all-release [] = refl
  sweep_all-release (c ∷ cs) =
      let one = sweep_chain-release c in rw (one.0, one.1, sweep_all-release cs)

  -- If the callback removes every entry, `cfuhash_foreach_remove` never uses the free function that
  -- it is given: each entry is destroyed as with a null pointer in its place.
  pub foreach_remove-ignores_ff :
      (foreach_remove (by_test (λ _. true)) ht ff s).1.released
      ≡ release_all (destroy_entry ht null) ht.buckets
  unfolding foreach_remove
  foreach_remove-ignores_ff = sweep_all-release ht.buckets
