-- ===== src/Hash/Merged.antt =====
-- `cfuhash_merge` of src/cfuhash.c against the abstract maps of its tables.
use libcfu.Common.{
  ℕ, ◌+◌, ◌^◌, ◌≤◌, bit_or, ◌≡◌, refl, sym, ap, ◌∙◌, Option, none, some, List, ◌++◌, map, false,
  arith, Run, ok, fault, hangs, ◌>>=◌, Returns, Returns-ok,
}
use mathlib.Core.List.{flatten}
use mathlib.Core.Option.{or_else}
use libcfu.Hash.Table.{
  Platform, Table, ignores_case, frozen_until_grows, has_flag, nocopy_keys, new_table, fresh_table,
}
use libcfu.Hash.Walk.{listed_key}
use libcfu.Hash.Whole.{num_entries, merge}
use libcfu.Hash.Valid.{IsValid, SameSetup, view}
use libcfu.Hash.Clear.{new_table-IsEmpty}
use libcfu.Hash.Copied.{
  AreCopyable, keys_freed, keys_freed-append, HasSpace, SameSetup_trans, same_case, copy-union,
}

or_none : (o : Option (ℕ × ℕ)) → or_else o none ≡ o
unfolding or_else
or_none none = refl
or_none (some x) = refl

module _ ⦃p : Platform⦄ where
  setup_of :
      (flags : ℕ) (t : Table p.Float) (r : Run ℕ)
      → (r >>= λ n. ok (fresh_table n flags)) ≡ ok t
      → SameSetup (fresh_table 1 flags) t
  setup_of flags t (ok n) e =
      Returns-ok (SameSetup (fresh_table 1 flags)) t
        (
          fresh_table n flags,
          refl,
          record { flags = refl; hash_func = refl; free_fn = refl; high = refl; low = refl },
        )
        e
  setup_of flags t fault e = absurd (cc)
  setup_of flags t hangs e = absurd (cc)

  new_table-setup :
      (size flags : ℕ) (t : Table p.Float)
      → new_table size flags ≡ ok t
      → SameSetup (fresh_table 1 flags) t
  unfolding new_table
  new_table-setup size flags t e = setup_of flags t _ e

  -- Two valid tables that ignore case just if the flags say so, no key or data of size (size_t) -1,
  -- each key a C string where case is ignored; together at most 2 ^ 31 entries; and whatever table made
  -- with the flags has at most as many entries as both together, the size that a resize asks for is at
  -- most 2 ^ 31. The flags ask for copies of the keys. Then `cfuhash_merge` returns a valid table that has the data of the second table
  -- under its names, those of the first under the names that the second does not have, and nothing
  -- under other names; the keys freed are the copies that were listed of both tables' keys.
  pub merge-union :
      (ht1 ht2 : Table p.Float) (flags : ℕ)
      → IsValid ht1
      → IsValid ht2
      → ignores_case ht1 ≡ ignores_case (fresh_table 1 (bit_or flags frozen_until_grows))
      → ignores_case ht2 ≡ ignores_case (fresh_table 1 (bit_or flags frozen_until_grows))
      → AreCopyable (ignores_case ht1) (flatten ht1.buckets)
      → AreCopyable (ignores_case ht2) (flatten ht2.buckets)
      → ht1.entries + ht2.entries ≤ 2 ^ 31
      → HasSpace (fresh_table 1 (bit_or flags frozen_until_grows)) (ht1.entries + ht2.entries)
      → has_flag (bit_or flags frozen_until_grows) nocopy_keys ≡ false
      → Returns (merge (some ht1) (some ht2) flags) λ r.
        IsValid r.0
        × ((q : List ℕ) → view r.0 q ≡ or_else (view ht2 q) (view ht1 q))
        × (keys_freed r.1
            ≡ map (listed_key false) (flatten ht1.buckets)
              ++ map (listed_key false) (flatten ht2.buckets))
  unfolding merge num_entries
  merge-union ht1 ht2 flags v1 v2 case1 case2 good1 good2 small space copies =
      let f = bit_or flags frozen_until_grows in
      let (new, run, (empty, kept, sized)) =
        new_table-IsEmpty (ht1.entries + ht2.entries) f small in
      let setup = new_table-setup (ht1.entries + ht2.entries) f new run in
      let case = same_case (fresh_table 1 f) new setup in
      let ((t, released1), run1, (valid, setup1, few, reads, freed1)) =
        copy-union ht1 new v1 empty.valid (case ∙ sym case1) good1
          (λ u s le.
            space u (SameSetup_trans (fresh_table 1 f) new u setup s)
              (omega (arith, le, empty.entries)))
          (ap (λ fl. has_flag fl nocopy_keys) setup.flags ∙ copies) in
      let setup' = SameSetup_trans (fresh_table 1 f) new t setup setup1 in
      let ((t', released2), run2, (valid', setup2, few', reads', freed2)) =
        copy-union ht2 t v2 valid (same_case (fresh_table 1 f) t setup' ∙ sym case2) good2
          (λ u s le.
            space u (SameSetup_trans (fresh_table 1 f) t u setup' s)
              (omega (arith, le, few, empty.entries)))
          (ap (λ fl. has_flag fl nocopy_keys) setup'.flags ∙ copies) in
      (
        (t', released1 ++ released2),
        rw (run, run1, run2) refl,
        (
          valid',
          λ q.
              reads' q
              ∙ ap (λ o. or_else (view ht2 q) o)
                  (reads q
                    ∙ ap (λ o. or_else (view ht1 q) o) (empty.reads q)
                    ∙ or_none (view ht1 q)),
          keys_freed-append released1 released2 ∙ rw (freed1, freed2) refl,
        ),
      )
