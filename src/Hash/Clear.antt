-- ===== src/Hash/Clear.antt =====
-- New, cleared and destroyed tables of src/cfuhash.c.
use libcfu.Common.{
  ℕ, ◌^◌, ◌≤◌, ◌≡◌, refl, sym, ap, ◌∙◌, none, List, [], ◌∷◌, ◌++◌, append_assoc, length, replicate,
  Returns,
}
use mathlib.Core.List.{flatten}
use libcfu.Hash.Size.{IsSize, hash_size-IsSize}
use libcfu.Hash.Chain.{Entry, Chain}
use libcfu.Hash.Table.{Platform, Table, ignores_case, fresh_table, new_table}
use libcfu.Hash.Rehash.{wanted_size}
use libcfu.Hash.Access.{Release}
use libcfu.Hash.Whole.{release_chain, release_all, clear_entry, clear}
use libcfu.Hash.Valid.{IsValid, SameSetup, view, data_of, replicate-Holds}
use libcfu.Hash.Resize.{shrink-Keeps, SameSetup_entries}

release_chain-append :
    (f : Entry → List Release) (a b : Chain)
    → release_chain f (a ++ b) ≡ release_chain f a ++ release_chain f b
unfolding release_chain
release_chain-append f [] b = refl
release_chain-append f (e ∷ a) b =
    rw (release_chain-append f a b)
      (sym (append_assoc (f e) (release_chain f a) (release_chain f b)))

pub release_all-flatten :
    (f : Entry → List Release) (cs : List Chain) → release_all f cs ≡ release_chain f (flatten cs)
unfolding release_all flatten release_chain
release_all-flatten f [] = refl
release_all-flatten f (c ∷ cs) =
    rw (release_all-flatten f cs) (sym (release_chain-append f c (flatten cs)))

-- A table with no entries.
pub record IsEmpty {F : Type 0} (ht : Table F) : Type 0 where
  pub valid : IsValid ht
  pub entries : ht.entries ≡ 0
  pub reads : (q : List ℕ) → view ht q ≡ none

module _ ⦃p : Platform⦄ where
  -- For a size of at most 2 ^ 31 a new table is valid and empty, has the flags given, and as many
  -- buckets as the least power of two that is not below the size.
  pub new_table-IsEmpty :
      (size flags : ℕ)
      → size ≤ 2 ^ 31
      → Returns
          (new_table size flags)
          λ ht. IsEmpty ht × (ht.flags ≡ flags) × IsSize size ht.num_buckets
  unfolding new_table ignores_case
  new_table-IsEmpty size flags small =
      let (n, run, is) = hash_size-IsSize size small in
      (
        fresh_table n flags,
        rw run,
        (
          record {
            valid =
                (let h = replicate-Holds _ _ n in
                  record {
                    width = h.width;
                    power = is.power;
                    counted = h.counted;
                    placed = h.placed;
                  });
            entries = refl;
            reads = λ q. ap data_of ((replicate-Holds _ _ n).reads q);
          },
          refl,
          is,
        ),
      )

  -- If the size that a resize would ask for is at most 2 ^ 31, `cfuhash_clear` on a valid table
  -- returns a valid and empty table of the same setup, and releases the key and the data of every
  -- entry, in the order of the buckets.
  pub clear-IsEmpty :
      (ht : Table p.Float)
      → IsValid ht
      → wanted_size (record ht { entries = 0 }) ≤ 2 ^ 31
      → Returns (clear ht) λ r.
        IsEmpty r.0 × SameSetup ht r.0 × (r.1 ≡ release_chain (clear_entry ht) (flatten ht.buckets))
  unfolding clear ignores_case wanted_size
  clear-IsEmpty ht v fits =
      let n = length ht.buckets in
      let h = replicate-Holds (ignores_case ht) ht.hash_func n in
      let ht₁ : Table p.Float = record ht { buckets = replicate n []; entries = 0 } in
      let v₁ : IsValid ht₁ = record {
        width = h.width ∙ v.width;
        power = v.power;
        counted = h.counted;
        placed = h.placed;
      } in
      let (ht', run, keeps) = shrink-Keeps ht₁ v₁ fits in
      (
        (ht', release_all (clear_entry ht) ht.buckets),
        rw run,
        (
          record {
            valid = keeps.valid;
            entries = keeps.entries;
            reads = λ q. ap data_of (keeps.reads q ∙ h.reads q);
          },
          SameSetup_entries ht₁.buckets ht₁.entries keeps.setup,
          release_all-flatten (clear_entry ht) ht.buckets,
        ),
      )
