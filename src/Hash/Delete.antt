-- ===== src/Hash/Delete.antt =====
-- `cfuhash_delete_data` of src/cfuhash.c against the abstract map.
use libcfu.Common.{
  ℕ, ◌+◌, ◌-◌, ◌^◌, ◌≤◌, ◌<◌, ◌≡◌, refl, ◌∙◌, inl, inr, Bool, true, Option, none, some, List, [],
  ◌++◌, arith, ◌==◌, if◌then◌else◌, Option-cases, bytes_eq, bytes_eq_iff, length, set,
  length-flatten-set, Returns,
}
use mathlib.Core.List.{flatten}
use libcfu.Hash.Value.{Key, home}
use libcfu.Hash.Home.{home-lt}
use libcfu.Hash.Key.{is_key}
use libcfu.Hash.Chain.{
  Entry, named, unlink, unlink_congr, find-unlink, count-unlink-le, length-unlink,
}
use libcfu.Hash.Table.{Platform, Table, null, ignores_case}
use libcfu.Hash.Rehash.{wanted_size}
use libcfu.Hash.Access.{
  Release, key_release, call_release, read_key, matches, Deleted, delete_at, delete_data,
}
use libcfu.Hash.View.{lookup, chain_of, set-Holds}
use libcfu.Hash.Valid.{IsValid, SameSetup, entry_at, view, name_in, valid_bounds}
use libcfu.Hash.Resize.{shrink-Keeps, SameSetup_refl, SameSetup_entries}
use libcfu.Hash.Laws.{matches-named, find-entry_at, located, all_keyed-unlink, is_none}

abbrev pub deleted_value : ℕ → Option Entry → ℕ
deleted_value free_fn none = null
deleted_value free_fn (some he) = if free_fn == null then he.value else null

abbrev pub deleted_release : ℕ → ℕ → Option Entry → List Release
deleted_release flags free_fn none = []
deleted_release flags free_fn (some he) = key_release flags he ++ call_release free_fn he

-- What a deletion of `name` does to a table.
pub record Deletes {F : Type 0} (ht : Table F) (name : List ℕ) (w : Deleted F) : Type 0 where
  pub valid : IsValid w.table
  pub setup : SameSetup ht w.table
  pub entries : w.table.entries + (if is_none (entry_at ht name) then 0 else 1) ≡ ht.entries
  pub reads : (q : List ℕ) → view w.table q ≡ (if bytes_eq q name then none else view ht q)
  pub value : w.r ≡ deleted_value ht.free_fn (entry_at ht name)
  pub released : w.released ≡ deleted_release ht.flags ht.free_fn (entry_at ht name)

module _ ⦃p : Platform⦄ (ht : Table p.Float) (k : Key) (v : IsValid ht)
    (good : is_key (ignores_case ht) k ≡ true) where
  abbrev ic : Bool
  ic = ignores_case ht

  abbrev name : List ℕ
  name = name_in ht k

  abbrev hv : ℕ
  hv = home ht.hash_func name (length ht.buckets)

  absent-Deletes : entry_at ht name ≡ none → Returns (delete_at ht hv k none) (Deletes ht name)
  unfolding delete_at
  absent-Deletes e = (
    _,
    refl,
    record {
      valid = v;
      setup = SameSetup_refl ht;
      entries = rw e (omega arith);
      reads = λ q. ground (arith, e, bytes_eq_iff q name);
      value = rw e;
      released = rw e;
    },
  )

  present-Deletes :
      (he : Entry)
      → wanted_size (record ht { entries = ht.entries - 1 }) ≤ 2 ^ 31
      → entry_at ht name ≡ some he
      → Returns (delete_at ht hv k (some he)) (Deletes ht name)
  unfolding delete_at lookup ignores_case wanted_size
  present-Deletes he fits e =
      let b = valid_bounds v in
      let c = chain_of ic ht.hash_func ht.buckets name in
      let c' = unlink (named ic name) c in
      let shorter = length-unlink (named ic name) c he e in
      let filled : 0 < ht.entries = omega (
        arith,
        v.counted,
        length-flatten-set ht.buckets hv [] (home-lt ht.hash_func name (length ht.buckets) b.0 b.1),
      ) in
      let h =
        set-Holds ic ht.hash_func ht.buckets b.0 b.1 v.placed name none c'
          (length (flatten ht.buckets) - 1) (omega (arith, v.counted))
          (all_keyed-unlink (named ic name) c (v.placed.keyed hv))
          (λ q. omega (arith, count-unlink-le ic name q c))
          (λ q. find-unlink ic name q c (v.placed.once q _)) in
      let ht₁ : Table p.Float = record ht {
        buckets = set ht.buckets hv c';
        entries = ht.entries - 1;
      } in
      let v₁ : IsValid ht₁ = record {
        width = h.width ∙ v.width;
        power = v.power;
        counted = omega (arith, h.counted, v.counted);
        placed = h.placed;
      } in
      let (ht', run, keeps) = shrink-Keeps ht₁ v₁ fits in
      (
        record {
          table = ht';
          r = if ht.free_fn == null then he.value else null;
          released = key_release ht.flags he ++ call_release ht.free_fn he;
        },
        rw (unlink_congr (matches ht k) (named ic name) (matches-named ht k good), run),
        record {
          valid = keeps.valid;
          setup = SameSetup_entries ht₁.buckets ht₁.entries keeps.setup;
          entries = rw e (omega (arith, keeps.entries));
          reads = λ q. ground (arith, h.reads q, keeps.reads q);
          value = rw e;
          released = rw e;
        },
      )

  delete_at-Deletes :
      wanted_size (record ht { entries = ht.entries - 1 }) ≤ 2 ^ 31
      → Returns (delete_at ht hv k (entry_at ht name)) (Deletes ht name)
  delete_at-Deletes fits = elim (Option-cases (entry_at ht name)) [
    | inl e ↦ rw e (absent-Deletes e)
    | inr (he, e) ↦ rw e (present-Deletes he fits e)
  ]

-- On a valid table, for a key that is a C string (or any bytes, where case counts), and if the size
-- that a resize would ask for is at most 2 ^ 31: `cfuhash_delete_data` returns; the table is valid,
-- has nothing under the key's name and every other name as before; the count falls by one exactly if
-- the name was there; the data is returned, or handed to the free function if there is one, and the
-- key is freed unless keys are not copied.
pub delete_data-Deletes :
    ⦃p : Platform⦄ (ht : Table p.Float) (mem : List ℕ) (key_size : ℕ)
    → IsValid ht
    → is_key (ignores_case ht) (read_key (some mem) key_size) ≡ true
    → wanted_size (record ht { entries = ht.entries - 1 }) ≤ 2 ^ 31
    → Returns
        (delete_data ht (some mem) key_size)
        (Deletes ht (name_in ht (read_key (some mem) key_size)))
unfolding delete_data
delete_data-Deletes ht mem key_size v good fits =
    let k = read_key (some mem) key_size in
    rw (located ht k v good, find-entry_at ht k v good) (delete_at-Deletes ht k v good fits)
