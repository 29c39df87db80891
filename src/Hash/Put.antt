-- ===== src/Hash/Put.antt =====
-- `cfuhash_put_data` of src/cfuhash.c against the abstract map.
use libcfu.Common.{
  ℕ, ◌+◌, ◌^◌, ◌≤◌, ◌≡◌, refl, ◌∙◌, inl, inr, Bool, true, Option, none, some, List, [], ◌∷◌, arith,
  ◌==◌, if◌then◌else◌, Option-cases, bytes_eq, bytes_eq_iff, length, set, Returns,
}
use mathlib.Core.List.{flatten}
use libcfu.Hash.Value.{Key, home}
use libcfu.Hash.Key.{is_key}
use libcfu.Hash.Chain.{
  Entry, entry, find, named, count, assign, assign_congr, find-assign, count-assign, count-eq-zero,
  length-assign,
}
use libcfu.Hash.Table.{Platform, Table, null, ignores_case}
use libcfu.Hash.Rehash.{wanted_size}
use libcfu.Hash.Access.{
  Release, call_release, read_key, matches, add_entry, Put, data_size_of, put_at, put_data,
}
use libcfu.Hash.View.{lookup, chain_of, set-Holds}
use libcfu.Hash.Valid.{IsValid, SameSetup, entry_at, view, name_in, valid_bounds}
use libcfu.Hash.Resize.{grow-Keeps, SameSetup_entries}
use libcfu.Hash.Laws.{
  matches-named, find-entry_at, located, is_key-keyed, stored_key-some, all_keyed-assign, is_none,
}

abbrev pub replaced_value : ℕ → Option Entry → Option ℕ → Option ℕ
replaced_value free_fn none r = r
replaced_value free_fn (some he) none = none
replaced_value free_fn (some he) (some old) = some (if free_fn == null then he.value else null)

abbrev pub released_call : ℕ → Option Entry → List Release
released_call free_fn none = []
released_call free_fn (some he) = call_release free_fn he

-- What a write of `value` and `size` under `name` does to a table.
pub record Writes {F : Type 0} (ht : Table F) (name : List ℕ) (value size : ℕ) (r : Option ℕ)
    (w : Put F) : Type 0 where
  pub valid : IsValid w.table
  pub setup : SameSetup ht w.table
  pub added : w.added ≡ is_none (entry_at ht name)
  pub entries : w.table.entries ≡ ht.entries + (if is_none (entry_at ht name) then 1 else 0)
  pub reads :
      (q : List ℕ) → view w.table q ≡ (if bytes_eq q name then some (value, size) else view ht q)
  pub out : w.r ≡ replaced_value ht.free_fn (entry_at ht name) r
  pub released : w.released ≡ released_call ht.free_fn (entry_at ht name)

module _ ⦃p : Platform⦄ (ht : Table p.Float) (k : Key) (v : IsValid ht)
    (good : is_key (ignores_case ht) k ≡ true) where
  abbrev ic : Bool
  ic = ignores_case ht

  abbrev name : List ℕ
  name = name_in ht k

  abbrev hv : ℕ
  hv = home ht.hash_func name (length ht.buckets)

  replace-Writes :
      (value size : ℕ) (r : Option ℕ) (he : Entry)
      → entry_at ht name ≡ some he
      → Returns (put_at ht hv k value size r (some he)) (Writes ht name value size r)
  unfolding put_at lookup ignores_case
  replace-Writes value size r he e =
      let b = valid_bounds v in
      let c = chain_of ic ht.hash_func ht.buckets name in
      let h =
        set-Holds ic ht.hash_func ht.buckets b.0 b.1 v.placed name
          (some (record he { value = value; data_size = size }))
          (assign (named ic name) value size c) (length (flatten ht.buckets))
          (omega (arith, length-assign (named ic name) value size c))
          (all_keyed-assign (named ic name) value size c (v.placed.keyed hv))
          (λ q. omega (arith, count-assign ic name q value size c))
          (λ q. find-assign ic name q value size c he e) in
      (
        _,
        refl,
        rw (assign_congr (matches ht k) (named ic name) (matches-named ht k good)) (record {
          valid = record {
            width = h.width ∙ v.width;
            power = v.power;
            counted = h.counted ∙ v.counted;
            placed = h.placed;
          };
          setup = record {
            flags = refl;
            hash_func = refl;
            free_fn = refl;
            high = refl;
            low = refl;
          };
          added = rw e;
          entries = rw e (omega arith);
          reads = λ q. ground (arith, h.reads q);
          out = ground arith;
          released = rw e;
        }),
      )

  add-Writes :
      (value size : ℕ) (r : Option ℕ)
      → wanted_size (record ht { entries = ht.entries + 1 }) ≤ 2 ^ 31
      → entry_at ht name ≡ none
      → Returns (put_at ht hv k value size r none) (Writes ht name value size r)
  unfolding put_at add_entry lookup ignores_case wanted_size find count
  add-Writes value size r fits e =
      let b = valid_bounds v in
      let c = chain_of ic ht.hash_func ht.buckets name in
      let new = entry k value size in
      let h =
        set-Holds ic ht.hash_func ht.buckets b.0 b.1 v.placed name (some new) (new ∷ c)
          (length (flatten ht.buckets) + 1) (omega arith)
          (ground (arith, is_key-keyed ic k good, v.placed.keyed hv))
          (λ q. ground (arith, bytes_eq_iff q name, count-eq-zero ic name c e)) (λ q. refl) in
      let s = stored_key-some ht.flags k (is_key-keyed ic k good) in
      let ht₁ : Table p.Float = record ht {
        buckets = set ht.buckets hv (new ∷ c);
        entries = ht.entries + 1;
      } in
      let v₁ : IsValid ht₁ = record {
        width = h.width ∙ v.width;
        power = v.power;
        counted = omega (arith, h.counted);
        placed = h.placed;
      } in
      let (ht', run, keeps) = grow-Keeps ht₁ v₁ fits in
      (
        record { table = ht'; added = true; r = r; released = [] },
        rw (s, run),
        record {
          valid = keeps.valid;
          setup = SameSetup_entries ht₁.buckets ht₁.entries keeps.setup;
          added = rw e;
          entries = rw e keeps.entries;
          reads = λ q. ground (arith, h.reads q, keeps.reads q);
          out = rw e;
          released = rw e;
        },
      )

  put_at-Writes :
      (value size : ℕ) (r : Option ℕ)
      → wanted_size (record ht { entries = ht.entries + 1 }) ≤ 2 ^ 31
      → Returns (put_at ht hv k value size r (entry_at ht name)) (Writes ht name value size r)
  put_at-Writes value size r fits = elim (Option-cases (entry_at ht name)) [
    | inl e ↦ rw e (add-Writes value size r fits e)
    | inr (he, e) ↦ rw e (replace-Writes value size r he e)
  ]

-- On a valid table, for a key that is a C string (or any bytes, where case counts), and if the size
-- that a resize would ask for is at most 2 ^ 31: `cfuhash_put_data` returns; the table is valid and
-- maps the key's name to the new data and every other name as before; the count grows by one exactly
-- if the name was absent, and the return value says so; the old data is handed out, or handed to the
-- free function if there is one.
pub put_data-Writes :
    ⦃p : Platform⦄ (ht : Table p.Float) (key : Option (List ℕ)) (key_size value data_size : ℕ)
    (r : Option ℕ)
    → IsValid ht
    → is_key (ignores_case ht) (read_key key key_size) ≡ true
    → wanted_size (record ht { entries = ht.entries + 1 }) ≤ 2 ^ 31
    → Returns
        (put_data ht key key_size value data_size r)
        (Writes ht (name_in ht (read_key key key_size)) value (data_size_of value data_size) r)
unfolding put_data
put_data-Writes ht key key_size value data_size r v good fits =
    let k = read_key key key_size in
    rw (located ht k v good, find-entry_at ht k v good)
      (put_at-Writes ht k v good value (data_size_of value data_size) r fits)
