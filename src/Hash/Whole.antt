-- ===== src/Hash/Whole.antt =====
-- Clearing, destroying, copying and merging tables, and the counts, of src/cfuhash.c.
use libcfu.Common.{
  ℕ, ◌+◌, bit_or, Bool, true, false, Option, none, some, List, [], ◌∷◌, ◌++◌, if◌then◌else◌, length,
  replicate, Run, ok, ◌>>=◌,
}
use libcfu.Hash.Value.{Key}
use libcfu.Hash.Key.{key_bytes}
use libcfu.Hash.Chain.{Entry, Chain}
use libcfu.Hash.Table.{Platform, Table, null, new_table, frozen_until_grows}
use libcfu.Hash.Rehash.{shrink}
use libcfu.Hash.Access.{free_key, Release, key_release, call_release, get_data, put_data}
use libcfu.Hash.Walk.{destroy_entry, keys_data}

-- What a loop over a chain, or over the bucket array, releases.
unfoldable pub release_chain : (Entry → List Release) → Chain → List Release
release_chain release [] = []
release_chain release (he ∷ c) = release he ++ release_chain release c

unfoldable pub release_all : (Entry → List Release) → List Chain → List Release
release_all release [] = []
release_all release (c ∷ cs) = release_chain release c ++ release_all release cs

abbrev pub is_used : Chain → Bool
is_used [] = false
is_used (e ∷ c) = true

unfoldable pub count_used : List Chain → ℕ
count_used [] = 0
count_used (c ∷ cs) = (if is_used c then 1 else 0) + count_used cs

module _ {F : Type 0} where
  abbrev pub clear_entry : Table F → Entry → List Release
  clear_entry ht he = key_release ht.flags he ++ call_release ht.free_fn he

  -- `none` is a null pointer. The bucket array and the table itself are freed as well.
  unfoldable pub destroy_with_free_fn : Option (Table F) → ℕ → Bool × List Release
  destroy_with_free_fn none ff = (false, [])
  destroy_with_free_fn (some ht) ff = (true, release_all (destroy_entry ht ff) ht.buckets)

  unfoldable pub destroy : Option (Table F) → Bool × List Release
  destroy ht = destroy_with_free_fn ht null

  unfoldable pub num_entries : Option (Table F) → ℕ
  num_entries none = 0
  num_entries (some ht) = ht.entries

  unfoldable pub num_buckets : Option (Table F) → ℕ
  num_buckets none = 0
  num_buckets (some ht) = ht.num_buckets

  unfoldable pub num_buckets_used : Option (Table F) → ℕ
  num_buckets_used none = 0
  num_buckets_used (some ht) = count_used ht.buckets

module _ ⦃p : Platform⦄ where
  unfoldable pub clear : Table p.Float → Run (Table p.Float × List Release)
  clear ht = do
    ht' ← shrink (record ht { buckets = replicate (length ht.buckets) []; entries = 0 })
    ok (ht', release_all (clear_entry ht) ht.buckets)

  -- The loop of `cfuhash_copy`, over the keys listed, each of which is freed at the end of its round:
  -- with `nocopy_keys` an entry that is added keeps a pointer to what is freed there.
  unfoldable pub copy_keys :
      Table p.Float → List Key → Table p.Float → Run (Table p.Float × List Release)
  copy_keys src [] dst = ok (dst, [])
  copy_keys src (k ∷ ks) dst = do
    let size = length (key_bytes k)
    g ← get_data (some src) k size (some null) (some 0)
    let keep : Run (Table p.Float × List Release) = ok (dst, [])
    put ← elim g.found [
      | true ↦ (do
        w ←
            put_data dst k size (elim g.r [ none ↦ null | some v ↦ v ])
              (elim g.size [ none ↦ 0 | some n ↦ n ]) none
        ok (w.table, w.released))
      | false ↦ keep
    ]
    r ← copy_keys src ks put.0
    ok (r.0, put.1 ++ free_key k ∷ r.1)

  unfoldable pub copy : Table p.Float → Table p.Float → Run (Table p.Float × List Release)
  copy src dst = do k ← keys_data (some src) true false; copy_keys src k.keys dst

  abbrev pub copy_from : Option (Table p.Float) → Table p.Float → Run (Table p.Float × List Release)
  copy_from none dst = ok (dst, [])
  copy_from (some src) dst = copy src dst

  unfoldable pub merge : (ht1 ht2 : Option (Table p.Float)) → ℕ → Run (Table p.Float × List Release)
  merge ht1 ht2 flags = do
    new ← new_table (num_entries ht1 + num_entries ht2) (bit_or flags frozen_until_grows)
    first ← copy_from ht1 new
    second ← copy_from ht2 first.0
    ok (second.0, first.1 ++ second.1)
