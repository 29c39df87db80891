-- ===== src/Hash/Access.antt =====
-- Lookup, insertion and deletion by key, of src/cfuhash.c.
use mathlib.Core.Option
use libcfu.Common.{
  ℕ, suc, ◌+◌, ◌-◌, ◌^◌, Bool, true, false, not, Option, none, some, List, [], ◌∷◌, ◌++◌, ◌==◌,
  if◌then◌else◌, take, set_out, Run, ok, fault, ◌>>=◌,
}
use libcfu.Hash.Value.{Key}
use libcfu.Hash.Key.{hash_cmp}
use libcfu.Hash.Chain.{Entry, entry, find, assign, unlink}
use libcfu.Hash.Table.{
  Platform, Table, null, has_flag, nocopy_keys, ignores_case, locate, bucket, set_bucket,
}
use libcfu.Hash.Rehash.{grow, shrink}

-- What the code hands back to memory: a call of a free function on data, or a key's copy.
pub data Release : Type 0 where
  call : (fn value : ℕ) → Release
  free_key : Key → Release
  free_value : ℕ → Release

-- `(size_t) -1`
abbrev pub unknown_size : ℕ
unknown_size = 2 ^ 64 - 1

-- `strlen` of a key, over the bytes that its pointer reads.
unfoldable pub key_strlen : List ℕ → ℕ
key_strlen [] = 0
key_strlen (c ∷ s) = if c == 0 then 0 else suc (key_strlen s)

unfoldable pub key_size_of : Option (List ℕ) → ℕ → ℕ
key_size_of key key_size =
    if key_size == unknown_size
    then (elim key [ none ↦ 0 | some mem ↦ key_strlen mem + 1 ])
    else key_size

-- The key that a pointer and a size argument stand for. A null pointer has size 0: calls with a null
-- pointer and another size, which would read through it, are outside of the model.
unfoldable pub read_key : Option (List ℕ) → ℕ → Key
read_key key key_size = Option.map (take (key_size_of key key_size)) key

-- `hash_key_dup`, and the choice that `hash_add_entry` makes.
unfoldable pub stored_key : ℕ → Key → Key
stored_key flags none = if has_flag flags nocopy_keys then none else some []
stored_key flags (some bs) = some bs

abbrev pub key_release : ℕ → Entry → List Release
key_release flags he = if has_flag flags nocopy_keys then [] else free_key he.key ∷ []

abbrev pub call_release : ℕ → Entry → List Release
call_release fn he = if fn == null then [] else call fn he.value ∷ []

-- The return value and the two out-parameters.
pub record Got : Type 0 where
  pub found : Bool
  pub r : Option ℕ
  pub size : Option ℕ

-- A result with the new table, the out-parameter and what was released.
pub record Put (F : Type 0) : Type 0 where
  pub table : Table F
  pub added : Bool
  pub r : Option ℕ
  pub released : List Release

-- The deleted data, if it was not released.
pub record Deleted (F : Type 0) : Type 0 where
  pub table : Table F
  pub r : ℕ
  pub released : List Release

-- `if (hr && r)` guards both stores.
unfoldable pub hand_out : Option Entry → (r data_size : Option ℕ) → Got
hand_out none r data_size = record { found = false; r = r; size = data_size }
hand_out (some hr) none data_size = record { found = true; r = none; size = data_size }
hand_out (some hr) (some old) data_size = record {
  found = true;
  r = some hr.value;
  size = set_out data_size hr.data_size;
}

module _ {F : Type 0} where
  -- The loop's `!hash_cmp(...)`
  abbrev pub matches : Table F → Key → Entry → Bool
  matches ht key he = not (hash_cmp key he.key (ignores_case ht))

  -- `none` for the table is a null pointer.
  unfoldable pub get_data :
      Option (Table F) → Option (List ℕ) → ℕ → (r data_size : Option ℕ) → Run Got
  get_data none key key_size r data_size = ok (record { found = false; r = r; size = data_size })
  get_data (some ht) key key_size r data_size = do
    let k = read_key key key_size
    hv ← locate ht k
    ok (hand_out (find (matches ht k) (bucket ht hv)) r data_size)

  unfoldable pub get : Option (Table F) → Option (List ℕ) → Run ℕ
  get ht key = do
    g ← get_data ht key unknown_size (some null) none
    ok (if g.found then (elim g.r [ none ↦ null | some v ↦ v ]) else null)

  unfoldable pub exists_data : Option (Table F) → Option (List ℕ) → ℕ → Run Bool
  exists_data ht key key_size = do g ← get_data ht key key_size (some null) none; ok g.found

  unfoldable pub exists : Option (Table F) → Option (List ℕ) → Run Bool
  exists ht key = exists_data ht key unknown_size

  unfoldable pub add_entry : Table F → ℕ → Key → (value data_size : ℕ) → Table F
  add_entry ht hv key value data_size =
      record (set_bucket ht hv (entry (stored_key ht.flags key) value data_size ∷ bucket ht hv)) {
        entries = ht.entries + 1;
      }

module _ ⦃p : Platform⦄ where
  unfoldable pub data_size_of : ℕ → ℕ → ℕ
  data_size_of value data_size =
      if data_size == unknown_size
      then (if value == null then 0 else p.strlen value + 1)
      else data_size

  -- The two branches behind the search: the entry's data replaced, or an entry added.
  unfoldable pub put_at :
      Table p.Float → ℕ → Key → (value data_size : ℕ) → Option ℕ → Option Entry → Run (Put p.Float)
  put_at ht hv key value data_size r (some he) = ok (record {
    table = set_bucket ht hv (assign (matches ht key) value data_size (bucket ht hv));
    added = false;
    r = set_out r (if ht.free_fn == null then he.value else null);
    released = call_release ht.free_fn he;
  })
  put_at ht hv key value data_size r none = do
    ht' ← grow (add_entry ht hv key value data_size)
    ok (record { table = ht'; added = true; r = r; released = [] })

  unfoldable pub put_data :
      Table p.Float → Option (List ℕ) → ℕ → (value data_size : ℕ) → Option ℕ → Run (Put p.Float)
  put_data ht key key_size value data_size r = do
    let k = read_key key key_size
    hv ← locate ht k
    put_at ht hv k value (data_size_of value data_size) r (find (matches ht k) (bucket ht hv))

  -- The new table, the returned pointer and what was released.
  unfoldable pub put : Table p.Float → Option (List ℕ) → ℕ → Run (Table p.Float × ℕ × List Release)
  put ht key value = do
    w ← put_data ht key unknown_size value 0 (some null)
    let old = if w.added then null else elim w.r [ none ↦ null | some v ↦ v ]
    ok (w.table, old, w.released)

  unfoldable pub delete_at : Table p.Float → ℕ → Key → Option Entry → Run (Deleted p.Float)
  delete_at ht hv key none = ok (record { table = ht; r = null; released = [] })
  delete_at ht hv key (some he) = do
    ht' ← shrink (record (set_bucket ht hv (unlink (matches ht key) (bucket ht hv))) {
      entries = ht.entries - 1;
    })
    ok (record {
      table = ht';
      r = if ht.free_fn == null then he.value else null;
      released = key_release ht.flags he ++ call_release ht.free_fn he;
    })

  -- `strlen` is called on the key with no test for null; the read of the bucket has no assertion,
  -- and would be out of bounds where `locate` faults.
  unfoldable pub delete_data : Table p.Float → Option (List ℕ) → ℕ → Run (Deleted p.Float)
  delete_data ht none key_size =
      if key_size == unknown_size
      then fault
      else (do hv ← locate ht none; delete_at ht hv none (find (matches ht none) (bucket ht hv)))
  delete_data ht (some mem) key_size = do
    let k = read_key (some mem) key_size
    hv ← locate ht k
    delete_at ht hv k (find (matches ht k) (bucket ht hv))

  unfoldable pub delete : Table p.Float → Option (List ℕ) → Run (Deleted p.Float)
  delete ht key = delete_data ht key unknown_size
