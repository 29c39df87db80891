-- ===== src/Hash/Walk.antt =====
-- The operations of src/cfuhash.c that go over all entries.
use libcfu.Common.{
  ℕ, zero, suc, ◌+◌, ◌-◌, ◌%◌, ◌^◌, Bool, true, false, Option, none, some, List, [], ◌∷◌, ◌++◌, map,
  leb, ◌==◌, if◌then◌else◌, length, Run, ok, fault,
}
use libcfu.Hash.Value.{Key}
use libcfu.Hash.Key.{key_bytes}
use libcfu.Hash.Chain.{Entry, Chain}
use libcfu.Hash.Table.{Table, null, has_flag, free_data}
use libcfu.Hash.Access.{Release, call, free_value, key_release}

-- A copy of the key, or the key itself.
abbrev pub listed_key : Bool → Entry → Key
listed_key fast he = if fast then he.key else some (key_bytes he.key)

-- The inner loop of `cfuhash_keys_data`; `room` is `ht->entries`, and `entry_index` and `key_count`
-- are the length of what is listed.
unfoldable pub list_chain : ℕ → Bool → Chain → List Key → List Key
list_chain room fast [] keys = keys
list_chain room fast (he ∷ c) keys =
    if leb room (length keys)
    then keys
    else list_chain room fast c (keys ++ listed_key fast he ∷ [])

unfoldable pub list_all : ℕ → Bool → List Chain → List Key → List Key
list_all room fast [] keys = keys
list_all room fast (c ∷ cs) keys = list_all room fast cs (list_chain room fast c keys)

pub record Keys : Type 0 where
  pub keys : List Key
  pub num_keys : ℕ
  pub key_sizes : Option (List ℕ)

module _ {F : Type 0} where
  -- `sized` says whether the caller passed a place for the sizes; without a table it is written
  -- with no test.
  unfoldable pub keys_data : Option (Table F) → (sized fast : Bool) → Run Keys
  keys_data none sized fast =
      if sized then ok (record { keys = []; num_keys = 0; key_sizes = some [] }) else fault
  keys_data (some ht) sized fast =
      let keys = list_all ht.entries fast ht.buckets [] in
      ok (record {
        keys = keys;
        num_keys = length keys;
        key_sizes = if sized then some (map (λ k. length (key_bytes k)) keys) else none;
      })

  unfoldable pub keys : Option (Table F) → Bool → Run Keys
  keys ht fast = keys_data ht false fast

  unfoldable pub reset_each : Table F → Table F
  reset_each ht = record ht { each_bucket_index = 2 ^ 64 - 1; each_chain_entry = [] }

-- The loop for the next bucket with an entry, over the buckets from `i` on.
unfoldable pub scan : List Chain → ℕ → ℕ × Chain
scan [] i = (i, [])
scan ([] ∷ cs) i = scan cs (i + 1)
scan ((e ∷ c) ∷ cs) i = (i, e ∷ c)

abbrev pub drop {ℓ} : {A : Type ℓ} → ℕ → List A → List A
drop zero xs = xs
drop (suc n) [] = []
drop (suc n) (x ∷ xs) = drop n xs

-- What the cursor points at, for the out-parameters; `none` is the return value 0.
abbrev pub first_of_chain : Chain → Option Entry
first_of_chain [] = none
first_of_chain (e ∷ c) = some e

module _ {F : Type 0} where
  abbrev pub at_cursor : Table F → ℕ × Chain → Table F × Option Entry
  at_cursor ht (i, c) =
      (record ht { each_bucket_index = i; each_chain_entry = c }, first_of_chain c)

  -- The two branches by whether the cursor's entry has a successor.
  unfoldable pub next_from : Table F → Chain → Table F × Option Entry
  next_from ht (cur ∷ e ∷ c) = at_cursor ht (ht.each_bucket_index, e ∷ c)
  next_from ht _ =
      let i = (ht.each_bucket_index + 1) % 2 ^ 64 in at_cursor ht (scan (drop i ht.buckets) i)

  unfoldable pub next_data : Table F → Table F × Option Entry
  next_data ht = next_from ht ht.each_chain_entry

  unfoldable pub each_data : Table F → Table F × Option Entry
  each_data ht = next_data (reset_each ht)

  -- The order in which the data, then the key, are given back.
  unfoldable pub destroy_entry : Table F → ℕ → Entry → List Release
  destroy_entry ht ff he =
      (if ff == null
        then (if ht.free_fn == null
            then (if has_flag ht.flags free_data then free_value he.value ∷ [] else [])
            else call ht.free_fn he.value ∷ [])
        else call ff he.value ∷ [])
      ++ key_release ht.flags he

-- A callback with its state: the new state, and whether the C function returned something other
-- than zero.
abbrev pub Callback : Type 0 → Type 0
Callback S = S → Entry → S × Bool

module _ {S : Type 0} (fn : Callback S) where
  -- The state, the number of calls and `rv`.
  unfoldable pub visit_chain : Chain → S × ℕ × Bool → S × ℕ × Bool
  visit_chain [] t = t
  visit_chain (e ∷ c) (s, n, rv) =
      visit_chain c (if rv then (s, n, rv) else ((fn s e).0, n + 1, (fn s e).1))

  unfoldable pub visit_all : List Chain → S × ℕ × Bool → S × ℕ × Bool
  visit_all [] t = t
  visit_all (c ∷ cs) t = visit_all cs (visit_chain c t)

  unfoldable pub foreach : {F : Type 0} → Option (Table F) → S → S × ℕ
  foreach none s = (s, 0)
  foreach (some ht) s = let t = visit_all ht.buckets (s, 0, false) in (t.0, t.1)

  -- What is left of a chain, and the state, the count and the releases.
  pub record Swept : Type 0 where
    pub state : S
    pub kept : Chain
    pub num_removed : ℕ
    pub released : List Release

  module _ {F : Type 0} (ht : Table F) (ff : ℕ) where
    -- `prev` says whether an entry before this one was kept: only then is `ff` passed on.
    unfoldable pub sweep_chain : Bool → Chain → S → Swept
    sweep_chain prev [] s = record { state = s; kept = []; num_removed = 0; released = [] }
    sweep_chain prev (e ∷ c) s =
        let gone = sweep_chain prev c (fn s e).0 in
        let stay = sweep_chain true c (fn s e).0 in
        if (fn s e).1
        then record gone {
          num_removed = gone.num_removed + 1;
          released = destroy_entry ht (if prev then ff else null) e ++ gone.released;
        }
        else record stay { kept = e ∷ stay.kept }

  pub record SweptAll : Type 0 where
    pub state : S
    pub kept : List Chain
    pub num_removed : ℕ
    pub released : List Release

  module _ {F : Type 0} (ht : Table F) (ff : ℕ) where
    unfoldable pub sweep_all : List Chain → S → SweptAll
    sweep_all [] s = record { state = s; kept = []; num_removed = 0; released = [] }
    sweep_all (c ∷ cs) s =
        let one = sweep_chain ht ff false c s in
        let rest = sweep_all cs one.state in
        record {
          state = rest.state;
          kept = one.kept ∷ rest.kept;
          num_removed = one.num_removed + rest.num_removed;
          released = one.released ++ rest.released;
        }

    -- The new table beside what the walk gave: only the chains are changed.
    unfoldable pub foreach_remove : S → Table F × SweptAll
    foreach_remove s = let t = sweep_all ht.buckets s in (record ht { buckets = t.kept }, t)
