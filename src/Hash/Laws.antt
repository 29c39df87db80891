-- ===== src/Hash/Laws.antt =====
-- Lookup, insertion and deletion of src/cfuhash.c against the abstract map.
use libcfu.Common.{
  not, Returns, ℕ, ◌≡◌, refl, Bool, true, false, Option, none, some, List, [], ◌∷◌, arith, length,
  ok,
}
use libcfu.Hash.Value.{Key, home}
use libcfu.Hash.Key.{is_key, hash_cmp-name}
use libcfu.Hash.Chain.{Entry, Chain, find, named, assign, unlink, find_congr}
use libcfu.Hash.Table.{Table, ignores_case, locate, bucket}
use libcfu.Hash.Access.{read_key, stored_key, matches, Got, hand_out, get_data}
use libcfu.Hash.View.{lookup, is_keyed, all_keyed}
use libcfu.Hash.Valid.{IsValid, entry_at, name_in, locate-home}

pub is_key-keyed : (ic : Bool) (k : Key) → is_key ic k ≡ true → is_keyed k ≡ true
unfolding is_key
is_key-keyed ic none h = h
is_key-keyed ic (some bs) h = refl

pub stored_key-some : (flags : ℕ) (k : Key) → is_keyed k ≡ true → stored_key flags k ≡ k
unfolding stored_key
stored_key-some flags none h = cc
stored_key-some flags (some bs) h = refl

-- The loop's test is a comparison of names.
pub matches-named :
    {F : Type 0} (ht : Table F) (k : Key)
    → is_key (ignores_case ht) k ≡ true
    → (e : Entry) → matches ht k e ≡ named (ignores_case ht) (name_in ht k) e
matches-named ht k h e = ground (arith, hash_cmp-name (ignores_case ht) k e.key h)

module _ {F : Type 0} (ht : Table F) (k : Key) (v : IsValid ht)
    (good : is_key (ignores_case ht) k ≡ true) where
  pub find-entry_at :
      find (matches ht k) (bucket ht (home ht.hash_func (name_in ht k) (length ht.buckets)))
      ≡ entry_at ht (name_in ht k)
  unfolding lookup
  find-entry_at =
      find_congr (matches ht k) (named (ignores_case ht) (name_in ht k)) (matches-named ht k good) _

  pub located : locate ht k ≡ ok (home ht.hash_func (name_in ht k) (length ht.buckets))
  located = locate-home ht k v (is_key-keyed (ignores_case ht) k good)

pub get_data-hand_out :
    {F : Type 0} (ht : Table F) (key : Option (List ℕ)) (key_size : ℕ) (r data_size : Option ℕ)
    → IsValid ht
    → is_key (ignores_case ht) (read_key key key_size) ≡ true
    → get_data (some ht) key key_size r data_size
      ≡ ok (hand_out (entry_at ht (name_in ht (read_key key key_size))) r data_size)
unfolding get_data
get_data-hand_out ht key key_size r data_size v good =
    let k = read_key key key_size in rw (located ht k v good, find-entry_at ht k v good)

-- The pointer of a caller holds the data that was found, and what it held where none was.
abbrev pub data_or : Option Entry → ℕ → ℕ
data_or none old = old
data_or (some e) old = e.value

-- The same of the size, which is stored only where the data is asked for as well.
abbrev pub size_or : Option Entry → (r : Option ℕ) → ℕ → ℕ
size_or none r old = old
size_or (some e) none old = old
size_or (some e) (some d) old = e.data_size

abbrev pub is_none {ℓ} : {A : Type ℓ} → Option A → Bool
is_none none = true
is_none (some a) = false

-- The three results of a search that ends with this entry.
abbrev pub HandsOut : Option Entry → (r data_size : Option ℕ) → Got → Type 0
HandsOut at r data_size g =
    (g.found ≡ not (is_none at))
    × (g.r ≡ elim r [ none ↦ none | some old ↦ some (data_or at old) ])
    × (g.size ≡ elim data_size [ none ↦ none | some old ↦ some (size_or at r old) ])

hand_out-HandsOut :
    (at : Option Entry) (r data_size : Option ℕ) → HandsOut at r data_size (hand_out at r data_size)
unfolding hand_out
hand_out-HandsOut none none none = (refl, refl, refl)
hand_out-HandsOut none none (some n) = (refl, refl, refl)
hand_out-HandsOut none (some d) none = (refl, refl, refl)
hand_out-HandsOut none (some d) (some n) = (refl, refl, refl)
hand_out-HandsOut (some e) none none = (refl, refl, refl)
hand_out-HandsOut (some e) none (some n) = (refl, refl, refl)
hand_out-HandsOut (some e) (some d) none = (refl, refl, refl)
hand_out-HandsOut (some e) (some d) (some n) = (refl, refl, refl)

-- For a key that is a C string (or any bytes, where case counts), `cfuhash_get_data` on a valid
-- table returns: 1 where the abstract map has an entry under the key's name, 0 where it has none.
-- Where the entry is there, the pointer for the data, if it is not null, is set to the entry's data,
-- and then the one for the size, if it is not null, to its size; all else is left as it was.
pub get_data-entry_at :
    {F : Type 0} (ht : Table F) (key : Option (List ℕ)) (key_size : ℕ) (r data_size : Option ℕ)
    → IsValid ht
    → is_key (ignores_case ht) (read_key key key_size) ≡ true
    → Returns
        (get_data (some ht) key key_size r data_size)
        (HandsOut (entry_at ht (name_in ht (read_key key key_size))) r data_size)
get_data-entry_at ht key key_size r data_size v good =
    let at = entry_at ht (name_in ht (read_key key key_size)) in
    (
      hand_out at r data_size,
      get_data-hand_out ht key key_size r data_size v good,
      hand_out-HandsOut at r data_size,
    )

pub all_keyed-assign :
    (test : Entry → Bool) (d n : ℕ) (c : Chain)
    → all_keyed c ≡ true
    → all_keyed (assign test d n c) ≡ true
unfolding assign
all_keyed-assign test d n [] h = refl
all_keyed-assign test d n (e ∷ c) h = ground (arith, all_keyed-assign test d n c)

pub all_keyed-unlink :
    (test : Entry → Bool) (c : Chain) → all_keyed c ≡ true → all_keyed (unlink test c) ≡ true
unfolding unlink
all_keyed-unlink test [] h = refl
all_keyed-unlink test (e ∷ c) h = ground (arith, all_keyed-unlink test c)
