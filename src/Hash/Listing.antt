-- ===== src/Hash/Listing.antt =====
-- Lists of keys and walks with a callback, against the entries of the table.
use libcfu.Common.{
  ℕ, ◌+◌, ◌≤◌, ◌≡◌, refl, sym, ap, ◌∙◌, Bool, true, false, some, List, [], ◌∷◌, ◌++◌, map,
  append-nil, append_assoc, arith, leb, if◌then◌else◌, length, length-append, length-map, Returns,
}
use mathlib.Core.List.{map-append, flatten}
use libcfu.Hash.Value.{Key}
use libcfu.Hash.Chain.{Entry, Chain, count, find-eq-none, count-eq-zero}
use libcfu.Hash.Table.{Table, ignores_case}
use libcfu.Hash.Walk.{
  listed_key, list_chain, list_all, keys_data, Callback, visit_chain, visit_all, foreach,
}
use libcfu.Hash.View.{flatten-lookup}
use libcfu.Hash.Valid.{IsValid, entry_at}
use libcfu.Hash.Laws.{is_none}

list_chain-append :
    (room : ℕ) (fast : Bool) (c : Chain) (keys : List Key)
    → length keys + length c ≤ room
    → list_chain room fast c keys ≡ keys ++ map (listed_key fast) c
unfolding list_chain
list_chain-append room fast [] keys h = sym (append-nil _)
list_chain-append room fast (e ∷ c) keys h =
    let k = listed_key fast e in
    let rest =
      list_chain-append room fast c (keys ++ k ∷ []) (omega (arith, length-append keys (k ∷ []))) in
    let open_room : leb room (length keys) ≡ false = ground arith in
    rw (open_room, rest) (append_assoc keys (k ∷ []) (map (listed_key fast) c))

list_all-append :
    (room : ℕ) (fast : Bool) (cs : List Chain) (keys : List Key)
    → length keys + length (flatten cs) ≤ room
    → list_all room fast cs keys ≡ keys ++ map (listed_key fast) (flatten cs)
unfolding list_all flatten
list_all-append room fast [] keys h = sym (append-nil _)
list_all-append room fast (c ∷ cs) keys h =
    let ks = map (listed_key fast) c in
    rw (list_chain-append room fast c keys (omega (arith, length-append c (flatten cs)))) (
      list_all-append room fast cs (keys ++ ks) (
        omega (
          arith,
          length-append keys ks,
          length-append c (flatten cs),
          length-map (listed_key fast) c,
        ))
      ∙ simp (append_assoc, map-append))

-- A name of the map is the name of one entry, any other of none.
pub count-entry_at :
    {F : Type 0} (ht : Table F) (q : List ℕ)
    → IsValid ht
    → count (ignores_case ht) q (flatten ht.buckets) ≡ (if is_none (entry_at ht q) then 0 else 1)
count-entry_at ht q v =
    let ic = ignores_case ht in
    let (found, few) = flatten-lookup ic ht.hash_func ht.buckets q v.placed in
    ground (
      arith,
      found,
      few,
      find-eq-none ic q (flatten ht.buckets),
      count-eq-zero ic q (flatten ht.buckets),
    )

-- On a valid table `cfuhash_keys_data` lists the key of every entry, in the order of the buckets, as
-- many as the table counts; each name of the abstract map belongs to one listed entry, and no other
-- name to any.
pub keys_data-flatten :
    {F : Type 0} (ht : Table F) (sized fast : Bool)
    → IsValid ht
    → Returns (keys_data (some ht) sized fast) λ r.
      (r.keys ≡ map (listed_key fast) (flatten ht.buckets))
      × (r.num_keys ≡ ht.entries)
      × ((q : List ℕ)
          → count (ignores_case ht) q (flatten ht.buckets)
            ≡ (if is_none (entry_at ht q) then 0 else 1))
unfolding keys_data
keys_data-flatten ht sized fast v =
    let es = flatten ht.buckets in
    let all = list_all-append ht.entries fast ht.buckets [] (omega (arith, v.counted)) in
    (
      _,
      refl,
      (
        all,
        ap length all ∙ length-map (listed_key fast) es ∙ v.counted,
        λ q. count-entry_at ht q v,
      ),
    )

module _ {S : Type 0} (fn : Callback S) where
  -- The walk as it is meant: stop behind the first entry at which the callback says so.
  unfoldable pub visit_until : S → List Entry → S × ℕ
  visit_until s [] = (s, 0)
  visit_until s (e ∷ es) =
      let rest = visit_until (fn s e).0 es in
      if (fn s e).1 then ((fn s e).0, 1) else (rest.0, rest.1 + 1)

  visit_chain-stopped : (es : Chain) (s : S) (n : ℕ) → visit_chain fn es (s, n, true) ≡ (s, n, true)
  unfolding visit_chain
  visit_chain-stopped [] s n = refl
  visit_chain-stopped (e ∷ es) s n = visit_chain-stopped es s n

  visit_chain-append :
      (a b : Chain) (t : S × ℕ × Bool)
      → visit_chain fn (a ++ b) t ≡ visit_chain fn b (visit_chain fn a t)
  unfolding visit_chain
  visit_chain-append [] b t = refl
  visit_chain-append (e ∷ a) b (s, n, rv) = visit_chain-append a b _

  visit_all-flatten :
      (cs : List Chain) (t : S × ℕ × Bool) → visit_all fn cs t ≡ visit_chain fn (flatten cs) t
  unfolding visit_all flatten visit_chain
  visit_all-flatten [] t = refl
  visit_all-flatten (c ∷ cs) t = visit_all-flatten cs _ ∙ sym (visit_chain-append c (flatten cs) t)

  visit_chain-until :
      (es : Chain) (s : S) (n : ℕ)
      → ((visit_chain fn es (s, n, false)).0 ≡ (visit_until s es).0)
        × ((visit_chain fn es (s, n, false)).1 ≡ n + (visit_until s es).1)
  unfolding visit_chain visit_until
  visit_chain-until [] s n = (refl, omega arith)
  visit_chain-until (e ∷ es) s n =
      let (a, b) = visit_chain-until es (fn s e).0 (n + 1) in
      ground (arith, a, b, visit_chain-stopped es (fn s e).0 (n + 1))

  -- `cfuhash_foreach` calls the callback on the entries in the order of the buckets, up to the first
  -- one at which it returns other than zero, and returns the number of calls.
  pub foreach-until :
      {F : Type 0} (ht : Table F) (s : S)
      → foreach fn (some ht) s ≡ visit_until s (flatten ht.buckets)
  unfolding foreach
  foreach-until ht s =
      let (a, b) = visit_chain-until (flatten ht.buckets) s 0 in
      rw (visit_all-flatten ht.buckets (s, 0, false)) (ground (arith, a, b))
