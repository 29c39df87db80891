-- ===== src/List/Nth.antt =====
-- Lookup at a position of a list of src/cfulist.c.
use libcfu.Common.{
  ℕ, zero, suc, ◌≡◌, refl, sym, subst, ◌≢◌, inl, inr, true, false, Option, none, some, List, [],
  ◌∷◌, arith, leb, Bool-cases, Option-cases, length, get_elem?, ok, set_out,
}
use libcfu.List.Store.{Ptr, null, Entry, entry, Heap, Store, this_list}
use libcfu.List.Ends.{Out, Result, result}
use libcfu.List.Inner.{find_loop, find_entry, nth_data}
use libcfu.List.Chain.{Cell, first, IsChain, IsList}
use libcfu.List.Steps.{load-ok, ne-beq, store_of, store-eq}

-- The address, data and size at a position, if there is one.
abbrev pub found_at : Option Cell → Ptr
found_at none = null
found_at (some c) = c.addr

abbrev pub found_data : Out → Out → Option Cell → Result
found_data d size none = result false d size
found_data d size (some c) = result true (set_out d c.value) (set_out size c.data_size)

find_loop-nth :
    (s : Store) (b : Ptr) (xs : List Cell) (n : ℕ)
    → IsChain s.heap b xs null
    → find_loop n (first xs null) s ≡ ok (found_at (get_elem? xs n), s)
unfolding find_loop
find_loop-nth s b [] zero ch = refl
find_loop-nth s b [] (suc n) ch = refl
find_loop-nth s b (c ∷ xs) zero ch = refl
find_loop-nth s b (c ∷ xs) (suc n) ch =
    rw
      (ne-beq c.addr ch.0, load-ok c.addr s (entry c.value c.data_size (first xs null) b) ch.0 ch.1)
      (find_loop-nth s c.addr xs n ch.2)

get_elem?-past : (xs : List Cell) (n : ℕ) → leb (length xs) n ≡ true → get_elem? xs n ≡ none
get_elem?-past [] n h = refl
get_elem?-past (c ∷ xs) zero h = ground arith
get_elem?-past (c ∷ xs) (suc n) h = get_elem?-past xs n (ground arith)

pub find_entry-at :
    (h : Heap) (xs : List Cell) (n : ℕ) (ep ff : Ptr) (calls : List (Ptr × Ptr))
    → IsChain h null xs null
    → find_entry this_list n (store_of h xs ep ff calls)
      ≡ ok (found_at (get_elem? xs n), store_of h xs ep ff calls)
unfolding find_entry
find_entry-at h xs n ep ff calls ch =
    let rest = find_loop-nth (store_of h xs ep ff calls) null xs n ch in
    elim (Bool-cases (leb (length xs) n)) [
      | inl e ↦ rw (e, get_elem?-past xs n e)
      | inr e ↦ rw e rest
    ]

-- `_cfulist_find_entry` gives the address of the cell at the position, a null pointer behind the end.
pub find_entry-nth :
    (s : Store) (xs : List Cell) (n : ℕ)
    → IsList s xs
    → find_entry this_list n s ≡ ok (found_at (get_elem? xs n), s)
find_entry-nth s xs n is =
    subst (λ t. find_entry this_list n t ≡ ok (found_at (get_elem? xs n), t))
      (sym (store-eq s xs is))
      (find_entry-at s.heap xs n s.list.each_ptr s.list.free_fn s.calls is.chain)

nth_cell :
    (s : Store) (b : Ptr) (xs : List Cell) (n : ℕ) (c : Cell)
    → IsChain s.heap b xs null
    → get_elem? xs n ≡ some c
    → (c.addr ≢ null)
      × (e : Entry) × (s.heap c.addr ≡ some e)
      × (e.value ≡ c.value)
      × (e.data_size ≡ c.data_size)
nth_cell s b [] n c ch h = absurd cc
nth_cell s b (x ∷ xs) zero c ch h =
    let same : x ≡ c = cc in
    subst
      (λ y.
        (y.addr ≢ null)
        × (e : Entry) × (s.heap y.addr ≡ some e)
        × (e.value ≡ y.value)
        × (e.data_size ≡ y.data_size))
      same (ch.0, entry x.value x.data_size (first xs null) b, ch.1, refl, refl)
nth_cell s b (x ∷ xs) (suc n) c ch h = nth_cell s x.addr xs n c ch.2 h

-- `cfulist_nth_data` on a list returns 1 with data and size of the cell at position `n`, counted from
-- 0, and 0 behind the end, with the outputs as they were; it changes nothing.
pub nth_data-get_elem? :
    (s : Store) (xs : List Cell) (n : ℕ) (d size : Out)
    → IsList s xs
    → nth_data this_list d size n s ≡ ok (found_data d size (get_elem? xs n), s)
unfolding nth_data
nth_data-get_elem? s xs n d size is =
    let at = find_entry-nth s xs n is in
    elim (Option-cases (get_elem? xs n)) [
      | inl e ↦ rw (at, e)
      | inr (c, e) ↦
          (let (ne, x, holds, v, z) = nth_cell s null xs n c is.chain e in
            rw (at, e, ne-beq c.addr ne, load-ok c.addr s x ne holds, v, z))
    ]
