-- ===== src/List/Shift.antt =====
-- `cfulist_shift_data` of src/cfulist.c on a list in memory.
use libcfu.Common.{
  suc, ◌-◌, ◌≡◌, refl, true, false, none, some, List, [], ◌∷◌, arith, ltb, leb, ◌==◌, length,
  Returns, set_out,
}
use libcfu.List.Store.{Ptr, null, entry, Heap, Store, this_list, write}
use libcfu.List.Ends.{Out, result, shift_head, shift_data}
use libcfu.List.Chain.{Cell, Distinct, first, IsChain, IsList, IsChain-write, IsChain-relink_first}
use libcfu.List.Steps.{load-ok, set_prev-ok, free-ok, store_of, at_store}
use libcfu.List.Pop.{Taken, take_only}

module _ (old : Ptr) (n : Out) (c : Cell) (h : Heap) (ep ff : Ptr) (calls : List (Ptr × Ptr)) where
  shift_more :
      (x : Cell) (xs : List Cell)
      → IsChain h null (c ∷ x ∷ xs) null
      → Distinct (c ∷ x ∷ xs)
      → Returns
          (shift_data this_list (some old) n (store_of h (c ∷ x ∷ xs) ep ff calls))
          (Taken c old n (c ∷ x ∷ xs) (x ∷ xs) (store_of h (c ∷ x ∷ xs) ep ff calls))
  unfolding shift_data shift_head
  shift_more x xs ch ds =
      let s : Store = store_of h (c ∷ x ∷ xs) ep ff calls in
      let e = entry c.value c.data_size x.addr null in
      let ex = entry x.value x.data_size (first xs null) c.addr in
      let got : (c.addr == null) ≡ false = ground arith in
      let got_x : (x.addr == null) ≡ false = ground arith in
      let h₁ = write h x.addr (some (entry x.value x.data_size (first xs null) null)) in
      let s₁ : Store = record s { heap = h₁ } in
      let at_c : h₁ c.addr ≡ some e = ground arith in
      let ch₁ = IsChain-relink_first h c.addr x xs null null ch.2 ds.1 in
      let ch₂ = IsChain-write h₁ c.addr none null (x ∷ xs) null ch₁ ds.0 in
      let s' : Store = store_of (write h₁ c.addr none) (x ∷ xs) ep ff calls in
      let some_left : leb 1 (suc (suc (length xs))) ≡ true = ground arith in
      let more_left : ltb 1 (suc (suc (length xs))) ≡ true = ground arith in
      let one_less : suc (suc (length xs)) - 1 ≡ suc (length xs) = omega arith in
      (
        (result true (some c.value) (set_out n c.data_size), s'),
        rw (
          got,
          load-ok c.addr s e ch.0 ch.1,
          some_left,
          got_x,
          more_left,
          set_prev-ok x.addr s ex ch.2.0 ch.2.1 null,
          free-ok c.addr s₁ e ch.0 at_c,
          one_less,
        ),
        (
          refl,
          record {
            is = record {
              entries = refl;
              tail = refl;
              num_entries = refl;
              chain = ch₂;
              distinct = ds.1;
            };
            each_ptr = refl;
            free_fn = refl;
            calls = refl;
            outside = λ p o. ground arith;
          },
          ground arith,
        ),
      )

  shift-any :
      (xs : List Cell)
      → IsChain h null (c ∷ xs) null
      → Distinct (c ∷ xs)
      → Returns
          (shift_data this_list (some old) n (store_of h (c ∷ xs) ep ff calls))
          (Taken c old n (c ∷ xs) xs (store_of h (c ∷ xs) ep ff calls))
  shift-any [] ch ds = (take_only old n c h ep ff calls ch).1
  shift-any (x ∷ xs) ch ds = shift_more x xs ch ds

module _ (old : Ptr) (n : Out) (s : Store) (c : Cell) where
  -- `cfulist_shift_data` on a list with a first cell returns 1 with that cell's data and size, frees its
  -- entry, leaves the list without it, and changes nothing outside the list.
  pub shift_data-first :
      (xs : List Cell)
      → IsList s (c ∷ xs)
      → Returns (shift_data this_list (some old) n s) (Taken c old n (c ∷ xs) xs s)
  shift_data-first xs is =
      at_store (shift_data this_list (some old) n) (Taken c old n (c ∷ xs) xs) s (c ∷ xs) is
        (shift-any old n c s.heap s.list.each_ptr s.list.free_fn s.calls xs is.chain is.distinct)
