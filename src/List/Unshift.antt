-- ===== src/List/Unshift.antt =====
-- `cfulist_unshift_data` of src/cfulist.c on a list in memory.
use libcfu.Common.{
  ℕ, ◌+◌, ◌≡◌, refl, ◌≢◌, true, false, none, some, List, [], ◌∷◌, arith, ◌==◌, length, Returns,
}
use libcfu.List.Store.{Ptr, null, entry, CfuList, Heap, Store, this_list, write}
use libcfu.List.Ends.{unshift_data}
use libcfu.List.Chain.{
  Cell, Distinct, first, last, IsChain, IsList, IsChain-write, IsChain-relink_first,
}
use libcfu.List.Steps.{set_next-ok, set_prev-ok, store_of, at_store, unused-has}
use libcfu.List.Push.{IsSized, kept_size, size_of-kept_size, new_cell, Pushed, push-nil}

module _ (strlen : Ptr → ℕ) (fresh d : Ptr) (n : ℕ) where
  unshift-cons :
      (h : Heap) (c : Cell) (xs : List Cell) (ep ff : Ptr) (calls : List (Ptr × Ptr))
      → IsChain h null (c ∷ xs) null
      → Distinct (c ∷ xs)
      → IsSized d n
      → fresh ≢ null
      → h fresh ≡ none
      → Returns (unshift_data strlen this_list fresh d n (store_of h (c ∷ xs) ep ff calls)) (
          Pushed strlen fresh d n
            (c ∷ xs)
            (new_cell strlen fresh d n ∷ c ∷ xs)
            (store_of h (c ∷ xs) ep ff calls))
  unfolding unshift_data
  unshift-cons h c xs ep ff calls ch ds sized ne unused =
      let out = unused-has h null (c ∷ xs) null fresh ch unused in
      let k = kept_size strlen d n in
      let sizes = size_of-kept_size strlen d n sized in
      let h₁ = write h fresh (some (entry d k null null)) in
      let s₁ : Store = record (store_of h (c ∷ xs) ep ff calls) { heap = h₁ } in
      let at_fresh : h₁ fresh ≡ some (entry d k null null) = ground arith in
      let h₂ = write h₁ fresh (some (entry d k c.addr null)) in
      let s₂ : Store = record s₁ { heap = h₂ } in
      let ch₂ =
        IsChain-write h₁ fresh (some (entry d k c.addr null)) null (c ∷ xs) null
          (IsChain-write h fresh (some (entry d k null null)) null (c ∷ xs) null ch out) out in
      let ch₃ = IsChain-relink_first h₂ null c xs null fresh ch₂ ds in
      let h₃ = write h₂ c.addr (some (entry c.value c.data_size (first xs null) fresh)) in
      let got : (fresh == null) ≡ false = ground arith in
      let got_c : (c.addr == null) ≡ false = ground arith in
      let at_new : h₃ fresh ≡ some (entry d k c.addr null) = ground arith in
      let l' : CfuList = record {
        entries = fresh;
        tail = last null (c ∷ xs);
        num_entries = length (c ∷ xs) + 1;
        each_ptr = ep;
        free_fn = ff;
      } in
      let s' : Store = record { heap = h₃; list = l'; calls = calls } in
      (
        (true, s'),
        rw (
          got,
          sizes,
          got_c,
          set_next-ok fresh s₁ (entry d k null null) ne at_fresh c.addr,
          set_prev-ok c.addr s₂ (entry c.value c.data_size (first xs null) null) ch.0 ch₂.1 fresh,
        ),
        (
          refl,
          record {
            is = record {
              entries = refl;
              tail = refl;
              num_entries = omega arith;
              chain = (ne, at_new, ch₃);
              distinct = (out, ds);
            };
            each_ptr = refl;
            free_fn = refl;
            calls = refl;
            outside = λ p o. ground arith;
          },
        ),
      )

  -- Both functions do the same to an empty list.
  unshift-any :
      (h : Heap) (xs : List Cell) (ep ff : Ptr) (calls : List (Ptr × Ptr))
      → IsChain h null xs null
      → Distinct xs
      → IsSized d n
      → fresh ≢ null
      → h fresh ≡ none
      → Returns
          (unshift_data strlen this_list fresh d n (store_of h xs ep ff calls))
          (Pushed strlen fresh d n xs (new_cell strlen fresh d n ∷ xs) (store_of h xs ep ff calls))
  unshift-any h [] ep ff calls ch ds sized ne unused =
      let both = push-nil strlen fresh d n h ep ff calls sized ne in rw both.1 both.0
  unshift-any h (c ∷ xs) ep ff calls ch ds sized ne unused =
      unshift-cons h c xs ep ff calls ch ds sized ne unused

  -- Given an unused address, and data that is not null where its size is unknown, `cfulist_unshift_data` on a list puts a new entry at its front, with the
  -- length of the string for an unknown size, and returns 1; it writes only to the new entry and to
  -- entries of the list, and leaves the cursor, the free function and the calls alone.
  pub unshift_data-cons :
      (s : Store) (xs : List Cell)
      → IsList s xs
      → IsSized d n
      → fresh ≢ null
      → s.heap fresh ≡ none
      → Returns
          (unshift_data strlen this_list fresh d n s)
          (Pushed strlen fresh d n xs (new_cell strlen fresh d n ∷ xs) s)
  unshift_data-cons s xs is sized ne unused =
      at_store (unshift_data strlen this_list fresh d n)
        (Pushed strlen fresh d n xs (new_cell strlen fresh d n ∷ xs)) s xs is
        (unshift-any s.heap xs s.list.each_ptr s.list.free_fn s.calls is.chain is.distinct sized ne
          unused)
