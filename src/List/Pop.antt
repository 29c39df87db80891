-- ===== src/List/Pop.antt =====
-- `cfulist_pop_data` of src/cfulist.c on a list in memory.
use libcfu.Common.{
  suc, ◌-◌, ◌≡◌, refl, true, false, none, some, List, [], ◌∷◌, ◌++◌, arith, ltb, ◌==◌, length,
  length-append, Returns, set_out,
}
use libcfu.List.Store.{Ptr, null, entry, Heap, Store, this_list, write}
use libcfu.List.Ends.{Out, Result, result, pop_tail, pop_data, shift_head, shift_data}
use libcfu.List.Chain.{
  Cell, has, Distinct, last, IsChain, IsList, IsChain-write, IsChain-append, last-append,
  has-append, IsChain-relink_last, has-ne,
}
use libcfu.List.Steps.{load-ok, set_next-ok, free-ok, ne-beq, store_of, at_store, Became}

Distinct-split :
    (xs : List Cell) (c : Cell) → Distinct (xs ++ c ∷ []) → Distinct xs × (has c.addr xs ≡ false)
Distinct-split [] c d = (tt, refl)
Distinct-split (x ∷ xs) c d =
    let (ds, out) = Distinct-split xs c d.1 in
    (
      (ground (arith, has-append x.addr xs (c ∷ [])), ds),
      ground (arith, has-append x.addr xs (c ∷ [])),
    )

has-split :
    (p : Ptr) (xs : List Cell) (c : Cell)
    → has p (xs ++ c ∷ []) ≡ false
    → (has p xs ≡ false) × ((p == c.addr) ≡ false)
has-split p xs c o = ground (arith, has-append p xs (c ∷ []))

-- The entry of `c` was taken out, its data handed over and its memory freed.
abbrev pub Taken : Cell → Ptr → Out → (touched xs' : List Cell) → Store → Result × Store → Type 0
Taken c old n touched xs' s r =
    (r.0 ≡ result true (some c.value) (set_out n c.data_size))
    × Became s touched xs' r.1
    × (r.1.heap c.addr ≡ none)

module _ (old : Ptr) (n : Out) (c : Cell) (h : Heap) (ep ff : Ptr) (calls : List (Ptr × Ptr)) where
  pub take_only :
      IsChain h null (c ∷ []) null
      → Returns
          (pop_data this_list (some old) n (store_of h (c ∷ []) ep ff calls))
          (Taken c old n (c ∷ []) [] (store_of h (c ∷ []) ep ff calls))
        × Returns
            (shift_data this_list (some old) n (store_of h (c ∷ []) ep ff calls))
            (Taken c old n (c ∷ []) [] (store_of h (c ∷ []) ep ff calls))
  unfolding pop_data pop_tail shift_data shift_head
  take_only ch =
      let s : Store = store_of h (c ∷ []) ep ff calls in
      let e = entry c.value c.data_size null null in
      let got : (c.addr == null) ≡ false = ground arith in
      let s' : Store = store_of (write h c.addr none) [] ep ff calls in
      let out : Taken c old n (c ∷ []) [] s
          (result true (some c.value) (set_out n c.data_size), s') =
        (
          refl,
          record {
            is = record {
              entries = refl;
              tail = refl;
              num_entries = refl;
              chain = tt;
              distinct = tt;
            };
            each_ptr = refl;
            free_fn = refl;
            calls = refl;
            outside = λ p o. ground arith;
          },
          ground arith,
        ) in
      (
        (
          _,
          rw (
            got,
            load-ok c.addr s e ch.0 ch.1,
            load-ok c.addr s e ch.0 ch.1,
            free-ok c.addr s e ch.0 ch.1,
          ),
          out,
        ),
        (_, rw (got, load-ok c.addr s e ch.0 ch.1, free-ok c.addr s e ch.0 ch.1), out),
      )

  pop_more :
      (y : Cell) (ys : List Cell)
      → IsChain h null ((y ∷ ys) ++ c ∷ []) null
      → Distinct ((y ∷ ys) ++ c ∷ [])
      → Returns (pop_data this_list (some old) n (store_of h ((y ∷ ys) ++ c ∷ []) ep ff calls)) (
          Taken c old n ((y ∷ ys) ++ c ∷ []) (y ∷ ys) (store_of h ((y ∷ ys) ++ c ∷ []) ep ff calls))
  unfolding pop_data pop_tail
  pop_more y ys ch ds =
      let xs = (y ∷ ys) ++ c ∷ [] in
      let s : Store = store_of h xs ep ff calls in
      let (front, back) = (IsChain-append h null (y ∷ ys) (c ∷ []) null).0 ch in
      let (ds', out) = Distinct-split (y ∷ ys) c ds in
      let p = last null (y ∷ ys) in
      let e = entry c.value c.data_size null p in
      let at_end : last null xs ≡ c.addr = last-append null (y ∷ ys) (c ∷ []) in
      let got : (c.addr == null) ≡ false = ground arith in
      let (ep₀, ne_p, m, at_p, to, ch₁) = IsChain-relink_last h null y ys c.addr null front ds' in
      let got_p = ne-beq p ne_p in
      let apart = has-ne p c.addr (y ∷ ys) m out in
      let h₁ = write h p (some (record ep₀ { next = null })) in
      let s₀ : Store = record s { list = record s.list { tail = c.addr } } in
      let s₁ : Store = record s₀ { heap = h₁ } in
      let at_c : h₁ c.addr ≡ some e = rw apart back.1 in
      let ch₂ = IsChain-write h₁ c.addr none null (y ∷ ys) null ch₁ out in
      let s' : Store = store_of (write h₁ c.addr none) (y ∷ ys) ep ff calls in
      let more_left : ltb 1 (suc (length (ys ++ c ∷ []))) ≡ true =
        ground (arith, length-append ys (c ∷ [])) in
      let one_less : suc (length (ys ++ c ∷ [])) - 1 ≡ suc (length ys) =
        omega (arith, length-append ys (c ∷ [])) in
      (
        (result true (some c.value) (set_out n c.data_size), s'),
        rw (
          at_end,
          got,
          load-ok c.addr s₀ e back.0 back.1,
          got_p,
          more_left,
          set_next-ok p s₀ ep₀ ne_p at_p null,
          load-ok c.addr s₁ e back.0 at_c,
          free-ok c.addr s₁ e back.0 at_c,
          one_less,
        ),
        (
          refl,
          record {
            is = record {
              entries = refl;
              tail = refl;
              num_entries = refl;
              chain = ch₂;
              distinct = ds';
            };
            each_ptr = refl;
            free_fn = refl;
            calls = refl;
            outside =
                λ q o. let (o₁, o₂) = has-split q (y ∷ ys) c o in rw (o₂, has-ne p q (y ∷ ys) m o₁);
          },
          ground arith,
        ),
      )

  pop-any :
      (ys : List Cell)
      → IsChain h null (ys ++ c ∷ []) null
      → Distinct (ys ++ c ∷ [])
      → Returns
          (pop_data this_list (some old) n (store_of h (ys ++ c ∷ []) ep ff calls))
          (Taken c old n (ys ++ c ∷ []) ys (store_of h (ys ++ c ∷ []) ep ff calls))
  pop-any [] ch ds = (take_only ch).0
  pop-any (y ∷ ys) ch ds = pop_more y ys ch ds

module _ (old : Ptr) (n : Out) (s : Store) (c : Cell) where
  -- `cfulist_pop_data` on a list with a last cell returns 1 with that cell's data and size, frees its
  -- entry, leaves the list without it, and changes nothing outside the list.
  pub pop_data-last :
      (ys : List Cell)
      → IsList s (ys ++ c ∷ [])
      → Returns (pop_data this_list (some old) n s) (Taken c old n (ys ++ c ∷ []) ys s)
  pop_data-last ys is =
      at_store (pop_data this_list (some old) n) (Taken c old n (ys ++ c ∷ []) ys) s (ys ++ c ∷ [])
        is (pop-any old n c s.heap s.list.each_ptr s.list.free_fn s.calls ys is.chain is.distinct)
