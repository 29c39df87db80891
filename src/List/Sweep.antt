-- ===== src/List/Sweep.antt =====
-- `cfulist_foreach_remove` of src/cfulist.c on a list.
use libcfu.Common.{
  ℕ, zero, suc, ◌+◌, ◌<◌, ◌≡◌, refl, sym, subst, inl, inr, true, Option, none, some, List, [], ◌∷◌,
  ◌++◌, append_assoc, arith, if◌then◌else◌, Bool-cases, length, Run, ok, fault,
}
use libcfu.List.Store.{Ptr, null, entry, Heap, Store, this_list, load}
use libcfu.List.Inner.{Callback, foreach_remove_loop, foreach_remove}
use libcfu.List.Chain.{Cell, Distinct, first, last, IsChain, IsList, IsChain-append}
use libcfu.List.Steps.{load-ok, ne-beq, store_of, store-eq}
use libcfu.List.Remove.{remove_entry-Gone}

module _ {S : Type 0} (fn : Callback S) where
  -- The state of the callback behind all cells, if it returned 0 on each; `none` when it did not.
  unfoldable pub kept_all : S → List Cell → Option S
  kept_all st [] = some st
  kept_all st (c ∷ xs) =
      let rest = kept_all (fn st c.value c.data_size).0 xs in
      if (fn st c.value c.data_size).1 then none else rest

  abbrev pub outcome : {A : Type 0} → Store → Option A → Run ((A × ℕ) × Store)
  outcome s none = fault
  outcome s (some st) = ok ((st, 0), s)

  loop-removed :
      (front : List Cell) (c : Cell) (bs : List Cell) (k : ℕ) (st : S) (h : Heap) (ep lf ff : Ptr)
      (calls : List (Ptr × Ptr))
      → IsChain h null (front ++ c ∷ bs) null
      → Distinct (front ++ c ∷ bs)
      → (fn st c.value c.data_size).1 ≡ true
      → foreach_remove_loop fn (suc k) ff c.addr st 0 (store_of h (front ++ c ∷ bs) ep lf calls)
        ≡ fault
  unfolding foreach_remove_loop load
  loop-removed front c bs k st h ep lf ff calls ch ds hit =
      let (ne, at, ch_b) = ((IsChain-append h null front (c ∷ bs) null).0 ch).1 in
      let (r, run, (res, gone)) = remove_entry-Gone front c bs h ep lf ff calls none none ch ds in
      rw (ne-beq c.addr ne, ne-beq c.addr ne, at, hit, run, res, gone.freed, ne-beq c.addr ne)

  loop-outcome :
      (front bs : List Cell) (k : ℕ) (st : S) (h : Heap) (ep lf ff : Ptr) (calls : List (Ptr × Ptr))
      → IsChain h null (front ++ bs) null
      → Distinct (front ++ bs)
      → length bs < k
      → foreach_remove_loop fn k ff (first bs null) st 0 (store_of h (front ++ bs) ep lf calls)
        ≡ outcome (store_of h (front ++ bs) ep lf calls) (kept_all st bs)
  unfolding foreach_remove_loop kept_all
  loop-outcome front bs zero st h ep lf ff calls ch ds l = absurd (omega arith)
  loop-outcome front [] (suc k) st h ep lf ff calls ch ds l = refl
  loop-outcome front (c ∷ bs) (suc k) st h ep lf ff calls ch ds l =
      let (ne, at, ch_b) = ((IsChain-append h null front (c ∷ bs) null).0 ch).1 in
      let s : Store = store_of h (front ++ c ∷ bs) ep lf calls in
      let e = entry c.value c.data_size (first bs null) (last null front) in
      let st' = (fn st c.value c.data_size).0 in
      let assoc = append_assoc front (c ∷ []) bs in
      let rest =
        loop-outcome (front ++ c ∷ []) bs k st' h ep lf ff calls
          (subst (λ xs. IsChain h null xs null) (sym assoc) ch) (subst Distinct (sym assoc) ds)
          (omega arith) in
      let rest' =
        subst
          (λ xs.
            foreach_remove_loop fn k ff (first bs null) st' 0 (store_of h xs ep lf calls)
            ≡ outcome (store_of h xs ep lf calls) (kept_all st' bs))
          assoc rest in
      elim (Bool-cases (fn st c.value c.data_size).1) [
        | inl t ↦ rw t (loop-removed front c bs k st h ep lf ff calls ch ds t)
        | inr f ↦
            rw (f, ne-beq c.addr ne, load-ok c.addr s e ne at, f, load-ok c.addr s e ne at) rest'
      ]

  -- `cfulist_foreach_remove` on a list: when the callback returns 0 on every cell, no cell is removed
  -- and nothing changes; when it returns other than zero on one, the run reads the entry after it has
  -- freed it.
  pub foreach_remove-faults :
      (s : Store) (xs : List Cell) (st : S) (ff : Ptr)
      → IsList s xs
      → foreach_remove fn this_list ff st s ≡ outcome s (kept_all st xs)
  unfolding foreach_remove
  foreach_remove-faults s xs st ff is =
      subst (λ t. foreach_remove fn this_list ff st t ≡ outcome t (kept_all st xs))
        (sym (store-eq s xs is))
        (loop-outcome [] xs (length xs + 1) st s.heap s.list.each_ptr s.list.free_fn ff s.calls
          is.chain is.distinct (omega arith))
