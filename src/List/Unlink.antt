-- ===== src/List/Unlink.antt =====
-- `_cfulist_unlink_entry` of src/cfulist.c at any cell of a list.
use libcfu.Common.{
  ℕ, suc, ◌-◌, ◌≡◌, refl, sym, ◌∙◌, true, false, some, List, [], ◌∷◌, ◌++◌, append-nil, arith, ltb,
  length, length-append, ok,
}
use libcfu.List.Store.{Ptr, null, entry, CfuList, Heap, Store, write}
use libcfu.List.Inner.{relink_next, relink_prev, check_ends, unlink}
use libcfu.List.Chain.{
  Cell, has, Distinct, first, last, IsChain, IsChain-frame, IsChain-append, last-append, has-append,
  IsChain-relink_last, IsChain-relink_first, has-ne,
}
use libcfu.List.Steps.{load-ok, set_next-ok, set_prev-ok, ne-beq, store_of}
use libcfu.List.Apart.{Apart-flip, Distinct-Apart}

-- The heap and the tail after the neighbour behind was told of `q`.
abbrev next_heap : Heap → Ptr → List Cell → Heap
next_heap h q [] = h
next_heap h q (x ∷ bs) = write h x.addr (some (entry x.value x.data_size (first bs null) q))

abbrev next_tail : Ptr → Ptr → List Cell → Ptr
next_tail t q [] = q
next_tail t q (x ∷ bs) = t

relink_next-ok :
    (s : Store) (d : Ptr) (n : ℕ) (b q : Ptr) (bs : List Cell)
    → IsChain s.heap b bs null
    → Distinct bs
    → (relink_next (entry d n (first bs null) q) s
        ≡ ok (
          tt,
          record s {
            heap = next_heap s.heap q bs;
            list = record s.list { tail = next_tail s.list.tail q bs };
          },
        ))
      × IsChain (next_heap s.heap q bs) q bs null
      × ((p : Ptr) → has p bs ≡ false → next_heap s.heap q bs p ≡ s.heap p)
unfolding relink_next
relink_next-ok s d n b q [] ch ds = (refl, tt, λ p o. refl)
relink_next-ok s d n b q (x ∷ bs) ch ds = (
  rw (
    ne-beq x.addr ch.0,
    set_prev-ok x.addr s (entry x.value x.data_size (first bs null) b) ch.0 ch.1 q,
  ),
  IsChain-relink_first s.heap b x bs null q ch ds,
  λ p o. ground arith,
)

abbrev prev_entries : Ptr → Ptr → List Cell → Ptr
prev_entries t q [] = q
prev_entries t q (y ∷ front) = t

relink_prev-ok :
    (s : Store) (d : Ptr) (n : ℕ) (a q : Ptr) (front : List Cell)
    → IsChain s.heap null front a
    → Distinct front
    → (h : Heap) × (relink_prev (entry d n q (last null front)) s
        ≡ ok (
          tt,
          record s {
            heap = h;
            list = record s.list { entries = prev_entries s.list.entries q front };
          },
        ))
      × IsChain h null front q
      × ((p : Ptr) → has p front ≡ false → h p ≡ s.heap p)
unfolding relink_prev
relink_prev-ok s d n a q [] ch ds = (s.heap, refl, tt, λ p o. refl)
relink_prev-ok s d n a q (y ∷ front) ch ds =
    let (e, ne, m, at, to, ch') = IsChain-relink_last s.heap null y front a q ch ds in
    let p = last null (y ∷ front) in
    (
      write s.heap p (some (record e { next = q })),
      rw (ne-beq p ne, set_next-ok p s e ne at q),
      ch',
      λ r o. rw (has-ne p r (y ∷ front) m o),
    )

-- The assertions hold at the ends of a chain.
check_ends-ok :
    (s : Store) (l : CfuList) (xs : List Cell)
    → IsChain s.heap null xs null
    → Distinct xs
    → l.entries ≡ first xs null
    → l.tail ≡ last null xs
    → check_ends l s ≡ ok (tt, s)
unfolding check_ends
check_ends-ok s l [] ch ds e t = rw (e, t)
check_ends-ok s l (x ∷ xs) ch ds e t =
    let (e', ne, m, at, to, ch') = IsChain-relink_last s.heap null x xs null null ch ds in
    rw (
      e,
      t,
      ne-beq x.addr ch.0,
      load-ok x.addr s (entry x.value x.data_size (first xs null) null) ch.0 ch.1,
      ne-beq (last null (x ∷ xs)) ne,
      load-ok (last null (x ∷ xs)) s e' ne at,
      to,
    )

-- The store after `c` was taken out from between `front` and `bs`, with its entry still there.
pub record Unlinked (s : Store) (front : List Cell) (c : Cell) (bs : List Cell) (h : Heap)
    : Type 0 where
  pub chain : IsChain h null (front ++ bs) null
  pub distinct : Distinct (front ++ bs)
  pub kept : h c.addr ≡ s.heap c.addr
  pub outside : (p : Ptr) → has p (front ++ c ∷ bs) ≡ false → h p ≡ s.heap p

last_skip :
    (front : List Cell) (c : Cell) (bs : List Cell) (t : Ptr)
    → t ≡ last null (front ++ c ∷ bs)
    → next_tail t (last null front) bs ≡ last null (front ++ bs)
last_skip front c [] t e = rw (append-nil front)
last_skip front c (x ∷ bs) t e =
    e ∙ last-append null front (c ∷ x ∷ bs) ∙ sym (last-append null front (x ∷ bs))

first_skip :
    (front : List Cell) (c : Cell) (bs : List Cell) (t : Ptr)
    → t ≡ first (front ++ c ∷ bs) null
    → prev_entries t (first bs null) front ≡ first (front ++ bs) null
first_skip [] c bs t e = refl
first_skip (y ∷ front) c bs t e = e

pub unlink-Unlinked :
    (front : List Cell) (c : Cell) (bs : List Cell) (h : Heap) (ep ff : Ptr)
    (calls : List (Ptr × Ptr))
    → IsChain h null (front ++ c ∷ bs) null
    → Distinct (front ++ c ∷ bs)
    → (h' : Heap) × (unlink c.addr (store_of h (front ++ c ∷ bs) ep ff calls)
        ≡ ok (tt, store_of h' (front ++ bs) ep ff calls))
      × Unlinked (store_of h (front ++ c ∷ bs) ep ff calls) front c bs h'
unfolding unlink
unlink-Unlinked front c bs h ep ff calls ch ds =
    let s : Store = store_of h (front ++ c ∷ bs) ep ff calls in
    let apart = Distinct-Apart front c bs ds in
    let (ch_f, at_c) = (IsChain-append h null front (c ∷ bs) null).0 ch in
    let ne = at_c.0 in
    let at = at_c.1 in
    let ch_b = at_c.2 in
    let q = last null front in
    let e = entry c.value c.data_size (first bs null) q in
    let (run₁, ch₁, same₁) = relink_next-ok s c.value c.data_size c.addr q bs ch_b apart.behind in
    let h₁ = next_heap h q bs in
    let s₁ : Store = record s {
      heap = h₁;
      list = record s.list { tail = next_tail s.list.tail q bs };
    } in
    let at₁ = same₁ c.addr apart.out_back ∙ at in
    let ch_f₁ = IsChain-frame h h₁ null front c.addr ch_f (λ p m. same₁ p (Apart-flip apart p m)) in
    let (h₂, run₂, ch₂, same₂) =
      relink_prev-ok s₁ c.value c.data_size c.addr (first bs null) front ch_f₁ apart.ahead in
    let ch_b₂ = IsChain-frame h₁ h₂ q bs null ch₁ (λ p m. same₂ p (apart.disjoint p m)) in
    let joined = (IsChain-append h₂ null front bs null).1 (ch₂, ch_b₂) in
    let s₂ : Store = record s₁ {
      heap = h₂;
      list = record s₁.list { entries = prev_entries s.list.entries (first bs null) front };
    } in
    let count : length (front ++ c ∷ bs) ≡ suc (length (front ++ bs)) =
      omega (arith, length-append front (c ∷ bs), length-append front bs) in
    let positive : ltb 0 (length (front ++ c ∷ bs)) ≡ true = rw count (ground arith) in
    let less : length (front ++ c ∷ bs) - 1 ≡ length (front ++ bs) = omega (arith, count) in
    let first_ok = first_skip front c bs s.list.entries refl in
    let last_ok = last_skip front c bs s.list.tail refl in
    (
      h₂,
      rw (load-ok c.addr s e ne at, run₁, load-ok c.addr s₁ e ne at₁, run₂, positive)
          (check_ends-ok
              (record s₂ { list = record s₂.list { num_entries = length (front ++ c ∷ bs) - 1 } })
              s₂.list (front ++ bs) joined apart.rest first_ok last_ok
            ∙ (λ i. ok (
              tt,
              record s₂ {
                list = record s₂.list {
                  entries = first_ok i;
                  tail = last_ok i;
                  num_entries = less i;
                };
              },
            ))),
      record {
        chain = joined;
        distinct = apart.rest;
        kept = same₂ c.addr apart.out_front ∙ same₁ c.addr apart.out_back;
        outside = λ p o.
            let both = has-append p front (c ∷ bs) in
            same₂ p (ground (arith, both)) ∙ same₁ p (ground (arith, both));
      },
    )
