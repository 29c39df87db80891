-- ===== src/List/Steps.antt =====
-- Reads and writes of entries that are there, and the store of a list.
use libcfu.Common.{
  subst, ◌≡◌, refl, sym, ◌≢◌, false, none, some, List, [], ◌∷◌, ◌++◌, arith, ◌==◌, length, ok,
  Returns,
}
use libcfu.List.Store.{Ptr, null, Entry, Heap, Store, Cmd, write, load, set_next, set_prev, free}
use libcfu.List.Chain.{has-append, Cell, has, Distinct, first, last, IsChain, IsList}

pub ne-beq : (p : Ptr) → p ≢ null → (p == null) ≡ false
ne-beq p ne = ground arith

module _ (p : Ptr) (s : Store) (e : Entry) (ne : p ≢ null) (holds : s.heap p ≡ some e) where
  pub load-ok : load p s ≡ ok (e, s)
  unfolding load
  load-ok = rw (ne-beq p ne, holds)

  pub set_next-ok :
      (q : Ptr)
      → set_next p q s ≡ ok (tt, record s { heap = write s.heap p (some (record e { next = q })) })
  unfolding set_next
  set_next-ok q = rw load-ok

  pub set_prev-ok :
      (q : Ptr)
      → set_prev p q s ≡ ok (tt, record s { heap = write s.heap p (some (record e { prev = q })) })
  unfolding set_prev
  set_prev-ok q = rw load-ok

  pub free-ok : free p s ≡ ok (tt, record s { heap = write s.heap p none })
  unfolding free
  free-ok = rw load-ok

-- The store whose list is the cells, by its parts.
abbrev pub store_of : Heap → List Cell → (each_ptr free_fn : Ptr) → List (Ptr × Ptr) → Store
store_of h xs each_ptr free_fn calls = record {
  heap = h;
  list = record {
    entries = first xs null;
    tail = last null xs;
    num_entries = length xs;
    each_ptr = each_ptr;
    free_fn = free_fn;
  };
  calls = calls;
}

pub store-eq :
    (s : Store) (xs : List Cell)
    → IsList s xs
    → s ≡ store_of s.heap xs s.list.each_ptr s.list.free_fn s.calls
store-eq s xs is = λ i. record {
  heap = s.heap;
  list = record {
    entries = is.entries i;
    tail = is.tail i;
    num_entries = is.num_entries i;
    each_ptr = s.list.each_ptr;
    free_fn = s.list.free_fn;
  };
  calls = s.calls;
}

-- A property of a run from the store of a list may be proved with the list's parts put in.
pub at_store :
    {A : Type 0} (m : Cmd A) (P : Store → A × Store → Type 0) (s : Store) (xs : List Cell)
    → IsList s xs
    → (let t = store_of s.heap xs s.list.each_ptr s.list.free_fn s.calls in Returns (m t) (P t))
    → Returns (m s) (P s)
at_store m P s xs is h = subst (λ t. Returns (m t) (P t)) (sym (store-eq s xs is)) h

-- The list after a step: its cells, and what is left as it was, outside of what was touched.
pub record Became (s : Store) (touched xs' : List Cell) (s' : Store) : Type 0 where
  pub is : IsList s' xs'
  pub each_ptr : s'.list.each_ptr ≡ s.list.each_ptr
  pub free_fn : s'.list.free_fn ≡ s.list.free_fn
  pub calls : s'.calls ≡ s.calls
  pub outside : (p : Ptr) → has p touched ≡ false → s'.heap p ≡ s.heap p

pub unused-has :
    (h : Heap) (b : Ptr) (xs : List Cell) (a p : Ptr)
    → IsChain h b xs a
    → h p ≡ none
    → has p xs ≡ false
unused-has h b [] a p ch u = refl
unused-has h b (c ∷ xs) a p ch u = ground (arith, unused-has h c.addr xs a p)

pub Distinct-append :
    (xs : List Cell) (c : Cell) → Distinct xs → has c.addr xs ≡ false → Distinct (xs ++ c ∷ [])
Distinct-append [] c d n = (refl, tt)
Distinct-append (x ∷ xs) c d n =
    (ground (arith, has-append x.addr xs (c ∷ [])), Distinct-append xs c d.1 (ground arith))
