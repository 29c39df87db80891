-- ===== src/List/Chain.antt =====
-- Chains of entries in memory, linked both ways, and what single writes do to them.
use libcfu.Common.{
  ℕ, ◌≡◌, refl, sym, ap, ◌∙◌, ◌≢◌, ◌↔◌, inl, inr, Bool, true, false, ◌||◌, Option, some, List, [],
  ◌∷◌, ◌++◌, arith, ◌==◌, Bool-cases, length,
}
use libcfu.List.Store.{Ptr, null, Entry, entry, Heap, Store, write}

-- What a list stands for: address, data and size of each entry, in order.
pub record Cell : Type 0 where
  pub addr : Ptr
  pub value : Ptr
  pub data_size : ℕ

abbrev pub has : Ptr → List Cell → Bool
has p [] = false
has p (c ∷ xs) = (p == c.addr) || has p xs

abbrev pub Distinct : List Cell → Type 0
Distinct [] = Unit
Distinct (c ∷ xs) = (has c.addr xs ≡ false) × Distinct xs

-- The address of the first and of the last cell, if there is one.
abbrev pub first : List Cell → Ptr → Ptr
first [] after = after
first (c ∷ xs) after = c.addr

abbrev pub last : Ptr → List Cell → Ptr
last before [] = before
last before (c ∷ xs) = last c.addr xs

-- In `h` the cells are linked from the entry at `before` to the one at `after`.
abbrev pub IsChain : Heap → Ptr → List Cell → Ptr → Type 0
IsChain h before [] after = Unit
IsChain h before (c ∷ xs) after =
    (c.addr ≢ null)
    × (h c.addr ≡ some (entry c.value c.data_size (first xs after) before))
    × IsChain h c.addr xs after

-- The list of a store is the cells.
pub record IsList (s : Store) (xs : List Cell) : Type 0 where
  pub entries : s.list.entries ≡ first xs null
  pub tail : s.list.tail ≡ last null xs
  pub num_entries : s.list.num_entries ≡ length xs
  pub chain : IsChain s.heap null xs null
  pub distinct : Distinct xs

pub IsChain-frame :
    (h g : Heap) (b : Ptr) (xs : List Cell) (a : Ptr)
    → IsChain h b xs a
    → ((p : Ptr) → has p xs ≡ true → g p ≡ h p)
    → IsChain g b xs a
IsChain-frame h g b [] a ch same = tt
IsChain-frame h g b (c ∷ xs) a ch same = (
  ch.0,
  same c.addr (ground arith) ∙ ch.1,
  IsChain-frame h g c.addr xs a ch.2 (λ p m. same p (ground arith)),
)

pub IsChain-write :
    (h : Heap) (p : Ptr) (e : Option Entry) (b : Ptr) (xs : List Cell) (a : Ptr)
    → IsChain h b xs a
    → has p xs ≡ false
    → IsChain (write h p e) b xs a
IsChain-write h p e b xs a ch out = IsChain-frame h (write h p e) b xs a ch (λ q m. ground arith)

pub first-append : (xs ys : List Cell) (a : Ptr) → first (xs ++ ys) a ≡ first xs (first ys a)
first-append [] ys a = refl
first-append (c ∷ xs) ys a = refl

pub last-append : (b : Ptr) (xs ys : List Cell) → last b (xs ++ ys) ≡ last (last b xs) ys
last-append b [] ys = refl
last-append b (c ∷ xs) ys = last-append c.addr xs ys

pub IsChain-append :
    (h : Heap) (b : Ptr) (xs ys : List Cell) (a : Ptr)
    → IsChain h b (xs ++ ys) a ↔ (IsChain h b xs (first ys a) × IsChain h (last b xs) ys a)
IsChain-append h b [] ys a = (λ ch. (tt, ch), λ p. p.1)
IsChain-append h b (c ∷ xs) ys a =
    let rest = IsChain-append h c.addr xs ys a in
    (
      λ ch.
          let r = rest.0 ch.2 in
          (
            (
              ch.0,
              ch.1 ∙ ap (λ t. some (entry c.value c.data_size t b)) (first-append xs ys a),
              r.0,
            ),
            r.1,
          ),
      λ p. (
        p.0.0,
        p.0.1 ∙ ap (λ t. some (entry c.value c.data_size t b)) (sym (first-append xs ys a)),
        rest.1 (p.0.2, p.1),
      ),
    )

pub has-append : (p : Ptr) (xs ys : List Cell) → has p (xs ++ ys) ≡ (has p xs || has p ys)
has-append p [] ys = refl
has-append p (c ∷ xs) ys = ground (arith, has-append p xs ys)

pub has-ne : (p q : Ptr) (xs : List Cell) → has p xs ≡ true → has q xs ≡ false → (q == p) ≡ false
has-ne p q xs m n = elim (Bool-cases (q == p)) [
  | inl e ↦ (let e' : q ≡ p = ground arith in cc (rw e' at n))
  | inr e ↦ e
]

-- The last cell of a chain with one, and the chain after its `next` is written.
pub IsChain-relink_last :
    (h : Heap) (b : Ptr) (c : Cell) (xs : List Cell) (a q : Ptr)
    → IsChain h b (c ∷ xs) a
    → Distinct (c ∷ xs)
    → (e : Entry) × (last b (c ∷ xs) ≢ null)
      × (has (last b (c ∷ xs)) (c ∷ xs) ≡ true)
      × (h (last b (c ∷ xs)) ≡ some e)
      × (e.next ≡ a)
      × IsChain (write h (last b (c ∷ xs)) (some (record e { next = q }))) b (c ∷ xs) q
IsChain-relink_last h b c [] a q ch d =
    (entry c.value c.data_size a b, ch.0, ground arith, ch.1, refl, (ch.0, ground arith, tt))
IsChain-relink_last h b c (x ∷ xs) a q ch d =
    let (e, ne, m, at, to, rest) = IsChain-relink_last h c.addr x xs a q ch.2 d.1 in
    (e, ne, ground arith, at, to, (ch.0, rw (has-ne _ c.addr (x ∷ xs) m d.0) ch.1, rest))

-- The first cell of a chain with one, after its `prev` is written.
pub IsChain-relink_first :
    (h : Heap) (b : Ptr) (c : Cell) (xs : List Cell) (a b' : Ptr)
    → IsChain h b (c ∷ xs) a
    → Distinct (c ∷ xs)
    → IsChain (write h c.addr (some (entry c.value c.data_size (first xs a) b'))) b' (c ∷ xs) a
IsChain-relink_first h b c xs a b' ch d =
    (ch.0, ground arith, IsChain-write h c.addr _ c.addr xs a ch.2 d.0)
