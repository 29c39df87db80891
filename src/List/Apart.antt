-- ===== src/List/Apart.antt =====
-- Cells with distinct addresses, split at one of them: the split that the unlinking in src/cfulist.c makes.
use libcfu.Common.{◌≡◌, refl, inl, inr, true, false, List, [], ◌∷◌, ◌++◌, arith, Bool-cases}
use libcfu.List.Store.{Ptr}
use libcfu.List.Chain.{Cell, has, Distinct, has-append, has-ne}

-- Distinct addresses, split at a cell.
pub record Apart (front : List Cell) (c : Cell) (bs : List Cell) : Type 0 where
  pub ahead : Distinct front
  pub behind : Distinct bs
  pub out_front : has c.addr front ≡ false
  pub out_back : has c.addr bs ≡ false
  pub disjoint : (p : Ptr) → has p bs ≡ true → has p front ≡ false
  pub rest : Distinct (front ++ bs)

pub Distinct-Apart :
    (front : List Cell) (c : Cell) (bs : List Cell) → Distinct (front ++ c ∷ bs) → Apart front c bs
Distinct-Apart [] c bs d = record {
  ahead = tt;
  behind = d.1;
  out_front = refl;
  out_back = d.0;
  disjoint = λ p m. refl;
  rest = d.1;
}
Distinct-Apart (a ∷ front) c bs d =
    let r = Distinct-Apart front c bs d.1 in
    let new = has-append a.addr front (c ∷ bs) in
    record {
      ahead = (ground (arith, new), r.ahead);
      behind = r.behind;
      out_front = ground (arith, new, r.out_front);
      out_back = r.out_back;
      disjoint = λ p m. ground (arith, new, r.disjoint p m, has-ne p a.addr bs m);
      rest = (ground (arith, new, has-append a.addr front bs), r.rest);
    }

pub Apart-flip :
    {front : List Cell} {c : Cell} {bs : List Cell}
    → Apart front c bs
    → (p : Ptr) → has p front ≡ true
    → has p bs ≡ false
Apart-flip {front} {c} {bs} r p m = elim (Bool-cases (has p bs)) [
  | inl i ↦ cc (r.disjoint p i)
  | inr o ↦ o
]
