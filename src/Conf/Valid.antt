-- ===== src/Conf/Valid.antt =====
-- The state of the parser of src/cfuconf.c stays well-formed: its pointers are to containers that were
-- made, and a container has the type that it is found under.
use libcfu.Common.{
  ℕ, zero, suc, ◌+◌, ◌-◌, ◌≤◌, ◌<◌, ◌≡◌, refl, sym, ◌∙◌, subst, inl, inr, true, false, Option, some,
  List, [], ◌∷◌, ◌++◌, arith, ltb, ◌==◌, if◌then◌else◌, Bool-cases, length, get_or, set,
  length-append, length-set, get_or-set,
}
use libcfu.Conf.Lexer.{Bytes}
use libcfu.Hash.Value.{Key}
use libcfu.Conf.Dict.{same_name, Dict, lookup}
use libcfu.Conf.Parse.{Conf, Parser, new_conf, blank}

abbrev pub AllBelow : ℕ → List ℕ → Type 0
AllBelow n [] = Unit
AllBelow n (i ∷ stack) = (i < n) × AllBelow n stack

-- The container `j` has the type `k`, in some spelling.
abbrev pub HasType : List Conf → Key → ℕ → Type 0
HasType confs k j =
    (t : Bytes) × ((get_or confs j blank).container_type ≡ some t) × (same_name k (some t) ≡ true)

abbrev pub IsTyped : List Conf → Type 0
IsTyped confs =
    (i : ℕ) (k n : Key) (h : Dict ℕ) (j : ℕ)
    → lookup (get_or confs i blank).containers k ≡ some h
    → lookup h n ≡ some j
    → (j < length confs) × HasType confs k j

pub record IsValid (p : Parser) : Type 0 where
  pub cur : p.cur_conf < length p.confs
  pub stack : AllBelow (length p.confs) p.stack
  pub typed : IsTyped p.confs

-- A later state of the containers: more of them, the old ones of the types they had.
pub record Later (confs confs' : List Conf) : Type 0 where
  pub more : length confs ≤ length confs'
  pub types :
      (i : ℕ)
      → i < length confs
      → (get_or confs' i blank).container_type ≡ (get_or confs i blank).container_type

pub Later-refl : (confs : List Conf) → Later confs confs
Later-refl confs = record { more = omega arith; types = λ i l. refl }

pub Later-trans : (a b c : List Conf) → Later a b → Later b c → Later a c
Later-trans a b c f g = record {
  more = omega (arith, f.more, g.more);
  types = λ i l. g.types i (omega (arith, f.more)) ∙ f.types i l;
}

pub AllBelow-more : (m n : ℕ) (stack : List ℕ) → m ≤ n → AllBelow m stack → AllBelow n stack
AllBelow-more m n [] l all = tt
AllBelow-more m n (i ∷ stack) l all = (omega (arith, all.0), AllBelow-more m n stack l all.1)

get_or-append :
    {A : Type 0} (xs ys : List A) (i : ℕ) (d : A)
    → get_or (xs ++ ys) i d
      ≡ (if ltb i (length xs) then get_or xs i d else get_or ys (i - length xs) d)
get_or-append [] ys i d =
    let e : i - 0 ≡ i = omega arith in let n : ltb i 0 ≡ false = ground arith in rw (n, e)
get_or-append (x ∷ xs) ys zero d = let n : ltb 0 (suc (length xs)) ≡ true = ground arith in rw n
get_or-append (x ∷ xs) ys (suc i) d =
    let n : ltb (suc i) (suc (length xs)) ≡ ltb i (length xs) = ground arith in
    let e : suc i - suc (length xs) ≡ i - length xs = omega arith in
    rw (n, e) (get_or-append xs ys i d)

-- One container replaced, and new ones behind.
abbrev pub replaced : List Conf → ℕ → Conf → List Conf → List Conf
replaced confs i c new = set confs i c ++ new

module _ (confs : List Conf) (i : ℕ) (c : Conf) (new : List Conf) (here : i < length confs) where
  pub replaced-at :
      (j : ℕ)
      → get_or (replaced confs i c new) j blank ≡ (
          if ltb j (length confs)
          then (if i == j then c else get_or confs j blank)
          else get_or new (j - length confs) blank)
  replaced-at j =
      get_or-append (set confs i c) new j blank
      ∙ rw (length-set confs i c, get_or-set confs i j c blank here)

  pub length-replaced : length (replaced confs i c new) ≡ length confs + length new
  length-replaced = omega (arith, length-append (set confs i c) new, length-set confs i c)

  pub replaced-Later :
      c.container_type ≡ (get_or confs i blank).container_type
      → Later confs (replaced confs i c new)
  replaced-Later same = record {
    more = omega (arith, length-replaced);
    types = λ j l.
        let old : ltb j (length confs) ≡ true = ground arith in
        rw (replaced-at j, old)
          (elim (Bool-cases (i == j)) [
            | inl e ↦
                let e' : i ≡ j = ground arith in
                rw e
                  (subst (λ j'. c.container_type ≡ (get_or confs j' blank).container_type) e' same)
            | inr n ↦ rw n
          ]);
  }

pub HasType-Later :
    (confs confs' : List Conf) (k : Key) (j : ℕ)
    → Later confs confs'
    → j < length confs
    → HasType confs k j
    → HasType confs' k j
HasType-Later confs confs' k j later l (t, e, same) = (t, later.types j l ∙ e, same)

-- What is found in a container has its type.
abbrev pub TypedAt : List Conf → Conf → Type 0
TypedAt confs c =
    (k n : Key) (h : Dict ℕ) (j : ℕ)
    → lookup c.containers k ≡ some h
    → lookup h n ≡ some j
    → (j < length confs) × HasType confs k j

pub blank-TypedAt :
    (confs : List Conf) (type name : Option Bytes) → TypedAt confs (new_conf type name)
unfolding lookup
blank-TypedAt confs type name k n h j e e' = absurd cc

pub TypedAt-Later :
    (confs confs' : List Conf) (c : Conf) → Later confs confs' → TypedAt confs c → TypedAt confs' c
TypedAt-Later confs confs' c later typed k n h j e e' =
    let (l, has) = typed k n h j e e' in
    (omega (arith, later.more), HasType-Later confs confs' k j later l has)

pub replaced-IsTyped :
    (confs : List Conf) (i : ℕ) (c : Conf) (new : List Conf)
    → i < length confs
    → c.container_type ≡ (get_or confs i blank).container_type
    → IsTyped confs
    → TypedAt (replaced confs i c new) c
    → ((j : ℕ) → TypedAt (replaced confs i c new) (get_or new j blank))
    → IsTyped (replaced confs i c new)
replaced-IsTyped confs i c new here same typed at_c at_new j =
    let confs' = replaced confs i c new in
    let later = replaced-Later confs i c new here same in
    subst (TypedAt confs') (sym (replaced-at confs i c new here j))
      (elim (Bool-cases (ltb j (length confs))) [
        | inl old ↦ elim (Bool-cases (i == j)) [
          | inl e ↦ rw (old, e) at_c
          | inr n ↦ rw (old, n) (TypedAt-Later confs confs' (get_or confs j blank) later (typed j))
        ]
        | inr past ↦ rw past (at_new (j - length confs))
      ])
