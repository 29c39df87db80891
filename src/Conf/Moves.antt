-- ===== src/Conf/Moves.antt =====
-- What the steps of the parser of src/cfuconf.c do to a well-formed state.
use libcfu.Common.{
  ℕ, zero, suc, ◌-◌, ◌<◌, ◌≡◌, refl, sym, ap, ◌∙◌, subst, inl, inr, false, Option, none, some, List,
  [], ◌∷◌, ◌++◌, append-nil, arith, ltb, Bool-cases, Option-cases, length, get_or, set,
}
use libcfu.Hash.Value.{Key}
use libcfu.Conf.Lexer.{Bytes}
use libcfu.Conf.Dict.{
  same_name, same_name_refl, same_name_trans, same_name-sym, Dict, lookup, put, lookup-put,
}
use libcfu.Conf.Parse.{Conf, current, Parser, enter, add_directive, or_empty, new_conf, blank}
use libcfu.Conf.Valid.{
  AllBelow-more, HasType, HasType-Later, TypedAt, blank-TypedAt, TypedAt-Later, IsValid, Later,
  Later-refl, replaced, replaced-at, replaced-Later, length-replaced, replaced-IsTyped,
}

pub add_directive-IsValid :
    (p : Parser) (name : Key) (values : List Bytes)
    → IsValid p
    → IsValid (add_directive p name values) × Later p.confs (add_directive p name values).confs
unfolding add_directive
add_directive-IsValid p name values v =
    let c : Conf = record (current p) {
      directives =
          put (current p).directives name
            (or_empty (lookup (current p).directives name) ++ values ∷ []);
    } in
    let later = replaced-Later p.confs p.cur_conf c [] v.cur refl in
    let confs' = replaced p.confs p.cur_conf c [] in
    let typed =
      replaced-IsTyped p.confs p.cur_conf c [] v.cur refl v.typed
        (TypedAt-Later p.confs confs' (current p) later (v.typed p.cur_conf))
        (λ j. blank-TypedAt confs' none none) in
    subst (λ cs. IsValid (record p { confs = cs }) × Later p.confs cs)
      (append-nil (set p.confs p.cur_conf c))
      (
        record {
          cur = omega (arith, v.cur, later.more);
          stack = AllBelow-more (length p.confs) (length confs') p.stack later.more v.stack;
          typed = typed;
        },
        later,
      )

-- The state within a container of the type, with the old one on the stack.
pub record Entered (p : Parser) (type : Bytes) (p' : Parser) : Type 0 where
  pub valid : IsValid p'
  pub later : Later p.confs p'.confs
  pub stack : p'.stack ≡ p.cur_conf ∷ p.stack
  pub has : HasType p'.confs (some type) p'.cur_conf

some-injective : {A : Type 0} (a b : A) → some a ≡ some b → a ≡ b
some-injective a b e = cc

or_empty-found :
    {A : Type 0} (o : Option (Dict A)) (n : Key) (j : A)
    → lookup (or_empty o) n ≡ some j
    → (h : Dict A) × (o ≡ some h) × (lookup h n ≡ some j)
or_empty-found none n j e = absurd (unfold lookup in cc)
or_empty-found (some h) n j e = (h, refl, e)

new-at :
    (confs : List Conf) (i : ℕ) (c d : Conf)
    → i < length confs
    → get_or (replaced confs i c (d ∷ [])) (length confs) blank ≡ d
new-at confs i c d l =
    let past : ltb (length confs) (length confs) ≡ false = ground arith in
    let none_left : length confs - length confs ≡ 0 = omega arith in
    replaced-at confs i c (d ∷ []) l (length confs) ∙ rw (past, none_left)

-- The containers of a type that the current one has, with one more.
added-TypedAt :
    (p : Parser) (type : Bytes) (name : Option Bytes)
    → IsValid p
    → (let this_hash = or_empty (lookup (current p).containers (some type)) in
        let c : Conf = record (current p) {
          containers = put (current p).containers (some type) (put this_hash name (length p.confs));
        } in
        TypedAt (replaced p.confs p.cur_conf c (new_conf (some type) name ∷ [])) c)
added-TypedAt p type name v k n h j e e' =
    let new = length p.confs in
    let this_hash = or_empty (lookup (current p).containers (some type)) in
    let c : Conf = record (current p) {
      containers = put (current p).containers (some type) (put this_hash name new);
    } in
    let confs' = replaced p.confs p.cur_conf c (new_conf (some type) name ∷ []) in
    let later = replaced-Later p.confs p.cur_conf c (new_conf (some type) name ∷ []) v.cur refl in
    let here = lookup-put (current p).containers (some type) (put this_hash name new) k in
    elim (Bool-cases (same_name (some type) k)) [
      | inr other ↦
          let old : lookup (current p).containers k ≡ some h = sym (here ∙ rw other) ∙ e in
          let (l, has) = v.typed p.cur_conf k n h j old e' in
          (omega (arith, later.more), HasType-Later p.confs confs' k j later l has)
      | inl same ↦
          let h_is : put this_hash name new ≡ h = some-injective _ _ (sym (here ∙ rw same) ∙ e) in
          let inner = sym (lookup-put this_hash name new n) ∙ ap (λ d. lookup d n) h_is ∙ e' in
          elim (Bool-cases (same_name name n)) [
            | inl it ↦
                let j_is : new ≡ j = some-injective new j (rw it at inner) in
                let size =
                  length-replaced p.confs p.cur_conf c (new_conf (some type) name ∷ []) v.cur in
                let at =
                  ap (λ d. d.container_type)
                    (new-at p.confs p.cur_conf c (new_conf (some type) name) v.cur) in
                subst (λ i. (i < length confs') × HasType confs' k i) j_is
                  (omega (arith, size), (type, at, same_name-sym k (some type) ∙ same))
            | inr not_it ↦
                let (h₀, eh, found) =
                  or_empty-found (lookup (current p).containers (some type)) n j
                    (rw not_it at inner) in
                let (l, (t, et, s)) = v.typed p.cur_conf (some type) n h₀ j eh found in
                (
                  omega (arith, later.more),
                  (t, later.types j l ∙ et, sym (same_name_trans (some type) k (some t) same) ∙ s),
                )
          ]
    ]

new-TypedAt :
    (confs : List Conf) (type : Bytes) (name : Option Bytes) (j : ℕ)
    → TypedAt confs (get_or (new_conf (some type) name ∷ []) j blank)
new-TypedAt confs type name zero = blank-TypedAt confs (some type) name
new-TypedAt confs type name (suc j) = blank-TypedAt confs none none

-- A container that was not there is put into the current one and entered.
Entered-new :
    (p : Parser) (type : Bytes) (name : Option Bytes)
    → IsValid p
    → (let this_hash = or_empty (lookup (current p).containers (some type)) in
        let c : Conf = record (current p) {
          containers = put (current p).containers (some type) (put this_hash name (length p.confs));
        } in
        Entered p type (record {
          confs = replaced p.confs p.cur_conf c (new_conf (some type) name ∷ []);
          stack = p.cur_conf ∷ p.stack;
          cur_conf = length p.confs;
        }))
Entered-new p type name v =
    let this_hash = or_empty (lookup (current p).containers (some type)) in
    let c : Conf = record (current p) {
      containers = put (current p).containers (some type) (put this_hash name (length p.confs));
    } in
    let new = new_conf (some type) name ∷ [] in
    let confs' = replaced p.confs p.cur_conf c new in
    let later = replaced-Later p.confs p.cur_conf c new v.cur refl in
    let size = length-replaced p.confs p.cur_conf c new v.cur in
    let at =
      ap (λ d. d.container_type) (new-at p.confs p.cur_conf c (new_conf (some type) name) v.cur) in
    record {
      valid = record {
        cur = omega (arith, size);
        stack = (
          omega (arith, size, v.cur),
          AllBelow-more (length p.confs) (length confs') p.stack later.more v.stack,
        );
        typed =
            replaced-IsTyped p.confs p.cur_conf c new v.cur refl v.typed
              (added-TypedAt p type name v) (λ j. new-TypedAt confs' type name j);
      };
      later = later;
      stack = refl;
      has = (type, at, same_name_refl (some type));
    }

pub enter-Entered :
    (p : Parser) (type : Bytes) (name : Option Bytes)
    → IsValid p
    → Entered p type (enter p type name)
unfolding enter
enter-Entered p type name v =
    let this_hash = or_empty (lookup (current p).containers (some type)) in
    elim (Option-cases (lookup this_hash name)) [
      | inl fresh ↦ rw (enter, fresh) (Entered-new p type name v)
      | inr (old, found) ↦
          let (h₀, eh, found') =
            or_empty-found (lookup (current p).containers (some type)) name old found in
          let (l, has) = v.typed p.cur_conf (some type) name h₀ old eh found' in
          rw (enter, found)
            (record {
              valid = record { cur = l; stack = (v.cur, v.stack); typed = v.typed };
              later = Later-refl p.confs;
              stack = refl;
              has = has;
            })
    ]

pub add_directive-stack :
    (p : Parser) (name : Key) (values : List Bytes) → (add_directive p name values).stack ≡ p.stack
unfolding add_directive
add_directive-stack p name values = refl

pub add_directive-cur :
    (p : Parser) (name : Key) (values : List Bytes)
    → (add_directive p name values).cur_conf ≡ p.cur_conf
unfolding add_directive
add_directive-cur p name values = refl
