-- ===== src/Conf/Stored.antt =====
-- What the steps of the parser of src/cfuconf.c do to containers that are stored as they are meant.
use libcfu.Common.{
  ℕ, zero, suc, ◌+◌, ◌-◌, ◌≤◌, ◌<◌, ◌≡◌, refl, sym, ap, ◌∙◌, inl, inr, true, false, ◌&&◌, some,
  List, [], ◌∷◌, ◌++◌, arith, ltb, ◌==◌, if◌then◌else◌, Bool-cases, Option-cases, length, get_or,
  set, length-set, get_or-set,
}
use libcfu.Hash.Value.{Key}
use libcfu.Conf.Lexer.{Bytes}
use libcfu.Conf.Dict.{same_name, same_name_trans, same_name-sym, Dict, lookup, put, lookup-put}
use libcfu.Conf.Parse.{Conf, current, Parser, enter, add_directive, or_empty, new_conf, blank}
use libcfu.Conf.Valid.{replaced, replaced-at, length-replaced}
use libcfu.Conf.Meaning.{Meaning, said, inside, one_more, opened, Represents}

lookup_congr :
    {A : Type 0} (dict : Dict A) (a b : Key) → same_name a b ≡ true → lookup dict a ≡ lookup dict b
unfolding lookup
lookup_congr [] a b h = refl
lookup_congr (e ∷ dict) a b h =
    let same : same_name e.0 a ≡ same_name e.0 b =
      same_name-sym e.0 a ∙ same_name_trans a b e.0 h ∙ same_name-sym b e.0 in
    rw (same, lookup_congr dict a b h) refl

get_or-past : {A : Type 0} (xs : List A) (i : ℕ) (d : A) → length xs ≤ i → get_or xs i d ≡ d
get_or-past [] i d l = refl
get_or-past (x ∷ xs) zero d l = absurd (omega (arith, l))
get_or-past (x ∷ xs) (suc i) d l = get_or-past xs i d (omega (arith, l))

-- What a replaced container leaves as it was.
set-field :
    {B : Type 0} (f : Conf → B) (confs : List Conf) (at : ℕ) (c : Conf) (i : ℕ)
    → at < length confs
    → f (get_or (set confs at c) i blank) ≡ (if at == i then f c else f (get_or confs i blank))
set-field f confs at c i here =
    ap f (get_or-set confs at i c blank here)
    ∙ elim (Bool-cases (at == i)) [ inl y ↦ rw y refl | inr n ↦ rw n refl ]

-- What holds of the container at `at` by its number.
at_number :
    {B : Type 0} (at i : ℕ) (x : B) (f g : ℕ → B)
    → x ≡ g at
    → f i ≡ g i
    → (if at == i then x else f i) ≡ g i
at_number at i x f g h h' = elim (Bool-cases (at == i)) [
  | inl y ↦ (let e : at ≡ i = ground (arith, y) in rw y (h ∙ ap g e))
  | inr n ↦ rw n h'
]

module _ (p : Parser) (m : Meaning) (here : p.cur_conf < length p.confs)
    (rep : Represents p.confs m) where
  abbrev at : ℕ
  at = p.cur_conf

  abbrev as_said : (name : Bytes) → List Bytes → Conf
  as_said name values = record (current p) {
    directives =
        put (current p).directives (some name)
          (or_empty (lookup (current p).directives (some name)) ++ values ∷ []);
  }

  said-values :
      (name : Bytes) (values : List Bytes) (k : Key)
      → or_empty (lookup (as_said name values).directives k)
        ≡ (if same_name (some name) k then m.values at k ++ values ∷ [] else m.values at k)
  said-values name values k =
      let dict = (current p).directives in
      ap or_empty
        (lookup-put dict (some name) (or_empty (lookup dict (some name)) ++ values ∷ []) k)
      ∙ elim (Bool-cases (same_name (some name) k)) [
        | inl y ↦ rw y (
            ap (λ l. or_empty l ++ values ∷ []) (lookup_congr dict (some name) k y)
            ∙ ap (λ l. l ++ values ∷ []) (rep.values at k))
        | inr n ↦ rw n (rep.values at k)
      ]

  pub said-Represents :
      (name : Bytes) (values : List Bytes)
      → Represents (add_directive p (some name) values).confs (said m at name values)
  unfolding add_directive
  said-Represents name values =
      let c = as_said name values in
      record {
        count = length-set p.confs at c ∙ rep.count;
        values = λ i k.
            set-field (λ d. or_empty (lookup d.directives k)) p.confs at c i here
            ∙ elim (Bool-cases (at == i)) [
              | inl y ↦
                  (let e : at ≡ i = ground (arith, y) in
                    rw y (
                      said-values name values k
                      ∙ ap
                          (λ j.
                            if same_name (some name) k
                            then m.values j k ++ values ∷ []
                            else m.values j k)
                          e))
              | inr n ↦ rw n (rep.values i k)
            ];
        inner = λ i t n.
            set-field (λ d. lookup (or_empty (lookup d.containers t)) n) p.confs at c i here
            ∙ at_number at i _
                (λ j. lookup (or_empty (lookup (get_or p.confs j blank).containers t)) n)
                (λ j. m.inner j t n) (rep.inner at t n) (rep.inner i t n);
        title = λ i.
            set-field {B = Key × Key} (λ d. (d.container_type, d.container_name)) p.confs at c i
              here
            ∙ at_number {B = Key × Key} at i _
                (λ j. (
                  (get_or p.confs j blank).container_type,
                  (get_or p.confs j blank).container_name,
                ))
                (λ j. m.title j) (rep.title at) (rep.title i);
      }

  module _ (type name : Bytes) where
    abbrev as_opened : Conf
    as_opened = record (current p) {
      containers =
          put (current p).containers (some type) (
            put (or_empty (lookup (current p).containers (some type))) (some name)
              (length p.confs));
    }

    abbrev new : Conf
    new = new_conf (some type) (some name)

    -- A field that the new container has as a blank one.
    replaced-field :
        {B : Type 0} (f : Conf → B) (i : ℕ)
        → f new ≡ f blank
        → f (get_or (replaced p.confs at as_opened (new ∷ [])) i blank)
          ≡ (if at == i then f as_opened else f (get_or p.confs i blank))
    replaced-field f i same =
        ap f (replaced-at p.confs at as_opened (new ∷ []) here i)
        ∙ elim (Bool-cases (ltb i (length p.confs))) [
          | inl y ↦ rw y (elim (Bool-cases (at == i)) [ inl z ↦ rw z refl | inr z ↦ rw z refl ])
          | inr n ↦
              (let apart : (at == i) ≡ false = ground (arith, n, here) in
                rw (n, apart)
                  (past (i - length p.confs)
                    ∙ ap f (sym (get_or-past p.confs i blank (ground (arith, n))))))
        ]
      where
        past : (j : ℕ) → f (get_or (new ∷ []) j blank) ≡ f blank
        past zero = same
        past (suc j) = refl

    opened-inner :
        (t n : Key)
        → lookup (or_empty (lookup as_opened.containers t)) n ≡ (
            if same_name (some type) t && same_name (some name) n
            then some m.count
            else m.inner at t n)
    opened-inner t n =
        let dict = (current p).containers in
        let h = or_empty (lookup dict (some type)) in
        ap (λ o. lookup (or_empty o) n)
          (lookup-put dict (some type) (put h (some name) (length p.confs)) t)
        ∙ elim (Bool-cases (same_name (some type) t)) [
          | inr other ↦ rw other (rep.inner at t n)
          | inl y ↦ rw y (
              lookup-put h (some name) (length p.confs) n
              ∙ elim (Bool-cases (same_name (some name) n)) [
                | inl z ↦ rw z (ap some rep.count)
                | inr z ↦ rw z (
                    ap (λ o. lookup (or_empty o) n) (lookup_congr dict (some type) t y)
                    ∙ rep.inner at t n)
              ])
        ]

    opened-title :
        (i : ℕ)
        → (let c = get_or (replaced p.confs at as_opened (new ∷ [])) i blank in
            ◌≡◌ {A = Key × Key}
              (c.container_type, c.container_name)
              (if m.count == i then (some type, some name) else m.title i))
    opened-title i =
        let f : Conf → Key × Key = λ d. (d.container_type, d.container_name) in
        let count = rep.count in
        ap f (replaced-at p.confs at as_opened (new ∷ []) here i)
        ∙ elim (Bool-cases (ltb i (length p.confs))) [
          | inl y ↦
              (let old : (m.count == i) ≡ false = ground (arith, y, count) in
                rw (y, old)
                  (elim (Bool-cases (at == i)) [
                    | inl z ↦
                        (let e : at ≡ i = ground (arith, z) in
                          rw z (rep.title at ∙ ap (λ j. m.title j) e))
                    | inr z ↦ rw z (rep.title i)
                  ]))
          | inr n ↦ elim (Bool-cases (m.count == i)) [
            | inl z ↦
                (let first : i - length p.confs ≡ 0 = ground (arith, z, count) in
                  rw (n, z, first) refl)
            | inr z ↦
                (let first : i - length p.confs ≡ suc (i - length p.confs - 1) =
                    ground (arith, n, z, count) in
                  rw (n, z, first)
                    (sym (ap f (get_or-past p.confs i blank (ground (arith, n)))) ∙ rep.title i))
          ]
        ]

    new-Represents : Represents (replaced p.confs at as_opened (new ∷ [])) (one_more m at type name)
    new-Represents = record {
      count =
          length-replaced p.confs at as_opened (new ∷ []) here ∙ ap (λ (k : ℕ). k + 1) rep.count;
      values = λ i k.
          replaced-field (λ d. or_empty (lookup d.directives k)) i refl
          ∙ at_number at i _ (λ j. or_empty (lookup (get_or p.confs j blank).directives k))
              (λ j. m.values j k) (rep.values at k) (rep.values i k);
      inner = λ i t n.
          replaced-field (λ d. lookup (or_empty (lookup d.containers t)) n) i refl
          ∙ elim (Bool-cases (at == i)) [
            | inl y ↦
                (let e : at ≡ i = ground (arith, y) in
                  rw y (
                    opened-inner t n
                    ∙ ap
                        (λ j.
                          if same_name (some type) t && same_name (some name) n
                          then some m.count
                          else m.inner j t n)
                        e))
            | inr z ↦ rw z (rep.inner i t n)
          ];
      title = opened-title;
    }

    pub enter-Represents :
        Represents (enter p type (some name)).confs (opened m at type name)
        × ((enter p type (some name)).cur_conf ≡ inside m at type name)
    unfolding enter
    enter-Represents =
        let found = rep.inner at (some type) (some name) in
        elim (Option-cases (m.inner at (some type) (some name))) [
          | inl fresh ↦ rw (enter, found, opened, inside, fresh) (new-Represents, rep.count)
          | inr (old, there) ↦ rw (enter, found, opened, inside, there) (rep, refl)
        ]
