-- ===== src/Conf/Dict.antt =====
-- The hash tables of src/cfuconf.c, made with CFUHASH_IGNORE_CASE: what a table that maps names to
-- pointers stands for, as an association list.
use libcfu.Common.{
  ◌≡◌, refl, sym, ◌∙◌, ◌↔◌, inl, inr, Bool, true, false, Option, none, some, List, [], ◌∷◌, arith,
  if◌then◌else◌, Bool-cases, bytes_eq, bytes_eq_iff,
}
use libcfu.Hash.Value.{Key, fold_bytes}

-- Names agree when their lower-cased bytes do; a null pointer is a name of its own.
abbrev pub same_name : Key → Key → Bool
same_name none none = true
same_name none (some s) = false
same_name (some s) none = false
same_name (some s) (some t) = bytes_eq (fold_bytes true s) (fold_bytes true t)

abbrev pub Dict : Type 0 → Type 0
Dict A = List (Key × A)

module _ {A : Type 0} where
  -- `cfuhash_get`
  unfoldable pub lookup : Dict A → Key → Option A
  lookup [] name = none
  lookup (e ∷ dict) name = if same_name e.0 name then some e.1 else lookup dict name

  -- `cfuhash_put`: the key that is there is kept.
  unfoldable pub put : Dict A → Key → A → Dict A
  put [] name value = (name, value) ∷ []
  put (e ∷ dict) name value =
      if same_name e.0 name then (e.0, value) ∷ dict else e ∷ put dict name value

abbrev folded : Key → Key
folded none = none
folded (some s) = some (fold_bytes true s)

pub same_name_iff : (a b : Key) → (same_name a b ≡ true) ↔ (folded a ≡ folded b)
same_name_iff none none = ground arith
same_name_iff none (some s) = ground arith
same_name_iff (some s) none = ground arith
same_name_iff (some s) (some t) =
    ground (arith, bytes_eq_iff (fold_bytes true s) (fold_bytes true t))

pub same_name_refl : (a : Key) → same_name a a ≡ true
same_name_refl a = (same_name_iff a a).1 refl

pub same_name-sym : (a b : Key) → same_name a b ≡ same_name b a
same_name-sym a b = ground (arith, same_name_iff a b, same_name_iff b a)

pub same_name_trans : (a b c : Key) → same_name a b ≡ true → same_name a c ≡ same_name b c
same_name_trans a b c h =
    let e : folded a ≡ folded b = (same_name_iff a b).0 h in
    elim (Bool-cases (same_name a c)) [
      | inl y ↦ y ∙ sym ((same_name_iff b c).1 (sym e ∙ (same_name_iff a c).0 y))
      | inr n ↦ elim (Bool-cases (same_name b c)) [
        | inl y ↦ (same_name_iff a c).1 (e ∙ (same_name_iff b c).0 y) ∙ sym y
        | inr n' ↦ n ∙ sym n'
      ]
    ]

module _ {A : Type 0} where
  -- What a name maps to behind a `put`.
  pub lookup-put :
      (dict : Dict A) (name : Key) (value : A) (other : Key)
      → lookup (put dict name value) other
        ≡ (if same_name name other then some value else lookup dict other)
  unfolding lookup put
  lookup-put [] name value other = refl
  lookup-put (e ∷ dict) name value other = elim (Bool-cases (same_name e.0 name)) [
    | inl h ↦ rw (h, same_name_trans e.0 name other h) (ground arith)
    | inr h ↦
        rw (h, lookup-put dict name value other)
          (elim (Bool-cases (same_name name other)) [
            | inl y ↦
                let apart : same_name e.0 other ≡ false =
                  same_name-sym e.0 other
                  ∙ sym (same_name_trans name other e.0 y)
                  ∙ same_name-sym name e.0
                  ∙ h in
                rw (apart, y)
            | inr n ↦ rw n
          ])
  ]
