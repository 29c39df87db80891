-- ===== src/Strings/Whole.antt =====
-- `cfustring_split` of src/cfustring.c, which makes a string of each piece.
use libcfu.Common.{
  ℕ, ◌≤◌, ◌≡◌, ◌≢◌, refl, inl, Option, none, some, List, [], ◌∷◌, map, length, Run, ok, ◌>>=◌,
  Returns,
}
use libcfu.Strings.Buffer.{CfuString, new, new_with_initial_size, new_from_string}
use libcfu.Strings.Room.{IsText}
use libcfu.Strings.Append.{append-IsText}
use libcfu.Strings.Piece.{marked}
use libcfu.Strings.Split.{split_to_raw}
use libcfu.Strings.Fields.{AllFields, AllMarked, join, split_to_raw-join}

-- `cfustring_new_from_string` for each piece, with its end mark.
unfoldable pub strings_from : (malloc : ℕ → List ℕ) → List (Option (List ℕ)) → Run (List CfuString)
strings_from malloc [] = ok []
strings_from malloc (piece ∷ pieces) = do
  b ← new_from_string malloc (marked piece)
  strings ← strings_from malloc pieces
  ok (b ∷ strings)

-- A null pointer where there is no piece.
unfoldable pub split :
    (malloc : ℕ → List ℕ)
    → Option (List ℕ)
    → (seps : List (List ℕ)) → (limit : ℕ) → Run (Option (List CfuString))
split malloc buffer seps limit = do
  r ← split_to_raw buffer seps limit
  elim r [
    | none ↦ ok none
    | some pieces ↦ elim pieces [
      | [] ↦ ok none
      | piece ∷ more ↦ (do strings ← strings_from malloc (piece ∷ more); ok (some strings))
    ]
  ]

-- The strings hold the texts, one by one.
abbrev pub AllTexts : List CfuString → List (List ℕ) → Type 0
AllTexts [] [] = Unit
AllTexts [] (f ∷ fs) = 1 ≤ 0
AllTexts (b ∷ strings) [] = 1 ≤ 0
AllTexts (b ∷ strings) (f ∷ fs) = IsText b f × AllTexts strings fs

module _ (malloc : ℕ → List ℕ) (sized : (n : ℕ) → length (malloc n) ≡ n) where
  strings_from-AllTexts :
      (fs : List (List ℕ))
      → AllMarked fs
      → Returns (strings_from malloc (map some fs)) λ strings. AllTexts strings fs
  unfolding strings_from new_from_string
  strings_from-AllTexts [] clean = ([], refl, tt)
  strings_from-AllTexts (f ∷ fs) clean =
      let empty : IsText new [] = inl (unfold new new_with_initial_size in refl, refl) in
      let (b, run, is) = append-IsText malloc sized new [] f [] empty clean.0 in
      let (strings, run', all) = strings_from-AllTexts fs clean.1 in
      (b ∷ strings, rw (run, run'), (is, all))

  -- If `malloc` gives blocks of the size asked for, `cfustring_split` of one to 2 ^ 31 fields, none of them
  -- empty or with the separator or an end mark in it, with a separator of one byte, not the end mark, between them, returns
  -- strings that hold those fields, in order.
  pub split-AllTexts :
      (c : ℕ) (f : List ℕ) (fs : List (List ℕ))
      → AllFields c (f ∷ fs)
      → AllMarked (f ∷ fs)
      → c ≢ 0
      → length (f ∷ fs) ≤ 2147483648
      → Returns
          (split malloc (some (join c (f ∷ fs))) ((c ∷ []) ∷ []) 0)
          λ r. (strings : List CfuString) × (r ≡ some strings) × AllTexts strings (f ∷ fs)
  unfolding split
  split-AllTexts c f fs fields clean mark few =
      let (strings, run, all) = strings_from-AllTexts (f ∷ fs) clean in
      (
        some strings,
        rw (split_to_raw-join c (f ∷ fs) fields clean mark few, run),
        (strings, refl, all),
      )
