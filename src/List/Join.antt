-- ===== src/List/Join.antt =====
-- `cfulist_join` of src/cfulist.c, which puts the strings of a list together in a string of
-- src/cfustring.c.
use libcfu.Common.{
  ℕ, ◌+◌, ◌≤◌, ◌<◌, ◌≡◌, refl, sym, ap, ◌∙◌, subst, ◌⊎◌, inl, inr, Bool, true, false, Option, none,
  some, List, [], ◌∷◌, ◌++◌, append-nil, append_assoc, arith, ltb, ◌==◌, if◌then◌else◌, Bool-cases,
  length, Run, ok, ◌>>=◌, Returns,
}
use libcfu.Strings.Memory.{NoMark}
use libcfu.Strings.Buffer.{CfuString, new, new_with_initial_size, append, get_buffer_copy}
use libcfu.Strings.Room.{IsText}
use libcfu.Strings.Append.{append-IsText, get_buffer_copy-text}
use libcfu.List.Store.{Ptr, ListArg, this_list, Store}
use libcfu.List.Inner.{foreach}
use libcfu.List.Chain.{Cell, IsList}
use libcfu.List.Walk.{visit_until, foreach-cells}

-- `_join_foreach_struct`, without its delimiter. A callback that has faulted leaves the fault.
pub record Stuff : Type 0 where
  pub count : ℕ
  pub string : Run CfuString

-- What `malloc` finds in a block of the size, and the C string at a pointer.
module _ (malloc : ℕ → List ℕ) (string_at : Ptr → Option (List ℕ))
    (delimiter : Option (List ℕ)) where
  -- `_join_foreach_fn`
  unfoldable pub join_foreach_fn : Stuff → (value : Ptr) → (data_size : ℕ) → Stuff × Bool
  join_foreach_fn stuff value data_size = (
    record {
      count = stuff.count + 1;
      string = do
        b ← stuff.string
        b' ← if ltb 0 stuff.count then append malloc b delimiter else ok b
        append malloc b' (string_at value);
    },
    false,
  )

  unfoldable pub join : ListArg → Store → Run (Option (List ℕ) × Store)
  join list s = do
    r ← foreach join_foreach_fn list (record { count = 0; string = ok new }) s
    str ← r.0.0.string >>= get_buffer_copy
    ok (str, r.1)

  -- The cells point at C strings.
  abbrev pub HasWords : List Cell → List (List ℕ) → Type 0
  HasWords [] [] = Unit
  HasWords [] (w ∷ words) = 1 ≤ 0
  HasWords (c ∷ cells) [] = 1 ≤ 0
  HasWords (c ∷ cells) (w ∷ words) =
      ((more : List ℕ) × (string_at c.value ≡ some (w ++ 0 ∷ more)) × NoMark w)
      × HasWords cells words

no_block : (b : CfuString) (text : List ℕ) → IsText b text → (b.used_size == 0) ≡ true → text ≡ []
no_block b text (inl (e, nothing)) y = nothing
no_block b text (inr (rest, e)) y = absurd (ground (arith, y, ap CfuString.used_size e))

-- Words with a delimiter ahead of each, and between them.
abbrev pub delimited : List ℕ → List (List ℕ) → List ℕ
delimited sep [] = []
delimited sep (w ∷ words) = sep ++ (w ++ delimited sep words)

abbrev pub joined : List ℕ → List (List ℕ) → List ℕ
joined sep [] = []
joined sep (w ∷ words) = w ++ delimited sep words

module _ (malloc : ℕ → List ℕ) (sized : (n : ℕ) → length (malloc n) ≡ n)
    (string_at : Ptr → Option (List ℕ)) (sep behind : List ℕ) (clean : NoMark sep) where
  abbrev fn : Stuff → Ptr → ℕ → Stuff × Bool
  fn = join_foreach_fn malloc string_at (some (sep ++ 0 ∷ behind))

  -- With a word in front, each cell adds the delimiter and its word.
  visit-delimited :
      (cells : List Cell) (words : List (List ℕ)) (n : ℕ) (b : CfuString) (text : List ℕ)
      → 0 < n
      → HasWords malloc string_at (some (sep ++ 0 ∷ behind)) cells words
      → IsText b text
      → Returns
          (visit_until fn (record { count = n; string = ok b }) cells).0.string
          λ b'. IsText b' (text ++ delimited sep words)
  unfolding visit_until join_foreach_fn
  visit-delimited [] [] n b text l has is = (b, refl, subst (IsText b) (sym (append-nil text)) is)
  visit-delimited [] (w ∷ words) n b text l has is = absurd (omega (arith, has))
  visit-delimited (c ∷ cells) [] n b text l has is = absurd (omega (arith, has))
  visit-delimited (c ∷ cells) (w ∷ words) n b text l ((more, at, mark), has) is =
      let (b₁, run₁, is₁) = append-IsText malloc sized b text sep behind is clean in
      let (b₂, run₂, is₂) = append-IsText malloc sized b₁ (text ++ sep) w more is₁ mark in
      let (b₃, run₃, is₃) =
        visit-delimited cells words (n + 1) b₂ ((text ++ sep) ++ w) (omega arith) has is₂ in
      let counted : ltb 0 n ≡ true = ground arith in
      let d = delimited sep words in
      (
        b₃,
        rw (at, run₁, counted, run₂) run₃,
        subst (IsText b₃) (append_assoc (text ++ sep) w d ∙ append_assoc text sep (w ++ d)) is₃,
      )

  visit-joined :
      (cells : List Cell) (words : List (List ℕ))
      → HasWords malloc string_at (some (sep ++ 0 ∷ behind)) cells words
      → Returns
          (visit_until fn (record { count = 0; string = ok new }) cells).0.string
          λ b. IsText b (joined sep words)
  unfolding visit_until join_foreach_fn
  visit-joined [] [] has = (new, refl, inl (unfold new new_with_initial_size in refl, refl))
  visit-joined [] (w ∷ words) has = absurd (omega (arith, has))
  visit-joined (c ∷ cells) [] has = absurd (omega (arith, has))
  visit-joined (c ∷ cells) (w ∷ words) ((more, at, mark), has) =
      let empty : IsText new [] = inl (unfold new new_with_initial_size in refl, refl) in
      let (b₁, run₁, is₁) = append-IsText malloc sized new [] w more empty mark in
      let (b₂, run₂, is₂) = visit-delimited cells words 1 b₁ w (omega arith) has is₁ in
      (b₂, rw (at, run₁) run₂, is₂)

  -- If `malloc` gives blocks of the size asked for and the data of a list point at C strings,
  -- `cfulist_join` returns a C string of those strings in order with the delimiter between them, and leaves
  -- the list as it was; it can return a null pointer only where that text is empty.
  pub join-joined :
      (s : Store) (cells : List Cell) (words : List (List ℕ))
      → IsList s cells
      → HasWords malloc string_at (some (sep ++ 0 ∷ behind)) cells words
      → Returns (join malloc string_at (some (sep ++ 0 ∷ behind)) this_list s) λ r.
        (r.1 ≡ s)
        × ((r.0 ≡ some (joined sep words ++ 0 ∷ [])) ⊎ ((r.0 ≡ none) × (joined sep words ≡ [])))
  unfolding join
  join-joined s cells words is has =
      let (b, run, text) = visit-joined cells words has in
      let copied = get_buffer_copy-text b (joined sep words) text in
      let walked = foreach-cells fn s cells (record { count = 0; string = ok new }) is in
      let out = joined sep words ++ 0 ∷ [] in
      elim (Bool-cases (b.used_size == 0)) [
        | inl y ↦ ((none, s), rw (walked, run, copied, y), (refl, inr (refl, no_block b _ text y)))
        | inr n ↦ ((some out, s), rw (walked, run, copied, n), (refl, inl refl))
      ]
