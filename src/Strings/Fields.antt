-- ===== src/Strings/Fields.antt =====
-- The splitting of src/cfustring.c at a separator of one byte, against the fields that were joined.
use libcfu.Common.{
  ℕ, zero, suc, ◌+◌, ◌≤◌, ◌<◌, ◌≡◌, refl, ap, ◌≢◌, true, false, none, some, List, [], ◌∷◌, ◌++◌,
  map, arith, ◌==◌, length, length-append, take_all, ok, Returns, Bool-cases, inl, inr, ltb, ◌*◌,
  ◌%◌,
}
use libcfu.Strings.Piece.{take-front}
use libcfu.Strings.Split.{
  Sep, at_start, scan_seps, find_sep, dup_n, check_sep, room_for, split_loop, split_to_raw,
}
use libcfu.Strings.Memory.{NoMark}

-- A field: at least one byte, none of them the separator.
abbrev pub Free : ℕ → List ℕ → Type 0
Free c [] = Unit
Free c (x ∷ xs) = (c ≢ x) × Free c xs

pub record IsField (c : ℕ) (f : List ℕ) : Type 0 where
  pub some_bytes : 1 ≤ length f
  pub free : Free c f

abbrev pub AllFields : ℕ → List (List ℕ) → Type 0
AllFields c [] = Unit
AllFields c (f ∷ fs) = IsField c f × AllFields c fs

-- The fields with a separator between them.
abbrev pub join : ℕ → List (List ℕ) → List ℕ
join c [] = []
join c (f ∷ []) = f
join c (f ∷ g ∷ fs) = f ++ c ∷ join c (g ∷ fs)

abbrev pub AllMarked : List (List ℕ) → Type 0
AllMarked [] = Unit
AllMarked (f ∷ fs) = NoMark f × AllMarked fs

module _ (c : ℕ) where
  abbrev one : List Sep
  one = at_start (c ∷ []) ∷ []

  scan_seps-other : (x : ℕ) → c ≢ x → scan_seps x one ≡ (none, one)
  unfolding scan_seps
  scan_seps-other x ne = let other : (c == x) ≡ false = ground arith in rw other

  scan_seps-same : scan_seps c one ≡ (some 1, [])
  unfolding scan_seps
  scan_seps-same = let same : (c == c) ≡ true = ground arith in rw same

  find_sep-field :
      (f more : List ℕ) (at : ℕ)
      → Free c f
      → find_sep (f ++ c ∷ more) at one ≡ some (at + length f, more)
  unfolding find_sep
  find_sep-field [] more at free =
      rw (find_sep, scan_seps-same) (ap (λ n. some (n, more)) (omega arith))
  find_sep-field (x ∷ f) more at free =
      rw
        (
          find_sep,
          scan_seps-other x free.0,
          scan_seps-other x free.0,
          find_sep-field f more (at + 1) free.1,
        )
        (ap (λ n. some (n, more)) (omega arith))

  find_sep-none : (f : List ℕ) (at : ℕ) → Free c f → find_sep f at one ≡ none
  unfolding find_sep
  find_sep-none [] at free = refl
  find_sep-none (x ∷ f) at free = rw (
    find_sep,
    scan_seps-other x free.0,
    scan_seps-other x free.0,
    find_sep-none f (at + 1) free.1,
  )

  check_sep-field :
      (f more : List ℕ)
      → IsField c f
      → check_sep (f ++ c ∷ more) ((c ∷ []) ∷ []) false ≡ (some f, more)
  unfolding check_sep dup_n
  check_sep-field [] more h = absurd (omega (arith, h.some_bytes))
  check_sep-field (x ∷ f) more h =
      let n : 0 + length (x ∷ f) ≡ length (x ∷ f) = omega arith in
      let sized : (length (x ∷ f) == 0) ≡ false = ground arith in
      rw (find_sep-field (x ∷ f) more 0 h.free, n, sized, take-front f (c ∷ more))

  check_sep-last : (f : List ℕ) → IsField c f → check_sep f ((c ∷ []) ∷ []) false ≡ (some f, [])
  unfolding check_sep dup_n
  check_sep-last [] h = absurd (omega (arith, h.some_bytes))
  check_sep-last (x ∷ f) h =
      let sized : (length (x ∷ f) == 0) ≡ false = ground arith in
      rw (find_sep-none (x ∷ f) 0 h.free, sized, take_all (length f) f refl)

  check_sep-end : check_sep [] ((c ∷ []) ∷ []) false ≡ (none, [])
  unfolding check_sep
  check_sep-end = refl

  -- A separator at the front gives no piece.
  check_sep-none : (more : List ℕ) → check_sep (c ∷ more) ((c ∷ []) ∷ []) false ≡ (none, more)
  unfolding check_sep dup_n
  check_sep-none more = rw (find_sep-field [] more 0 tt)

  -- With a GiB of pieces twice over the counters would wrap.
  room_for-room :
      (max used : ℕ)
      → 1 ≤ max
      → used ≤ max
      → used < 2147483648
      → Returns (room_for max used) λ room. used < room
  unfolding room_for
  room_for-room max used some_room within few = elim (Bool-cases (used == max)) [
    | inl full ↦
        (let small : max * 2 % 4294967296 ≡ max * 2 = ground (arith, full) in
          let fits : ltb used (max * 2) ≡ true = ground (arith, full) in
          (max * 2, rw (full, small, fits) refl, ground (arith, fits)))
    | inr room ↦
        (let fits : ltb used max ≡ true = ground (arith, room) in
          (max, rw (room, fits) refl, ground (arith, fits)))
  ]

  -- One round that stores a piece.
  split_loop-piece :
      (k max used : ℕ) (start behind piece : List ℕ) (pieces : List (List ℕ))
      → check_sep start ((c ∷ []) ∷ []) false ≡ (some piece, behind)
      → 1 ≤ max
      → used ≤ max
      → used < 2147483648
      → ((room : ℕ)
          → used < room
          → split_loop k behind ((c ∷ []) ∷ []) 0 room (used + 1) false ≡ ok pieces)
      → split_loop (suc k) start ((c ∷ []) ∷ []) 0 max used false ≡ ok (piece ∷ pieces)
  unfolding split_loop
  split_loop-piece k max used start behind piece pieces step some_room within few later =
      let (room, run, larger) = room_for-room max used some_room within few in
      let counted : (used + 1) % 4294967296 ≡ used + 1 = omega (arith, few) in
      rw (split_loop, step, step, run, counted, later room larger) refl

  pub split_loop-fields :
      (k max used : ℕ) (fs : List (List ℕ))
      → AllFields c fs
      → length (join c fs) < k
      → 1 ≤ max
      → used ≤ max
      → used + length fs ≤ 2147483648
      → split_loop k (join c fs) ((c ∷ []) ∷ []) 0 max used false ≡ ok fs
  unfolding split_loop
  split_loop-fields zero max used fs all l some_room within few = absurd (omega arith)
  split_loop-fields (suc k) max used [] all l some_room within few = rw (split_loop, check_sep-end)
  split_loop-fields (suc zero) max used (f ∷ []) all l some_room within few =
      absurd (omega (arith, all.0.some_bytes))
  split_loop-fields (suc (suc k)) max used (f ∷ []) all l some_room within few =
      split_loop-piece (suc k) max used f [] f [] (check_sep-last f all.0) some_room within
        (omega (arith, few)) (λ room larger. rw (split_loop, check_sep-end))
  split_loop-fields (suc k) max used (f ∷ g ∷ fs) all l some_room within few =
      let left = length-append f (c ∷ join c (g ∷ fs)) in
      split_loop-piece k max used (f ++ c ∷ join c (g ∷ fs)) (join c (g ∷ fs)) f (g ∷ fs)
        (check_sep-field f (join c (g ∷ fs)) all.0) some_room within (omega (arith, few))
        (λ room larger.
          split_loop-fields k room (used + 1) (g ∷ fs) all.1 (omega (arith, left, l))
            (omega (arith, larger)) (omega (arith, larger)) (omega (arith, few)))

  -- A string made of at most 2 ^ 31 fields, none of them empty or with the separator or an end mark in
  -- it, with a separator of one byte, not the end mark, between them is split without a limit into
  -- those fields.
  pub split_to_raw-join :
      (fs : List (List ℕ))
      → AllFields c fs
      → AllMarked fs
      → c ≢ 0
      → length fs ≤ 2147483648
      → split_to_raw (some (join c fs)) ((c ∷ []) ∷ []) 0 ≡ ok (some (map some fs))
  unfolding split_to_raw
  split_to_raw-join fs all clean mark few = rw (
      split_loop-fields (length (join c fs) + 1) 2 0 fs all (omega arith) (omega arith)
        (omega arith) (omega (arith, few)))

  split_loop-stops :
      (k : ℕ) (f more : List ℕ)
      → IsField c f
      → 2 ≤ k
      → split_loop k (f ++ c ∷ c ∷ more) ((c ∷ []) ∷ []) 0 2 0 false ≡ ok (f ∷ [])
  unfolding split_loop
  split_loop-stops zero f more h l = absurd (omega arith)
  split_loop-stops (suc zero) f more h l = absurd (omega arith)
  split_loop-stops (suc (suc k)) f more h l =
      split_loop-piece (suc k) 2 0 (f ++ c ∷ c ∷ more) (c ∷ more) f []
        (check_sep-field f (c ∷ more) h) (omega arith) (omega arith) (omega arith)
        (λ room larger. rw (split_loop, check_sep-none more))

  -- A string of a non-empty field without the separator, the separator of one byte twice, and
  -- anything more is split into that first field alone: an empty field ends the split.
  pub split_to_raw-empty_field :
      (f more : List ℕ)
      → IsField c f
      → split_to_raw (some (f ++ c ∷ c ∷ more)) ((c ∷ []) ∷ []) 0 ≡ ok (some (some f ∷ []))
  unfolding split_to_raw
  split_to_raw-empty_field f more h = rw (
      split_loop-stops (length (f ++ c ∷ c ∷ more) + 1) f more h
        (omega (arith, length-append f (c ∷ c ∷ more))))
