-- ===== src/Strings/Convert.antt =====
-- One conversion of the printf family of src/cfustring.c: the loop of `_safe_sprintf` and the copy
-- of `_safe_strncpy`.
use libcfu.Common.{
  ℕ, zero, suc, ◌+◌, ◌-◌, ◌*◌, ◌%◌, ◌^◌, ◌≤◌, ◌<◌, ◌≡◌, refl, sym, ap, ◌∙◌, subst, ◌⊎◌, inl, inr,
  true, false, ◌||◌, some, List, [], ◌∷◌, ◌++◌, arith, ltb, leb, ◌==◌, Bool-cases, length,
  length-append, ok, Returns,
}
use native.Mathlib.Omega.{pow_step}
use libcfu.Strings.Memory.{strncpy, put_bytes, memcpy, put_byte, NoMark, split_at, memcpy-exact}
use libcfu.Strings.Format.{VaArg, too_small, sprintf_loop, safe_sprintf, copy_buffer, safe_strncpy}
use libcfu.Strings.Room.{first_byte}

too_small_lem :
    (rv size : ℕ) → 0 < size → size < 2147483648 → too_small rv size ≡ ok (leb (size - 1) rv)
unfolding too_small
too_small_lem rv size some_room fits =
    let bits : size % 4294967296 ≡ size = omega arith in
    let a : (size == 2147483648) ≡ false = ground arith in
    let b : (size == 0) ≡ false = ground arith in
    let c : leb 2147483648 size ≡ false = ground arith in rw (bits, a, b, c) refl

-- A source with no end mark among its bytes is copied as it is.
strncpy-put_bytes :
    (block source more : List ℕ)
    → NoMark source
    → strncpy block (source ++ more) (length source)
      ≡ put_bytes block (source ++ more) (length source)
unfolding strncpy put_bytes
strncpy-put_bytes block [] more h = refl
strncpy-put_bytes [] (c ∷ source) more h = refl
strncpy-put_bytes (x ∷ block) (c ∷ source) more h =
    let clean : (c == 0) ≡ false = ground (arith, h.0) in
    rw (clean, strncpy-put_bytes block source more h.1) refl

-- A buffer of its size, which an `int` can hold.
abbrev pub IsBuffer : List ℕ → ℕ → Type 0
IsBuffer buf size = (length buf ≡ size) × (0 < size) × (size < 2147483648)

-- A block in which `vsnprintf` has left the text, and its result.
abbrev pub Printed : (buf text : List ℕ) → List ℕ × ℕ → Type 0
Printed buf text written =
    (written.1 ≡ length text)
    × (length text < length buf
        → (rest : List ℕ) × (written.0 ≡ text ++ 0 ∷ rest) × (length written.0 ≡ length buf))

-- The copy fills the front of a block that is longer.
strncpy-copied :
    (block source more : List ℕ)
    → length source < length block
    → NoMark source
    → Returns
        (strncpy block (source ++ more) (length source))
        λ r. (z : ℕ) × (rest : List ℕ) × (r ≡ source ++ z ∷ rest) × (length r ≡ length block)
unfolding memcpy
strncpy-copied block source more longer clean =
    let (front, back, whole, l) = split_at (length source) block (omega arith) in
    let (z, rest, e) = first_byte back (omega (arith, ap length whole, length-append front back)) in
    let copied = memcpy-exact [] source more front (z ∷ rest) l in
    (
      source ++ z ∷ rest,
      strncpy-put_bytes block source more clean
          ∙ subst (λ b. put_bytes b (source ++ more) (length source) ≡ ok (source ++ z ∷ rest))
              (sym (whole ∙ ap (λ t. front ++ t) e)) copied,
      (
        z,
        rest,
        refl,
        omega (
          arith,
          ap length (whole ∙ ap (λ t. front ++ t) e),
          length-append front (z ∷ rest),
          length-append source (z ∷ rest),
        ),
      ),
    )

-- The end mark written behind the copied bytes.
pub put_byte-marked :
    (source rest : List ℕ) (z : ℕ)
    → put_byte (source ++ z ∷ rest) (length source) 0 ≡ ok (source ++ 0 ∷ rest)
put_byte-marked source rest z = memcpy-exact source (0 ∷ []) [] (z ∷ []) rest refl

module _ (malloc : ℕ → List ℕ) (sized : (n : ℕ) → length (malloc n) ≡ n) where
  fresh_buffer :
      (n : ℕ) → (mem : List ℕ) × (put_byte (malloc (n + 1)) 0 0 ≡ ok mem) × (length mem ≡ n + 1)
  unfolding memcpy put_bytes
  fresh_buffer n =
      let (x, rest, whole) = first_byte (malloc (n + 1)) (omega (arith, sized (n + 1))) in
      (0 ∷ rest, rw whole refl, omega (arith, sized (n + 1), ap length whole))

  copy_buffer-room :
      (buf : List ℕ) (size n : ℕ)
      → length buf ≡ size
      → Returns (copy_buffer malloc (some buf) size n) λ r. (length r.0 ≡ r.1) × (n < r.1)
  unfolding copy_buffer
  copy_buffer-room buf size n l = elim (Bool-cases (size == 0 || ltb (size - 1) n)) [
    | inl small ↦
        (let (mem, run, sized') = fresh_buffer n in
          ((mem, n + 1), rw (small, run) refl, (sized', omega arith)))
    | inr fits ↦ ((buf, size), rw fits refl, (l, ground (arith, fits)))
  ]

  -- The buffer of `_safe_strncpy` has the bytes and room for an end mark.
  pub safe_strncpy-copied :
      (buf source more : List ℕ) (size : ℕ)
      → length buf ≡ size
      → NoMark source
      → Returns
          (safe_strncpy malloc (some buf) size (source ++ more) (length source))
          λ r. (z : ℕ) × (rest : List ℕ) × (r.0 ≡ source ++ z ∷ rest) × (length r.0 ≡ r.1)
  unfolding safe_strncpy
  safe_strncpy-copied buf source more size l clean =
      let (room, run, (sized', longer)) = copy_buffer-room buf size (length source) l in
      let (mem, run', (z, rest, e, l')) =
        strncpy-copied room.0 source more (omega (arith, sized', longer)) clean in
      ((mem, room.1), rw (run, run') refl, (z, rest, e, l' ∙ sized'))

  module _ (vsnprintf : List ℕ → ℕ → List ℕ → VaArg → List ℕ × ℕ)
      (printed : List ℕ → VaArg → List ℕ) (source : List ℕ) (arg : VaArg)
      (documented : (buf more : List ℕ)
        → length buf < 2147483648
        → Printed buf
            (printed source arg)
            (vsnprintf buf (length buf) (source ++ 0 ∷ more) arg)) where
    -- A round of the loop: the text is in the buffer, or the buffer is too small for it.
    round_cases :
        (buf : List ℕ) (size : ℕ) (more : List ℕ)
        → IsBuffer buf size
        → let written = vsnprintf buf size (source ++ 0 ∷ more) arg in
          ((too_small written.1 size ≡ ok true) × (size ≤ length (printed source arg) + 1))
          ⊎ ((too_small written.1 size ≡ ok false)
              × ((rest : List ℕ) × (written.0 ≡ printed source arg ++ 0 ∷ rest)
                  × (length written.0 ≡ size)))
    round_cases buf size more (l, some_room, fits) =
        let len = length (printed source arg) in
        let (said, left) =
          subst (λ k. Printed buf (printed source arg) (vsnprintf buf k (source ++ 0 ∷ more) arg)) l
            (documented buf more (omega (arith, l, fits))) in
        let test =
          too_small_lem (vsnprintf buf size (source ++ 0 ∷ more) arg).1 size some_room fits in
        elim (Bool-cases (leb (size - 1) len)) [
          | inl small ↦ inl (test ∙ rw (said, small) refl, ground (arith, small))
          | inr done ↦
              (let (rest, e, l') = left (ground (arith, done, l)) in
                inr (test ∙ rw (said, done) refl, (rest, e, l' ∙ l)))
        ]

    -- Doubling ends with the text in the buffer, its end mark behind it.
    sprintf_loop-printed :
        (n : ℕ) (buf : List ℕ) (size : ℕ) (more : List ℕ)
        → IsBuffer buf size
        → length (printed source arg) + 1 < 1073741824
        → length (printed source arg) + 1 < size * 2 ^ n
        → Returns
            (sprintf_loop malloc vsnprintf (suc n) buf size (source ++ 0 ∷ more) arg)
            λ r. (rest : List ℕ) × (r.0 ≡ printed source arg ++ 0 ∷ rest) × IsBuffer r.0 r.1
    unfolding sprintf_loop
    sprintf_loop-printed zero buf size more is short enough = elim (round_cases buf size more is) [
      | inl (small, h) ↦ absurd (omega arith)
      | inr (large, (rest, e, l)) ↦ (_, rw large refl, (rest, e, (l, is.1, is.2)))
    ]
    sprintf_loop-printed (suc n) buf size more is short enough =
        elim (round_cases buf size more is) [
          | inl (small, h) ↦
              (let (r, run, post) =
                  sprintf_loop-printed n (malloc (size * 2)) (size * 2) more
                    (sized (size * 2), omega (arith, is.1), omega (arith, h, short)) short
                    (omega (arith, enough, ap (λ (t : ℕ). size * t) (pow_step 2 n))) in
                (r, rw small run, post))
          | inr (large, (rest, e, l)) ↦ (_, rw large refl, (rest, e, (l, is.1, is.2)))
        ]

    pub safe_sprintf-printed :
        (buf : List ℕ) (size : ℕ) (more : List ℕ)
        → IsBuffer buf size
        → length (printed source arg) + 1 < 1073741824
        → Returns
            (safe_sprintf malloc vsnprintf (some buf) size (source ++ 0 ∷ more) arg)
            λ r. (rest : List ℕ) × (r.0 ≡ printed source arg ++ 0 ∷ rest) × IsBuffer r.0 r.1
    unfolding safe_sprintf
    safe_sprintf-printed buf size more is short =
        let some_room : (size == 0) ≡ false = ground (arith, is.1) in
        let (r, run, post) =
          sprintf_loop-printed 31 buf size more is short (omega (arith, is.1, short)) in
        (r, rw some_room run, post)
