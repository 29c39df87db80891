-- ===== src/Strings/Room.antt =====
-- The block of a string of src/cfustring.c: making room in it, and writing behind the text.
use libcfu.Common.{
  ℕ, suc, ◌+◌, ◌-◌, ◌≤◌, ◌≡◌, refl, sym, ap, ◌∙◌, subst, ◌⊎◌, inl, inr, none, some, List, [], ◌∷◌,
  ◌++◌, append_assoc, arith, ltb, Bool-cases, length, length-append, ok, Returns,
}
use libcfu.Strings.Memory.{put_bytes, memcpy, put_byte, memcpy-exact, split_at}
use libcfu.Strings.Buffer.{CfuString, cfu_string, first_block, grown_size, make_room}

-- A string with a block: the text, its end mark and the bytes behind.
abbrev pub block : (text rest : List ℕ) → CfuString
block text rest =
    cfu_string (length (text ++ 0 ∷ rest)) (suc (length text)) (some (text ++ 0 ∷ rest))

abbrev pub IsText : CfuString → List ℕ → Type 0
IsText b text =
    ((b ≡ cfu_string 0 0 none) × (text ≡ [])) ⊎ ((rest : List ℕ) × (b ≡ block text rest))

pub first_byte : (xs : List ℕ) → 1 ≤ length xs → (x : ℕ) × (rest : List ℕ) × (xs ≡ x ∷ rest)
first_byte [] h = absurd (omega arith)
first_byte (x ∷ rest) h = (x, rest, refl)

-- The text and its end mark copied to the front of a block.
pub copy_text :
    (text rest old behind : List ℕ)
    → length old ≡ suc (length text)
    → memcpy (old ++ behind) 0 (text ++ 0 ∷ rest) (suc (length text)) ≡ ok (text ++ 0 ∷ behind)
copy_text text rest old behind l =
    let marked : length (text ++ 0 ∷ []) ≡ suc (length text) =
      omega (arith, length-append text (0 ∷ [])) in
    let copied = memcpy-exact [] (text ++ 0 ∷ []) rest old behind (omega (arith, marked, l)) in
    subst (λ n. memcpy (old ++ behind) 0 (text ++ 0 ∷ rest) n ≡ ok (text ++ 0 ∷ behind)) marked
      (subst (λ m. memcpy (old ++ behind) 0 m (length (text ++ 0 ∷ [])) ≡ ok (text ++ 0 ∷ behind))
        (append_assoc text (0 ∷ []) rest) (copied ∙ ap ok (append_assoc text (0 ∷ []) behind)))

module _ (malloc : ℕ → List ℕ) (sized : (n : ℕ) → length (malloc n) ≡ n) where
  -- A block with the text in front.
  abbrev pub HasRoom : List ℕ → ℕ → CfuString × List ℕ → Type 0
  HasRoom text len r =
      (rest : List ℕ) × (len ≤ length rest) × (r ≡ (block text rest, text ++ 0 ∷ rest))

  pub make_room-HasRoom :
      (text rest : List ℕ) (len : ℕ)
      → Returns (make_room malloc (block text rest) (text ++ 0 ∷ rest) len) (HasRoom text len)
  unfolding make_room
  make_room-HasRoom text rest len =
      let b = block text rest in
      let size = grown_size malloc b len in
      let total = length-append text (0 ∷ rest) in
      elim (Bool-cases (ltb b.max_size (b.used_size + len + 1))) [
        | inr fits ↦ (_, rw fits, (rest, ground (arith, total, fits), refl))
        | inl small ↦
            (let enough : suc (length text) + len + 1 ≤ size = ground arith in
              let (old, behind, whole, l) =
                split_at (suc (length text)) (malloc size) (omega (arith, sized size)) in
              let moved : memcpy (malloc size) 0 (text ++ 0 ∷ rest) (suc (length text))
                  ≡ ok (text ++ 0 ∷ behind) =
                subst
                  (λ m. memcpy m 0 (text ++ 0 ∷ rest) (suc (length text)) ≡ ok (text ++ 0 ∷ behind))
                  (sym whole) (copy_text text rest old behind l) in
              let all : size ≡ length (text ++ 0 ∷ behind) = omega (
                arith,
                length-append text (0 ∷ behind),
                length-append old behind,
                l,
                sized size,
                ap length whole,
              ) in
              (
                _,
                rw (small, moved),
                (
                  behind,
                  omega (arith, enough, all, length-append text (0 ∷ behind)),
                  ap
                      (λ n. (
                        cfu_string n (suc (length text)) (some (text ++ 0 ∷ behind)),
                        text ++ 0 ∷ behind,
                      ))
                      all,
                ),
              ))
      ]

  -- The copy of the new bytes over the end mark, and the new end mark.
  place_at :
      (text word more old behind : List ℕ) (z : ℕ)
      → length old ≡ length word
      → (mem : List ℕ) × (memcpy
            (text ++ (old ++ z ∷ behind))
            (length text)
            (word ++ more)
            (length word)
          ≡ ok mem)
        × (put_byte mem (suc (length text) + length word - 1) 0 ≡ ok ((text ++ word) ++ 0 ∷ behind))
  place_at text word more old behind z lo =
      let at : suc (length text) + length word - 1 ≡ length (text ++ word) =
        omega (arith, length-append text word) in
      let marked = memcpy-exact (text ++ word) (0 ∷ []) [] (z ∷ []) behind refl in
      (
        text ++ (word ++ z ∷ behind),
        memcpy-exact text word more old (z ∷ behind) lo,
        rw at (
            ap (λ m. memcpy m (length (text ++ word)) (0 ∷ []) 1)
              (sym (append_assoc text word (z ∷ behind)))
            ∙ marked),
      )

  -- The copy of the new bytes over the end mark, and the new end mark.
  pub place :
      (text rest word more : List ℕ)
      → length word ≤ length rest
      → (mem : List ℕ) × (behind : List ℕ) × (memcpy
            (text ++ 0 ∷ rest)
            (length text)
            (word ++ more)
            (length word)
          ≡ ok mem)
        × (put_byte mem (suc (length text) + length word - 1) 0 ≡ ok ((text ++ word) ++ 0 ∷ behind))
        × (length (text ++ 0 ∷ rest) ≡ length ((text ++ word) ++ 0 ∷ behind))
  place text rest word more l =
      let (old, back, whole, lo) = split_at (length word) (0 ∷ rest) (omega arith) in
      let left = length-append old back in
      let (z, behind, e) = first_byte back (omega (arith, left, lo, ap length whole)) in
      let whole' : 0 ∷ rest ≡ old ++ z ∷ behind = whole ∙ ap (λ t. old ++ t) e in
      let (mem, copied, marked) = place_at text word more old behind z lo in
      (
        mem,
        behind,
        subst (λ m. memcpy (text ++ m) (length text) (word ++ more) (length word) ≡ ok mem)
            (sym whole') copied,
        marked,
        omega (
          arith,
          ap length whole',
          lo,
          length-append old (z ∷ behind),
          length-append text (0 ∷ rest),
          length-append text word,
          length-append (text ++ word) (0 ∷ behind),
        ),
      )

  pub first_block-block :
      (b : CfuString) (text : List ℕ) (len : ℕ)
      → IsText b text
      → Returns
          (first_block malloc b len)
          λ r. (rest : List ℕ) × (r ≡ (block text rest, text ++ 0 ∷ rest))
  unfolding first_block memcpy put_bytes
  first_block-block b text len (inr (rest, e)) =
      ((block text rest, text ++ 0 ∷ rest), rw e, (rest, refl))
  first_block-block b text len (inl (e, nothing)) =
      let (x, rest, whole) = first_byte (malloc (len + 1)) (omega (arith, sized (len + 1))) in
      let size : len + 1 ≡ suc (length rest) = omega (arith, sized (len + 1), ap length whole) in
      (
        (cfu_string (len + 1) 1 (some (0 ∷ rest)), 0 ∷ rest),
        rw (e, whole),
        (rest, rw nothing (ap (λ n. (cfu_string n 1 (some (0 ∷ rest)), 0 ∷ rest)) size)),
      )
