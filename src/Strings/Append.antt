-- ===== src/Strings/Append.antt =====
-- What `cfustring_append` and its relatives of src/cfustring.c do to the text that a string holds.
use libcfu.Common.{
  ℕ, zero, suc, ◌+◌, ◌≡◌, refl, ap, ◌∙◌, subst, ◌≢◌, inl, inr, false, none, some, List, [], ◌∷◌,
  ◌++◌, append-nil, arith, ◌==◌, if◌then◌else◌, length, replicate, length-append, length-replicate,
  ok, Returns,
}
use libcfu.Strings.Memory.{put_bytes, memcpy, NoMark, strlen-marked}
use libcfu.Strings.Buffer.{
  count_loop, CfuString, cfu_string, clear, append_bytes, append_n, append, dup, get_buffer_copy,
}
use libcfu.Strings.Room.{block, IsText, copy_text, make_room-HasRoom, place, first_block-block}

count_loop-all : (n c : ℕ) (s : List ℕ) (k : ℕ) → c ≢ 0 → count_loop n (c ∷ s) k ≡ ok (k + n)
unfolding count_loop
count_loop-all zero c s k mark = ap ok (omega arith)
count_loop-all (suc n) c s k mark =
    let more : (c == 0) ≡ false = ground arith in
    rw (more, count_loop-all n c s (k + 1) mark) (ap ok (omega arith))

pub clear-IsText :
    (b : CfuString) (text : List ℕ) → IsText b text → Returns (clear b) λ b'. IsText b' []
unfolding clear memcpy put_bytes
clear-IsText b text (inl (e, nothing)) = (cfu_string 0 0 none, rw e, inl (refl, refl))
clear-IsText b [] (inr (rest, e)) = (block [] rest, rw e, inr (rest, refl))
clear-IsText b (c ∷ text) (inr (rest, e)) =
    let behind = text ++ 0 ∷ rest in (block [] behind, rw e, inr (behind, refl))

-- `cfustring_get_buffer_copy` of a string that holds a text gives the text with its end mark, and a
-- null pointer if the string has no block.
pub get_buffer_copy-text :
    (b : CfuString) (text : List ℕ)
    → IsText b text
    → get_buffer_copy b ≡ ok (if b.used_size == 0 then none else some (text ++ 0 ∷ []))
unfolding get_buffer_copy
get_buffer_copy-text b text (inl (e, nothing)) = rw e
get_buffer_copy-text b text (inr (rest, e)) =
    let size = suc (length text) in
    let space = replicate size 0 in
    let copied = copy_text text rest space [] (length-replicate size 0) in
    let done : memcpy space 0 (text ++ 0 ∷ rest) size ≡ ok (text ++ 0 ∷ []) =
      subst (λ m. memcpy m 0 (text ++ 0 ∷ rest) size ≡ ok (text ++ 0 ∷ [])) (append-nil space)
        copied in
    let used : (size == 0) ≡ false = ground arith in rw (e, done, used)

module _ (malloc : ℕ → List ℕ) (sized : (n : ℕ) → length (malloc n) ≡ n) where
  append_bytes-IsText :
      (b : CfuString) (text word more : List ℕ)
      → IsText b text
      → Returns (append_bytes malloc b (word ++ more) (length word)) λ b'. IsText b' (text ++ word)
  unfolding append_bytes
  append_bytes-IsText b text word more is =
      let (r, run, (rest, e)) = first_block-block malloc sized b text (length word) is in
      let (s, run', (rest', l, e')) = make_room-HasRoom malloc sized text rest (length word) in
      let (mem, behind, copied, marked, size) = place malloc sized text rest' word more l in
      let used : suc (length text) + length word ≡ suc (length (text ++ word)) =
        omega (arith, length-append text word) in
      (
        cfu_string (length (text ++ 0 ∷ rest')) (suc (length text) + length word)
            (some ((text ++ word) ++ 0 ∷ behind)),
        rw (run ∙ ap ok e, run' ∙ ap ok e', copied, marked),
        inr (behind, rw (size, used)),
      )

  -- If `malloc` gives blocks of the size asked for, `cfustring_append` of a C string to a string
  -- that holds a text returns, and the string then holds the text with those bytes behind it,
  -- whatever space its block had.
  pub append-IsText :
      (b : CfuString) (text word more : List ℕ)
      → IsText b text
      → NoMark word
      → Returns (append malloc b (some (word ++ 0 ∷ more))) λ b'. IsText b' (text ++ word)
  unfolding append append_n
  append-IsText b text word more is clean =
      let (b', run, is') = append_bytes-IsText b text word (0 ∷ more) is in
      (b', rw (strlen-marked word more clean) run, is')

  -- If `malloc` gives blocks of the size asked for, `cfustring_append_n` with a size other than 0,
  -- on a string whose first byte is no end mark and that has that many bytes in memory, appends
  -- exactly that many bytes: it does not stop at an end mark among them.
  pub append_n-IsText :
      (b : CfuString) (text word more : List ℕ) (c : ℕ)
      → IsText b text
      → c ≢ 0
      → Returns
          (append_n malloc b (some (c ∷ word ++ more)) (suc (length word)))
          λ b'. IsText b' (text ++ c ∷ word)
  unfolding append_n
  append_n-IsText b text word more c is mark =
      let n = suc (length word) in
      let some_bytes : (n == 0) ≡ false = ground arith in
      let all : count_loop n (c ∷ word ++ more) 0 ≡ ok n =
        count_loop-all n c (word ++ more) 0 mark ∙ ap ok (omega arith) in
      let (b', run, is') = append_bytes-IsText b text (c ∷ word) more is in
      (b', rw (some_bytes, all) run, is')

  -- If `malloc` gives blocks of the size asked for, `cfustring_dup` of a C string returns, and the
  -- string then holds those bytes, whatever text it held.
  pub dup-IsText :
      (b : CfuString) (text word more : List ℕ)
      → IsText b text
      → NoMark word
      → Returns (dup malloc b (some (word ++ 0 ∷ more))) λ b'. IsText b' word
  unfolding dup
  dup-IsText b text word more is clean =
      let (b₁, run₁, is₁) = clear-IsText b text is in
      let (b₂, run₂, is₂) = append-IsText b₁ [] word more is₁ clean in (b₂, rw (run₁, run₂), is₂)
