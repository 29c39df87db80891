-- ===== src/Opt/Column.antt =====
-- The left column of the help text of src/cfuopt.c: the names of an option, joined with commas.
use libcfu.Common.{
  ℕ, ◌+◌, ◌<◌, ◌≡◌, refl, ap, ◌∙◌, subst, inl, true, Option, none, some, List, [], ◌∷◌, ◌++◌,
  append-nil, append_assoc, arith, ltb, if◌then◌else◌, length, ok, ◌>>=◌, Returns,
}
use libcfu.Strings.Memory.{NoMark}
use libcfu.Strings.Buffer.{CfuString, cfu_string, append, get_buffer_copy, new_with_initial_size}
use libcfu.Strings.Buffer as Buffer
use libcfu.Strings.Room.{IsText}
use libcfu.Strings.Append.{append-IsText, get_buffer_copy-text}
use libcfu.Strings.Plain.{text-has_block}
use libcfu.List.Join.{Stuff, join_foreach_fn, delimited, joined}
use libcfu.Conf.Lexer.{Bytes}
use libcfu.Opt.Context.{Entry, names_of}
use libcfu.Opt.Help.{c_str, description_of, Desc, join_strings, join}
use libcfu.Opt.Shown.{IsShort, IsShortArg, AreShort, name_shown, names_shown, c_strs}

pub NoMark-append : (s t : List ℕ) → NoMark s → NoMark t → NoMark (s ++ t)
NoMark-append [] t h h' = h'
NoMark-append (c ∷ s) t h h' = (h.0, NoMark-append s t h.1 h')

abbrev pub AreUnmarked : List Bytes → Type 0
AreUnmarked [] = Unit
AreUnmarked (s ∷ strings) = NoMark s × AreUnmarked strings

module _ (malloc : ℕ → List ℕ) (sized : (n : ℕ) → length (malloc n) ≡ n) (sep : Bytes)
    (clean : NoMark sep) where
  abbrev state : ℕ → CfuString → Stuff
  state n b = record { count = n; string = ok b }

  one_more :
      (w : Bytes) (n : ℕ) (b b₁ b₂ : CfuString)
      → 0 < n
      → append malloc b (some (c_str sep)) ≡ ok b₁
      → append malloc b₁ (some (c_str w)) ≡ ok b₂
      → (join_foreach_fn malloc (λ p. some (c_str w)) (some (c_str sep)) (state n b) 0 0).0
        ≡ state (n + 1) b₂
  unfolding join_foreach_fn
  one_more w n b b₁ b₂ l run₁ run₂ =
      let counted : ltb 0 n ≡ true = ground arith in rw (counted, run₁, run₂) refl

  the_first :
      (w : Bytes) (b b₁ : CfuString)
      → append malloc b (some (c_str w)) ≡ ok b₁
      → (join_foreach_fn malloc (λ p. some (c_str w)) (some (c_str sep)) (state 0 b) 0 0).0
        ≡ state 1 b₁
  unfolding join_foreach_fn
  the_first w b b₁ run₁ = rw run₁ refl

  join_strings-delimited :
      (words : List Bytes) (n : ℕ) (b : CfuString) (text : List ℕ)
      → 0 < n
      → AreUnmarked words
      → IsText b text
      → Returns
          (join_strings malloc (c_str sep) (state n b) (c_strs words)).string
          λ b'. IsText b' (text ++ delimited sep words)
  unfolding join_strings
  join_strings-delimited [] n b text l h is = (b, refl, rw (append-nil text) is)
  join_strings-delimited (w ∷ words) n b text l (mark, h) is =
      let (b₁, run₁, is₁) = append-IsText malloc sized b text sep [] is clean in
      let (b₂, run₂, is₂) = append-IsText malloc sized b₁ (text ++ sep) w [] is₁ mark in
      let (b₃, run₃, is₃) =
        join_strings-delimited words (n + 1) b₂ ((text ++ sep) ++ w) (omega arith) h is₂ in
      let d = delimited sep words in
      (
        b₃,
        ap (λ st. (join_strings malloc (c_str sep) st (c_strs words)).string)
              (one_more w n b b₁ b₂ l run₁ run₂)
            ∙ run₃,
        subst (IsText b₃) (append_assoc (text ++ sep) w d ∙ append_assoc text sep (w ++ d)) is₃,
      )

  pub join-words :
      (words : List Bytes)
      → AreUnmarked words
      → 0 < length (joined sep words)
      → join malloc (c_str sep) (c_strs words) ≡ ok (some (c_str (joined sep words)))
  unfolding join join_strings
  join-words [] h some_text = absurd (omega (arith, some_text))
  join-words (w ∷ words) (mark, h) some_text =
      let empty : IsText Buffer.new [] =
        inl (unfold Buffer.new new_with_initial_size in refl, refl) in
      let (b₁, run₁, is₁) = append-IsText malloc sized Buffer.new [] w [] empty mark in
      let (b₂, run₂, is₂) = join_strings-delimited words 1 b₁ w (omega arith) h is₁ in
      let out = joined sep (w ∷ words) in
      let copied = get_buffer_copy-text b₂ out is₂ in
      let block = text-has_block b₂ out is₂ some_text in
      ap (λ st. (join_strings malloc (c_str sep) st (c_strs words)).string >>= get_buffer_copy)
        (the_first w Buffer.new b₁ run₁)
      ∙ ap (λ r. r >>= get_buffer_copy) run₂
      ∙ (copied ∙ ap (λ e. ok (if e then none else some (c_str out))) block)

-- The larger of two lengths.
abbrev pub larger : ℕ → ℕ → ℕ
larger a b = if ltb a b then b else a

-- The names of an option with what its argument is, as the help shows them.
abbrev pub left_column : Entry → Bytes
left_column opt =
    joined (b',' ∷ b' ' ∷ []) (names_shown (names_of opt.param_names) opt.arg_description)

-- The length of the longest.
abbrev pub longest : List Entry → ℕ
longest [] = 0
longest (opt ∷ options) = larger (length (left_column opt)) (longest options)

abbrev pub column : Entry → Desc
column opt = record { desc = some (c_str (left_column opt)); entry = opt }

abbrev pub columns : List Entry → List Desc
columns [] = []
columns (opt ∷ options) = column opt ∷ columns options

-- An option with a name and with strings that are short.
abbrev pub IsShown : Entry → Type 0
IsShown opt =
    AreShort (names_of opt.param_names)
    × IsShortArg opt.arg_description
    × IsShort (description_of opt)
    × (0 < length (left_column opt))

abbrev pub AreShown : List Entry → Type 0
AreShown [] = Unit
AreShown (opt ∷ options) = IsShown opt × AreShown options

name_shown-NoMark :
    (name : Bytes) (d : Option Bytes) → IsShort name → IsShortArg d → NoMark (name_shown name d)
name_shown-NoMark [] d h h' = tt
name_shown-NoMark (c ∷ []) none h h' = (omega arith, h.0)
name_shown-NoMark (c ∷ []) (some []) h h' = (omega arith, h.0)
name_shown-NoMark (c ∷ []) (some (x ∷ d)) h h' = (omega arith, (h.0.0, (omega arith, h'.0)))
name_shown-NoMark (c ∷ c' ∷ name) none h h' =
    NoMark-append (b'-' ∷ b'-' ∷ c ∷ c' ∷ name) [] (omega arith, (omega arith, h.0)) tt
name_shown-NoMark (c ∷ c' ∷ name) (some []) h h' =
    NoMark-append (b'-' ∷ b'-' ∷ c ∷ c' ∷ name) [] (omega arith, (omega arith, h.0)) tt
name_shown-NoMark (c ∷ c' ∷ name) (some (x ∷ d)) h h' =
    NoMark-append (b'-' ∷ b'-' ∷ c ∷ c' ∷ name) (b'=' ∷ x ∷ d) (omega arith, (omega arith, h.0))
      (omega arith, h'.0)

pub names_shown-AreUnmarked :
    (names : List Bytes) (d : Option Bytes)
    → AreShort names
    → IsShortArg d
    → AreUnmarked (names_shown names d)
names_shown-AreUnmarked [] d h h' = tt
names_shown-AreUnmarked (name ∷ names) d h h' =
    (name_shown-NoMark name d h.0 h', names_shown-AreUnmarked names d h.1 h')

delimited-NoMark :
    (sep : Bytes) (words : List Bytes)
    → NoMark sep
    → AreUnmarked words
    → NoMark (delimited sep words)
delimited-NoMark sep [] h h' = tt
delimited-NoMark sep (w ∷ words) h h' =
    NoMark-append sep (w ++ delimited sep words) h
      (NoMark-append w (delimited sep words) h'.0 (delimited-NoMark sep words h h'.1))

pub joined-NoMark :
    (sep : Bytes) (words : List Bytes) → NoMark sep → AreUnmarked words → NoMark (joined sep words)
joined-NoMark sep [] h h' = tt
joined-NoMark sep (w ∷ words) h h' =
    NoMark-append w (delimited sep words) h'.0 (delimited-NoMark sep words h h'.1)

pub left_column-NoMark : (opt : Entry) → IsShown opt → NoMark (left_column opt)
left_column-NoMark opt h =
    joined-NoMark (b',' ∷ b' ' ∷ []) (names_shown (names_of opt.param_names) opt.arg_description)
      (omega arith) (names_shown-AreUnmarked (names_of opt.param_names) opt.arg_description h.0 h.1)
