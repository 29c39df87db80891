-- ===== src/Conf/Words.antt =====
-- The words of a line of src/cfuconf.c, read back from a line that is made of them.
use libcfu.Common.{
  ℕ, zero, suc, ◌≤◌, ◌<◌, ◌≡◌, refl, true, false, some, List, [], ◌∷◌, ◌++◌, arith, ◌==◌, length,
  length-append, ok,
}
use libcfu.Strings.Piece.{take-front}
use libcfu.Strings.Split.{dup_n}
use libcfu.Conf.Lexer.{
  Bytes, eat_whitespace, in_word, word_size, drop, take_word, get_name, get_value, is_quote,
  get_next_value, skip_one, get_values,
}

-- A byte at which a word goes on.
abbrev pub AllIn : Bytes → Type 0
AllIn [] = Unit
AllIn (c ∷ w) = (in_word c ≡ true) × AllIn w

-- At least one byte, none of them whitespace or `>`.
pub record IsWord (w : Bytes) : Type 0 where
  pub some_bytes : 1 ≤ length w
  pub inside : AllIn w

-- No byte, or one that ends a word, comes first.
abbrev pub Ends : Bytes → Type 0
Ends [] = Unit
Ends (c ∷ r) = in_word c ≡ false

pub eat-word : (w r : Bytes) → IsWord w → eat_whitespace (w ++ r) ≡ w ++ r
unfolding eat_whitespace
eat-word [] r h = absurd (omega (arith, h.some_bytes))
eat-word (c ∷ w) r h = ground (arith, h.inside)

word_size-word : (w r : Bytes) → AllIn w → Ends r → word_size (w ++ r) ≡ length w
unfolding word_size
word_size-word [] [] h e = refl
word_size-word [] (c ∷ r) h e = rw e
word_size-word (c ∷ w) r h e = rw (h.0, word_size-word w r h.1 e) (omega arith)

drop-front : (w r : Bytes) → drop (length w) (w ++ r) ≡ r
drop-front [] r = refl
drop-front (c ∷ w) r = drop-front w r

pub take_word-word : (w r : Bytes) → IsWord w → Ends r → take_word (w ++ r) ≡ (some w, r)
unfolding dup_n
take_word-word w r h e =
    let some_bytes : (length w == 0) ≡ false = ground (arith, h.some_bytes) in
    let size = word_size-word w r h.inside e in
    rw (take_word, dup_n, size, some_bytes, take-front w r, drop-front w r)

pub get_name-word : (w r : Bytes) → IsWord w → Ends r → get_name (w ++ r) ≡ (some w, r)
unfolding get_name
get_name-word [] r h e = absurd (omega (arith, h.some_bytes))
get_name-word (c ∷ w) r h e =
    let open_end : (c == b'>') ≡ false = ground (arith, h.inside) in
    rw (get_name, eat-word (c ∷ w) r h, open_end) (take_word-word (c ∷ w) r h e)

pub get_value-word : (w r : Bytes) → IsWord w → Ends r → get_value (w ++ r) ≡ (some w, r)
unfolding get_value
get_value-word [] r h e = absurd (omega (arith, h.some_bytes))
get_value-word (c ∷ w) r h e =
    let open_end : (c == b'>') ≡ false = ground (arith, h.inside) in
    rw (get_value, eat-word (c ∷ w) r h, open_end) (take_word-word (c ∷ w) r h e)

-- A word that does not start with a quote.
abbrev pub Unquoted : Bytes → Type 0
Unquoted [] = Unit
Unquoted (c ∷ w) = is_quote c ≡ false

pub get_next_value-word :
    (w r : Bytes) → IsWord w → Unquoted w → Ends r → get_next_value (w ++ r) ≡ (some w, r)
unfolding get_next_value
get_next_value-word [] r h u e = absurd (omega (arith, h.some_bytes))
get_next_value-word (c ∷ w) r h u e =
    let open_end : (c == b'>') ≡ false = ground (arith, h.inside) in
    rw (get_next_value, eat-word (c ∷ w) r h, open_end, u) (take_word-word (c ∷ w) r h e)

-- Values with a space ahead of each.
abbrev pub spaced : List Bytes → Bytes
spaced [] = []
spaced (w ∷ ws) = b' ' ∷ (w ++ spaced ws)

abbrev pub AllValues : List Bytes → Type 0
AllValues [] = Unit
AllValues (w ∷ ws) = IsWord w × Unquoted w × AllValues ws

pub spaced-Ends : (ws : List Bytes) → Ends (spaced ws)
spaced-Ends [] = tt
spaced-Ends (w ∷ ws) = refl

-- What a line has behind the space ahead of the values.
abbrev pub args : List Bytes → Bytes
args [] = []
args (w ∷ ws) = w ++ spaced ws

pub eat-spaced : (ws : List Bytes) → AllValues ws → eat_whitespace (spaced ws) ≡ args ws
unfolding eat_whitespace
eat-spaced [] all = refl
eat-spaced (w ∷ ws) all = eat-word w (spaced ws) all.0

skip_one-spaced : (ws : List Bytes) → AllValues ws → skip_one (spaced ws) ≡ args ws
skip_one-spaced [] all = refl
skip_one-spaced (w ∷ ws) all = eat-word w (spaced ws) all.0

shorter : (ws : List Bytes) → length (args ws) ≤ length (spaced ws)
shorter [] = omega arith
shorter (w ∷ ws) = omega arith

pub get_values-args :
    (ws : List Bytes) (k : ℕ) → AllValues ws → length (args ws) < k → get_values k (args ws) ≡ ok ws
unfolding get_values
get_values-args ws zero all l = absurd (omega arith)
get_values-args [] (suc k) all l = unfold get_next_value eat_whitespace in refl
get_values-args (w ∷ ws) (suc k) all l =
    let step = get_next_value-word w (spaced ws) all.0 all.1 (spaced-Ends ws) in
    let rest =
      get_values-args ws k all.2 (omega (arith, length-append w (spaced ws), shorter ws)) in
    rw (get_values, step, step, skip_one-spaced ws all.2, rest)
