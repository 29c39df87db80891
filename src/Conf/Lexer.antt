-- ===== src/Conf/Lexer.antt =====
-- The pieces of a line in src/cfuconf.c. A pointer into a line is the bytes from there on, ahead of the
-- end mark, which is none of them.
use libcfu.Common.{
  ℕ, zero, suc, ◌+◌, Bool, true, false, not, ◌&&◌, ◌||◌, Option, none, some, List, [], ◌∷◌, ◌==◌,
  if◌then◌else◌, Run, ok, hangs, ◌>>=◌,
}
use libcfu.Strings.Split.{dup_n}

abbrev pub Bytes : Type 0
Bytes = List ℕ

abbrev pub is_whitespace : ℕ → Bool
is_whitespace c = (c == b' ') || ((c == b'\t') || ((c == b'\r') || (c == b'\n')))

unfoldable pub eat_whitespace : Bytes → Bytes
eat_whitespace [] = []
eat_whitespace (c ∷ buf) =
    let rest = eat_whitespace buf in if is_whitespace c then rest else c ∷ buf

-- Whether the loops over a word go on at a byte.
abbrev pub in_word : ℕ → Bool
in_word c = not (c == b'>') && not (is_whitespace c)

unfoldable pub word_size : Bytes → ℕ
word_size [] = 0
word_size (c ∷ buf) = let rest = word_size buf in if in_word c then rest + 1 else 0

abbrev pub drop : ℕ → Bytes → Bytes
drop zero buf = buf
drop (suc n) [] = []
drop (suc n) (c ∷ buf) = drop n buf

-- The word at a pointer, and the pointer behind it.
abbrev pub take_word : Bytes → Option Bytes × Bytes
take_word buf = (dup_n buf (word_size buf), drop (word_size buf) buf)

-- The name, `none` for a null pointer, and the pointer moved on.
unfoldable pub get_name : Bytes → Option Bytes × Bytes
get_name buf = elim (eat_whitespace buf) [
  | [] ↦ (none, [])
  | c ∷ name ↦ if c == b'>' then (none, c ∷ name) else take_word (c ∷ name)
]

unfoldable pub get_value : Bytes → Option Bytes × Bytes
get_value buf = elim (eat_whitespace buf) [
  | [] ↦ (none, [])
  | c ∷ value ↦ if c == b'>' then (none, c ∷ value) else take_word (c ∷ value)
]

-- `*str`: the end mark is 0.
abbrev pub first_byte : Bytes → ℕ
first_byte [] = 0
first_byte (c ∷ str) = c

-- The loop of `_dup_c_str_n_drop_escape` over `n` bytes; the flag says that it is at the start.
unfoldable pub drop_loop : ℕ → (escape : ℕ) → (at_start : Bool) → (last_char : ℕ) → Bytes → Bytes
drop_loop zero escape at_start last_char str = []
drop_loop (suc n) escape at_start last_char [] = []
drop_loop (suc n) escape at_start last_char (c ∷ str) =
    let rest = drop_loop n escape false c str in
    let doubled = first_byte str == escape in
    if (c == escape) && (not (last_char == escape) || at_start)
    then (if at_start && doubled then c ∷ rest else rest)
    else c ∷ rest

unfoldable pub dup_n_drop_escape : Bytes → ℕ → ℕ → Option Bytes
dup_n_drop_escape str n escape =
    if n == 0 then none else some (drop_loop n escape true (first_byte str) str)

-- The loops of `_get_quoted_value`: the size of what is quoted and whether a backslash was met, `none`
-- when the line ends first.
unfoldable pub quoted_size :
    (quote last_char : ℕ) → (found_escape : Bool) → Bytes → Option (ℕ × Bool)
quoted_size quote last_char found_escape [] = none
quoted_size quote last_char found_escape (c ∷ ptr) =
    let quoted = c == quote in
    let found = if quoted then true else found_escape || (c == b'\\') in
    let next = quoted_size quote (if quoted then last_char else c) found ptr in
    if (c == quote) && not (last_char == b'\\')
    then some (0, found_escape)
    else elim next [ none ↦ none | some r ↦ some (r.0 + 1, r.1) ]

unfoldable pub get_quoted_value : Bytes → (quote : ℕ) → Option Bytes × Bytes
get_quoted_value buf quote = elim (quoted_size quote (first_byte buf) false buf) [
  | none ↦ (none, buf)
  | some r ↦ (if r.1 then dup_n_drop_escape buf r.0 b'\\' else dup_n buf r.0, drop r.0 buf)
]

abbrev pub is_quote : ℕ → Bool
is_quote c = (c == b'"') || (c == b'\'')

unfoldable pub get_next_value : Bytes → Option Bytes × Bytes
get_next_value buf = elim (eat_whitespace buf) [
  | [] ↦ (none, [])
  | c ∷ value ↦
      if c == b'>'
      then (none, c ∷ value)
      else if is_quote c
      then get_quoted_value value c
      else take_word (c ∷ value)
]

-- `if (*ptr) { ptr++; ptr = _eat_whitespace(ptr); }`
abbrev pub skip_one : Bytes → Bytes
skip_one [] = []
skip_one (c ∷ ptr) = eat_whitespace ptr

-- The loop over the values of a directive; fuel stands for the bytes left.
unfoldable pub get_values : ℕ → Bytes → Run (List Bytes)
get_values zero ptr = hangs
get_values (suc k) ptr =
    let r = get_next_value ptr in
    let rest = get_values k (skip_one r.1) in
    elim r.0 [ none ↦ ok [] | some value ↦ rest >>= (λ values. ok (value ∷ values)) ]
