-- ===== src/Hash/Key.antt =====
-- `hash_cmp` of src/cfuhash.c and the comparisons that it calls.
use libcfu.Common.{
  ℕ, ◌≡◌, refl, Bool, true, false, not, ◌&&◌, none, some, List, [], ◌∷◌, map, arith, ◌==◌,
  if◌then◌else◌, bytes_eq, length, length-map,
}
use libcfu.Hash.Value.{Key, tolower, fold_bytes}

-- True where the C function returns a number other than zero. Both strings have `n` bytes.
unfoldable pub strncasecmp : List ℕ → List ℕ → Bool
strncasecmp [] t = false
strncasecmp (a ∷ s) [] = true
strncasecmp (a ∷ s) (b ∷ t) =
    let rest = strncasecmp s t in
    if tolower a == tolower b then (if a == 0 then false else rest) else true

unfoldable pub memcmp : List ℕ → List ℕ → Bool
memcmp s t = not (bytes_eq s t)

abbrev pub key_bytes : Key → List ℕ
key_bytes none = []
key_bytes (some bs) = bs

-- True for a difference. The test `key == he->key` is left out: one pointer and one size read the
-- same bytes.
unfoldable pub hash_cmp : Key → Key → Bool → Bool
hash_cmp key he_key ic =
    if length (key_bytes key) == length (key_bytes he_key)
    then (if ic
        then strncasecmp (key_bytes key) (key_bytes he_key)
        else memcmp (key_bytes key) (key_bytes he_key))
    else true

-- No byte but the last is NUL.
unfoldable pub nul_last : List ℕ → Bool
nul_last [] = true
nul_last (c ∷ []) = true
nul_last (c ∷ d ∷ s) = not (c == 0) && nul_last (d ∷ s)

-- A key that is not null and, where case is ignored, is one C string.
unfoldable pub is_key : Bool → Key → Bool
is_key ic none = false
is_key ic (some bs) = if ic then nul_last bs else true

abbrev pub name_of : Bool → Key → List ℕ
name_of ic key = fold_bytes ic (key_bytes key)

strncasecmp-map :
    (s t : List ℕ)
    → nul_last s ≡ true
    → length s ≡ length t
    → strncasecmp s t ≡ not (bytes_eq (map tolower s) (map tolower t))
unfolding strncasecmp bytes_eq nul_last
strncasecmp-map [] [] n e = refl
strncasecmp-map [] (b ∷ t) n e = absurd (omega arith)
strncasecmp-map (a ∷ s) [] n e = absurd (omega arith)
strncasecmp-map (a ∷ []) (b ∷ []) n e = ground arith
strncasecmp-map (a ∷ []) (b ∷ d ∷ t) n e = absurd (omega arith)
strncasecmp-map (a ∷ c ∷ s) (b ∷ []) n e = absurd (omega arith)
strncasecmp-map (a ∷ c ∷ s) (b ∷ d ∷ t) n e = ground (arith, strncasecmp-map (c ∷ s) (d ∷ t))

bytes_eq-ne_length : (s t : List ℕ) → (length s == length t) ≡ false → bytes_eq s t ≡ false
unfolding bytes_eq
bytes_eq-ne_length [] [] h = ground arith
bytes_eq-ne_length [] (b ∷ t) h = refl
bytes_eq-ne_length (a ∷ s) [] h = refl
bytes_eq-ne_length (a ∷ s) (b ∷ t) h = ground (arith, bytes_eq-ne_length s t)

-- For keys that are C strings, or bytes compared exactly, `hash_cmp` finds a match exactly where the
-- folded bytes are the same.
pub hash_cmp-name :
    (ic : Bool) (k j : Key)
    → is_key ic k ≡ true
    → hash_cmp k j ic ≡ not (bytes_eq (name_of ic k) (name_of ic j))
unfolding hash_cmp memcmp is_key
hash_cmp-name ic none j h = ground arith
hash_cmp-name true (some s) j h = ground (
  arith,
  strncasecmp-map s (key_bytes j),
  bytes_eq-ne_length (map tolower s) (map tolower (key_bytes j)),
  length-map tolower s,
  length-map tolower (key_bytes j),
)
hash_cmp-name false (some s) j h = ground (arith, bytes_eq-ne_length s (key_bytes j))
