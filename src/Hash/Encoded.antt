-- ===== src/Hash/Encoded.antt =====
-- What `cfuhash_bencode_strings` of src/cfuhash.c writes.
use libcfu.Common.{
  ℕ, ◌≡◌, refl, sym, ap, ◌∙◌, subst, ◌≢◌, inr, true, false, Option, none, some, List, [], ◌∷◌, ◌++◌,
  map, append-nil, append_assoc, arith, ◌==◌, if◌then◌else◌, length, replicate, ok, ◌>>=◌, Returns,
}
use mathlib.Core.List.{flatten}
use libcfu.Strings.Memory.{NoMark, strlen-marked}
use libcfu.Strings.Buffer.{CfuString, new_with_initial_size}
use libcfu.Strings.Room.{IsText}
use libcfu.Strings.Append.{append-IsText, get_buffer_copy-text}
use libcfu.Strings.Plain.{text-has_block}
use libcfu.Hash.Key.{is_key, key_bytes}
use libcfu.Hash.Chain.{Entry, named}
use libcfu.Hash.View.{flatten-lookup}
use libcfu.Hash.Table.{Table, null, ignores_case}
use libcfu.Hash.Access.{get, read_key, unknown_size, hand_out}
use libcfu.Hash.Walk.{keys, listed_key}
use libcfu.Hash.Valid.{IsValid, entry_at, name_in}
use libcfu.Hash.Laws.{get_data-hand_out}
use libcfu.Hash.Listing.{keys_data-flatten}
use libcfu.Hash.Bencode.{string_length, add_string, add_keys, bencode_strings}
use libcfu.Hash.Found.{read_key-marked, is_key-marked, Found, Found-all}

-- A C string with the digits of its length, as the code writes it.
abbrev pub with_length : (digits : ℕ → List ℕ) → List ℕ → List ℕ
with_length digits s = digits (length s) ++ s

module _ (malloc : ℕ → List ℕ) (sized : (n : ℕ) → length (malloc n) ≡ n)
    (string_at : ℕ → Option (List ℕ)) (digits : ℕ → List ℕ)
    (unmarked : (n : ℕ) → NoMark (digits n)) where
  -- What `snprintf` leaves, with its end mark.
  abbrev number : ℕ → List ℕ
  number n = digits n ++ 0 ∷ []

  add_string-IsText :
      (b : CfuString) (text s more : List ℕ)
      → IsText b text
      → NoMark s
      → Returns
          (add_string malloc string_at number b (some (s ++ 0 ∷ more)))
          λ b'. IsText b' (text ++ with_length digits s)
  unfolding add_string string_length
  add_string-IsText b text s more is clean =
      let n = length s in
      let (b₁, run₁, is₁) = append-IsText malloc sized b text (digits n) [] is (unmarked n) in
      let (b₂, run₂, is₂) = append-IsText malloc sized b₁ (text ++ digits n) s more is₁ clean in
      let long = strlen-marked s more clean in
      (b₂, rw (long, run₁) run₂, subst (IsText b₂) (append_assoc text (digits n) s) is₂)

-- The keys and the data of entries, as C strings.
module _ (string_at : ℕ → Option (List ℕ)) where
  abbrev pub Encodes : List Entry → List (List ℕ × List ℕ) → Type 0
  Encodes [] [] = Unit
  Encodes [] (kv ∷ strings) = ⊥
  Encodes (e ∷ es) [] = ⊥
  Encodes (e ∷ es) ((k, v) ∷ strings) =
      ((e.key ≡ some (k ++ 0 ∷ [])) × NoMark k)
      × ((more : List ℕ) × (e.value ≢ null) × (string_at e.value ≡ some (v ++ 0 ∷ more)) × NoMark v)
      × Encodes es strings

-- What is written for them.
module _ (digits : ℕ → List ℕ) where
  abbrev pub encoded : List (List ℕ × List ℕ) → List ℕ
  encoded [] = []
  encoded ((k, v) ∷ strings) = with_length digits k ++ (with_length digits v ++ encoded strings)

module _ (malloc : ℕ → List ℕ) (sized : (n : ℕ) → length (malloc n) ≡ n)
    (string_at : ℕ → Option (List ℕ)) (digits : ℕ → List ℕ) (unmarked : (n : ℕ) → NoMark (digits n))
    {F : Type 0} (ht : Table F) (valid : IsValid ht) where
  -- The data of an entry under its key.
  get-Found :
      (e : Entry) (k : List ℕ)
      → e.key ≡ some (k ++ 0 ∷ [])
      → NoMark k
      → entry_at ht (name_in ht e.key) ≡ some e
      → get (some ht) (some (k ++ 0 ∷ [])) ≡ ok e.value
  unfolding get hand_out
  get-Found e k key clean here =
      let good = is_key-marked (ignores_case ht) k clean in
      let read = read_key-marked k clean in
      let named : is_key (ignores_case ht) (read_key (some (k ++ 0 ∷ [])) unknown_size) ≡ true =
        ap (is_key (ignores_case ht)) read ∙ good in
      let found =
        get_data-hand_out ht (some (k ++ 0 ∷ [])) unknown_size (some null) none valid named in
      let at : entry_at ht (name_in ht (read_key (some (k ++ 0 ∷ [])) unknown_size)) ≡ some e =
        ap (λ key. entry_at ht (name_in ht key)) (read ∙ sym key) ∙ here in
      rw (found, at) refl

  add_keys-encoded :
      (es : List Entry) (strings : List (List ℕ × List ℕ)) (b : CfuString) (text : List ℕ)
      → IsText b text
      → Found (ignores_case ht) (flatten ht.buckets) es
      → Encodes string_at es strings
      → Returns
          (add_keys malloc string_at (λ n. digits n ++ 0 ∷ []) ht (map (listed_key false) es) b)
          λ b'. IsText b' (text ++ encoded digits strings)
  unfolding add_keys
  add_keys-encoded [] [] b text is here strings = (b, refl, rw (append-nil text) is)
  add_keys-encoded [] (kv ∷ more) b text is here strings = elim strings [ ]
  add_keys-encoded (e ∷ es) [] b text is here strings = elim strings [ ]
  add_keys-encoded (e ∷ es) ((k, v) ∷ more) b text is (found, here)
        ((key, clean), (behind, nonnull, at, clean'), strings) =
      let (b₁, run₁, is₁) =
        add_string-IsText malloc sized string_at digits unmarked b text k [] is clean in
      let (b₂, run₂, is₂) =
        add_string-IsText malloc sized string_at digits unmarked b₁ (text ++ with_length digits k) v
          behind is₁ clean' in
      let (b₃, run₃, is₃) =
        add_keys-encoded es more b₂ ((text ++ with_length digits k) ++ with_length digits v) is₂
          here strings in
      let by_name =
        (flatten-lookup (ignores_case ht) ht.hash_func ht.buckets (name_in ht e.key)
          valid.placed).0 in
      let got = get-Found e k key clean (sym by_name ∙ found) in
      let some_data : (e.value == null) ≡ false = ground (arith, nonnull) in
      let number = λ (n : ℕ). digits n ++ 0 ∷ [] in
      let A = with_length digits k in
      let B = with_length digits v in
      let R = encoded digits more in
      let round = λ (key : List ℕ). add_string malloc string_at number b (some key) >>= λ b'.
      get (some ht) (some key) >>= λ val.
      add_string malloc string_at number b' (if val == null then none else string_at val) >>= λ b''.
      add_keys malloc string_at number ht (map (listed_key false) es) b'' in
      let done : round (k ++ 0 ∷ []) ≡ ok b₃ = rw (run₁, got, some_data, at, run₂) run₃ in
      (
        b₃,
        ap round (ap key_bytes key) ∙ done,
        subst (IsText b₃) (append_assoc (text ++ A) B R ∙ append_assoc text A (B ++ R)) is₃,
      )

  -- On a valid table whose keys and data are C strings, if `malloc` gives blocks of the size asked for
  -- and `snprintf` writes a length with no end mark among its bytes, `cfuhash_bencode_strings`
  -- returns a C string: a `d`, then for each entry, in the order of the buckets, the key and then
  -- that entry's own data, each behind its length as `snprintf` writes it, and an `e`.
  pub bencode_strings-encoded :
      (strings : List (List ℕ × List ℕ))
      → Encodes string_at (flatten ht.buckets) strings
      → bencode_strings malloc string_at (λ n. digits n ++ 0 ∷ []) ht
        ≡ ok (some (b'd' ∷ ((encoded digits strings ++ b'e' ∷ []) ++ 0 ∷ [])))
  unfolding bencode_strings keys new_with_initial_size
  bencode_strings-encoded strings pairs =
      let out = encoded digits strings in
      let start : IsText (new_with_initial_size 16) [] = inr (replicate 15 0, refl) in
      let (b₁, run₁, is₁) =
        append-IsText malloc sized (new_with_initial_size 16) [] (b'd' ∷ []) [] start
          (omega arith) in
      let (listed, run₂, (all, counted, named)) = keys_data-flatten ht false false valid in
      let few = λ (q : List ℕ).
        (flatten-lookup (ignores_case ht) ht.hash_func ht.buckets q valid.placed).1 in
      let (b₃, run₃, is₃) =
        add_keys-encoded (flatten ht.buckets) strings b₁ (b'd' ∷ []) is₁
          (Found-all (ignores_case ht) (flatten ht.buckets) few) pairs in
      let (b₄, run₄, is₄) =
        append-IsText malloc sized b₃ (b'd' ∷ out) (b'e' ∷ []) [] is₃ (omega arith) in
      let copied = get_buffer_copy-text b₄ (b'd' ∷ (out ++ b'e' ∷ [])) is₄ in
      let block = text-has_block b₄ (b'd' ∷ (out ++ b'e' ∷ [])) is₄ (omega arith) in
      rw (run₁, run₂, all, run₃, run₄, copied, block) refl
