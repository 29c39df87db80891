-- ===== src/Hash/PrettyPrint.antt =====
-- `cfuhash_pretty_print` of src/cfuhash.c, for a table whose keys and data are C strings.
use libcfu.Common.{
  true, ltb, ◌<◌, ℕ, ◌+◌, ◌≡◌, refl, sym, ap, ◌∙◌, ◌≢◌, false, Option, none, some, List, [], ◌∷◌,
  ◌++◌, append-nil, append_assoc, arith, ◌==◌, if◌then◌else◌, length, length-append, Run, ok, fault,
  ◌>>=◌, Returns,
}
use mathlib.Core.List.{flatten}
use libcfu.Strings.Memory.{NoMark}
use libcfu.Hash.Key.{key_bytes}
use libcfu.Hash.Chain.{Entry, Chain}
use libcfu.Hash.Table.{Table, null}
use libcfu.Hash.Walk.{Callback, foreach}
use libcfu.Hash.Listing.{visit_until, foreach-until}
use libcfu.Hash.Encoded.{Encodes}

-- The text of a C string; a block without an end mark is read past its end.
unfoldable pub text_of : List ℕ → Run (List ℕ)
text_of [] = fault
text_of (c ∷ s) = let rest = text_of s in if c == 0 then ok [] else (do t ← rest; ok (c ∷ t))

-- What `%s` writes; a null pointer is undefined.
abbrev pub string_text : Option (List ℕ) → Run (List ℕ)
string_text none = fault
string_text (some s) = text_of s

-- "\t\"%s\" => \"%s\",\n"
abbrev pub pair_line : (key value : List ℕ) → List ℕ
pair_line key value =
    b'\t'
    ∷ b'"'
    ∷ (key ++ b'"' ∷ b' ' ∷ b'=' ∷ b'>' ∷ b' ' ∷ b'"' ∷ (value ++ b'"' ∷ b',' ∷ b'\n' ∷ []))

-- The sum of two counts of bytes, as an `int`.
unfoldable pub int_sum : ℕ → ℕ → Run ℕ
int_sum a b = if ltb (a + b) 2147483648 then ok (a + b) else fault

abbrev pub quoted : List ℕ → List ℕ
quoted s = b'"' ∷ (s ++ b'"' ∷ [])

-- `_pretty_print_arg`, with what is written to `fp` so far.
pub record Arg : Type 0 where
  pub count : ℕ
  pub fp : List ℕ

-- The C string at a pointer.
module _ (string_at : ℕ → Option (List ℕ)) where
  -- `_pretty_print_foreach`. A callback that has faulted leaves the fault.
  unfoldable pub pretty_print_foreach : Callback (Run Arg)
  pretty_print_foreach parg e = (
    (do
      a ← parg
      key ← text_of (key_bytes e.key)
      value ← string_text (if e.value == null then none else string_at e.value)
      let line = pair_line key value
      count ← int_sum a.count (length line)
      ok (record { count = count; fp = a.fp ++ line })),
    false,
  )

  -- What is written, and the number of bytes; each `fprintf` writes all that it is asked to.
  unfoldable pub pretty_print : {F : Type 0} → Option (Table F) → Run (List ℕ × ℕ)
  pretty_print ht = do
    parg ← (foreach pretty_print_foreach ht (ok (record { count = 0; fp = b'{' ∷ b'\n' ∷ [] }))).0
    rv ← int_sum 2 parg.count
    rv' ← int_sum rv 2
    ok (parg.fp ++ b'}' ∷ b'\n' ∷ [], rv')

-- A tab, the key and the data between quotes with an arrow between them, a comma and the line's end.
abbrev pub pair_lines : List (List ℕ × List ℕ) → List ℕ
pair_lines [] = []
pair_lines ((k, v) ∷ strings) =
    (b'\t' ∷ (quoted k ++ b' ' ∷ b'=' ∷ b'>' ∷ b' ' ∷ (quoted v ++ b',' ∷ b'\n' ∷ [])))
    ++ pair_lines strings

quoted_pair :
    (k v : List ℕ)
    → pair_line k v
      ≡ b'\t' ∷ (quoted k ++ b' ' ∷ b'=' ∷ b'>' ∷ b' ' ∷ (quoted v ++ b',' ∷ b'\n' ∷ []))
quoted_pair k v =
    ap (λ t. b'\t' ∷ b'"' ∷ (k ++ b'"' ∷ b' ' ∷ b'=' ∷ b'>' ∷ b' ' ∷ b'"' ∷ t))
      (sym (append_assoc v (b'"' ∷ []) (b',' ∷ b'\n' ∷ [])))
    ∙ ap (λ t. b'\t' ∷ b'"' ∷ t)
        (sym (
          append_assoc k (b'"' ∷ []) (b' ' ∷ b'=' ∷ b'>' ∷ b' ' ∷ (quoted v ++ b',' ∷ b'\n' ∷ []))))

text_of-marked : (s more : List ℕ) → NoMark s → text_of (s ++ 0 ∷ more) ≡ ok s
unfolding text_of
text_of-marked [] more h = refl
text_of-marked (c ∷ s) more h =
    let going : (c == 0) ≡ false = ground (arith, h.0) in rw (going, text_of-marked s more h.1) refl

module _ (string_at : ℕ → Option (List ℕ)) where
  abbrev written : ℕ → List ℕ → Run Arg
  written n out = ok (record { count = n; fp = out })

  int_sum-small : (a b : ℕ) → a + b < 2147483648 → int_sum a b ≡ ok (a + b)
  unfolding int_sum
  int_sum-small a b small =
      let fits : ltb (a + b) 2147483648 ≡ true = ground (arith, small) in rw fits refl

  one_line :
      (e : Entry) (k v more : List ℕ) (n : ℕ) (out : List ℕ)
      → e.key ≡ some (k ++ 0 ∷ [])
      → NoMark k
      → e.value ≢ null
      → string_at e.value ≡ some (v ++ 0 ∷ more)
      → NoMark v
      → n + length (pair_line k v) < 2147483648
      → (pretty_print_foreach string_at (written n out) e).0
        ≡ written (n + length (pair_line k v)) (out ++ pair_line k v)
  unfolding pretty_print_foreach
  one_line e k v more n out key clean nonnull at clean' small =
      let name : text_of (key_bytes e.key) ≡ ok k =
        ap (λ x. text_of (key_bytes x)) key ∙ text_of-marked k [] clean in
      let some_data : (e.value == null) ≡ false = ground (arith, nonnull) in
      let sum : int_sum n (length (pair_line k v)) ≡ ok (n + length (pair_line k v)) =
        int_sum-small n (length (pair_line k v)) small in
      rw (name, some_data, at, text_of-marked v more clean', sum) refl

  visit_until-lines :
      (es : Chain) (strings : List (List ℕ × List ℕ)) (n : ℕ) (out : List ℕ)
      → Encodes string_at es strings
      → n + length (pair_lines strings) < 2147483648
      → (visit_until (pretty_print_foreach string_at) (written n out) es).0
        ≡ written (n + length (pair_lines strings)) (out ++ pair_lines strings)
  unfolding visit_until pretty_print_foreach
  visit_until-lines [] [] n out h small =
      ap (λ (m : ℕ). written m out) (omega arith)
      ∙ ap (λ t. written (n + 0) t) (sym (append-nil out))
  visit_until-lines [] (kv ∷ strings) n out h small = elim h [ ]
  visit_until-lines (e ∷ es) [] n out h small = elim h [ ]
  visit_until-lines (e ∷ es) ((k, v) ∷ strings) n out ((key, clean), (more, nonnull, at, clean'), h)
        small =
      let line = pair_line k v in
      let rest = pair_lines strings in
      let size : n + length line + length rest < 2147483648 = omega (
        arith,
        small,
        ap length (quoted_pair k v),
        length-append line rest,
        ap (λ t. length (t ++ rest)) (quoted_pair k v),
      ) in
      ap (λ s. (visit_until (pretty_print_foreach string_at) s es).0)
        (one_line e k v more n out key clean nonnull at clean' (omega (arith, size)))
      ∙ visit_until-lines es strings (n + length line) (out ++ line) h size
      ∙ ap (λ (m : ℕ). written m ((out ++ line) ++ rest)) (omega (arith, length-append line rest))
      ∙ ap (λ t. written (n + length (line ++ rest)) t) (append_assoc out line rest)
      ∙ ap (λ t. written (n + length (t ++ rest)) (out ++ (t ++ rest))) (quoted_pair k v)

  -- For a table whose keys and data are C strings, with fewer than 2 ^ 31 bytes to write and a stream
  -- that takes them all, `cfuhash_pretty_print` writes a line for each entry, in the order of the
  -- buckets, with its key and its data between quotes, inside braces, and returns the number of bytes.
  pub pretty_print-lines :
      {F : Type 0} (ht : Table F) (strings : List (List ℕ × List ℕ))
      → Encodes string_at (flatten ht.buckets) strings
      → length (pair_lines strings) + 4 < 2147483648
      → Returns
          (pretty_print string_at (some ht))
          λ r. (r.0 ≡ b'{' ∷ b'\n' ∷ (pair_lines strings ++ b'}' ∷ b'\n' ∷ [])) × (r.1 ≡ length r.0)
  unfolding pretty_print
  pretty_print-lines ht strings h small =
      let start : List ℕ = b'{' ∷ b'\n' ∷ [] in
      let lines = pair_lines strings in
      let walked = foreach-until (pretty_print_foreach string_at) ht (written 0 start) in
      let out = visit_until-lines (flatten ht.buckets) strings 0 start h (omega (arith, small)) in
      (
        ((start ++ lines) ++ b'}' ∷ b'\n' ∷ [], 2 + (0 + length lines) + 2),
        rw
            (
              walked,
              out,
              int_sum-small 2 (0 + length lines) (omega (arith, small)),
              int_sum-small (2 + (0 + length lines)) 2 (omega (arith, small)),
            )
            refl,
        (refl, omega (arith, length-append lines (b'}' ∷ b'\n' ∷ []))),
      )
