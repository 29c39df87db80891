-- ===== src/Hash/Copied.antt =====
-- `cfuhash_copy` of src/cfuhash.c against the abstract maps of its two tables.
use libcfu.Common.{
  ℕ, ◌+◌, ◌^◌, ◌≤◌, ◌≡◌, refl, sym, ap, ◌∙◌, ◌≢◌, Bool, true, false, Option, none, some, List, [],
  ◌∷◌, map, arith, ◌==◌, ◌++◌, Bool-cases, inl, inr, ◌>>=◌, if◌then◌else◌, bytes_eq, length,
  take_all, ok, Returns,
}
use mathlib.Core.List.{flatten}
use mathlib.Core.Option.{or_else}
use libcfu.Hash.Value.{Key}
use libcfu.Hash.Key.{is_key, key_bytes}
use libcfu.Hash.Chain.{Entry, find, named, count, count-eq-zero}
use libcfu.Hash.Table.{Platform, Table, null, ignores_case, has_flag, ignore_case, nocopy_keys}
use libcfu.Hash.Rehash.{wanted_size}
use libcfu.Hash.Access.{
  Release, call, free_key, free_value, get_data, read_key, key_size_of, unknown_size, hand_out,
  data_size_of,
}
use libcfu.Hash.Walk.{listed_key}
use libcfu.Hash.Whole.{copy_keys, copy}
use libcfu.Hash.View.{flatten-lookup}
use libcfu.Hash.Valid.{IsValid, SameSetup, entry_at, view, name_in, data_of}
use libcfu.Hash.Laws.{get_data-hand_out}
use libcfu.Hash.Listing.{keys_data-flatten}
use libcfu.Hash.Put.{released_call, put_data-Writes}
use libcfu.Hash.Found.{Found, Found-all}

-- An entry with a key that lookups find, and with sizes other than `(size_t) -1`.
abbrev pub IsCopyable : Bool → Entry → Type 0
IsCopyable ic e =
    (is_key ic e.key ≡ true)
    × (length (key_bytes e.key) ≢ unknown_size)
    × (e.data_size ≢ unknown_size)

abbrev pub AreCopyable : Bool → List Entry → Type 0
AreCopyable ic [] = Unit
AreCopyable ic (e ∷ es) = IsCopyable ic e × AreCopyable ic es

-- The data of the last entry of a name.
unfoldable last_named : Bool → List ℕ → List Entry → Option (ℕ × ℕ)
last_named ic q [] = none
last_named ic q (e ∷ es) =
    or_else (last_named ic q es) (if named ic q e then some (e.value, e.data_size) else none)

last_named-none :
    (ic : Bool) (q : List ℕ) (es : List Entry) → count ic q es ≡ 0 → last_named ic q es ≡ none
unfolding last_named count or_else
last_named-none ic q [] h = refl
last_named-none ic q (e ∷ es) h = ground (arith, last_named-none ic q es)

-- Where a name occurs once at most, that is what a search finds.
last_named-find :
    (ic : Bool) (q : List ℕ) (es : List Entry)
    → count ic q es ≤ 1
    → last_named ic q es ≡ data_of (find (named ic q) es)
unfolding last_named count find or_else
last_named-find ic q [] h = refl
last_named-find ic q (e ∷ es) h =
    ground (arith, last_named-none ic q es, last_named-find ic q es, count-eq-zero ic q es)

key_as_bytes : (ic : Bool) (k : Key) → is_key ic k ≡ true → some (key_bytes k) ≡ k
unfolding is_key
key_as_bytes ic none h = cc
key_as_bytes ic (some bs) h = refl

read_key-whole : (k : List ℕ) → length k ≢ unknown_size → read_key (some k) (length k) ≡ some k
unfolding read_key key_size_of
read_key-whole k h =
    let known : (length k == unknown_size) ≡ false = ground (arith, h) in
    rw known (ap some (take_all (length k) k refl))

pub SameSetup_trans : {F : Type 0} (a b c : Table F) → SameSetup a b → SameSetup b c → SameSetup a c
SameSetup_trans a b c s t = record {
  flags = t.flags ∙ s.flags;
  hash_func = t.hash_func ∙ s.hash_func;
  free_fn = t.free_fn ∙ s.free_fn;
  high = t.high ∙ s.high;
  low = t.low ∙ s.low;
}

-- The keys that are freed, in order.
abbrev pub keys_freed : List Release → List Key
keys_freed [] = []
keys_freed (call fn value ∷ rs) = keys_freed rs
keys_freed (free_key k ∷ rs) = k ∷ keys_freed rs
keys_freed (free_value value ∷ rs) = keys_freed rs

pub keys_freed-append :
    (rs more : List Release) → keys_freed (rs ++ more) ≡ keys_freed rs ++ keys_freed more
keys_freed-append [] more = refl
keys_freed-append (call fn value ∷ rs) more = keys_freed-append rs more
keys_freed-append (free_key k ∷ rs) more = ap (λ ks. k ∷ ks) (keys_freed-append rs more)
keys_freed-append (free_value value ∷ rs) more = keys_freed-append rs more

-- A write gives back no key.
released_call-no_key :
    (free_fn : ℕ) (at : Option Entry) → keys_freed (released_call free_fn at) ≡ []
released_call-no_key free_fn none = refl
released_call-no_key free_fn (some e) = elim (Bool-cases (free_fn == null)) [
  | inl without ↦ rw without refl
  | inr frees ↦ rw frees refl
]

module _ ⦃p : Platform⦄ where
  -- Whatever entries a table with this setup gets, up to a count, the size that a resize asks for is
  -- at most 2 ^ 31.
  abbrev pub HasSpace : Table p.Float → ℕ → Type 0
  HasSpace ht most =
      (t : Table p.Float) → SameSetup ht t → t.entries ≤ most → wanted_size t ≤ 2 ^ 31

  -- A table behind the writes of entries.
  record Copied (dst : Table p.Float) (es : List Entry) (t : Table p.Float) : Type 0 where
    valid : IsValid t
    setup : SameSetup dst t
    entries : t.entries ≤ dst.entries + length es
    reads : (q : List ℕ) → view t q ≡ or_else (last_named (ignores_case dst) q es) (view dst q)

  same_setup : (t : Table p.Float) (n : ℕ) → SameSetup t (record t { entries = n })
  same_setup t n = record {
    flags = refl;
    hash_func = refl;
    free_fn = refl;
    high = refl;
    low = refl;
  }

  data_size_of-known :
      (e : Entry) → e.data_size ≢ unknown_size → data_size_of e.value e.data_size ≡ e.data_size
  unfolding data_size_of
  data_size_of-known e h =
      let known : (e.data_size == unknown_size) ≡ false = ground (arith, h) in rw known refl

  one_read :
      (dst : Table p.Float) (e : Entry) (q name : List ℕ) (size : ℕ)
      → name ≡ name_in dst e.key
      → size ≡ e.data_size
      → (if bytes_eq q name then some (e.value, size) else view dst q)
        ≡ or_else (last_named (ignores_case dst) q (e ∷ [])) (view dst q)
  unfolding last_named or_else
  one_read dst e q name size h h' = rw (h, h') (ground arith)

  pub same_case : (dst t : Table p.Float) → SameSetup dst t → ignores_case t ≡ ignores_case dst
  unfolding ignores_case
  same_case dst t s = ap (λ flags. has_flag flags ignore_case) s.flags

  -- The write of one entry and then of others.
  both_reads :
      (ic ic' : Bool) (q : List ℕ) (e : Entry) (es : List Entry) (there here : Option (ℕ × ℕ))
      → ic' ≡ ic
      → there ≡ or_else (last_named ic q (e ∷ [])) here
      → or_else (last_named ic' q es) there ≡ or_else (last_named ic q (e ∷ es)) here
  unfolding last_named or_else
  both_reads ic ic' q e es there here h h' = rw (h, h') (ground arith)

  module _ (src : Table p.Float) (valid : IsValid src) where
    -- One key of the loop: what is found under it is put.
    copy_one :
        (e : Entry) (dst : Table p.Float)
        → IsValid dst
        → ignores_case dst ≡ ignores_case src
        → IsCopyable (ignores_case src) e
        → entry_at src (name_in src e.key) ≡ some e
        → HasSpace dst (dst.entries + 1)
        → (rest : List Key)
        → (t : Table p.Float) × Copied dst (e ∷ []) t
          × ((released : List Release) × (keys_freed released ≡ [])
              × (copy_keys src (some (key_bytes e.key) ∷ rest) dst ≡ (do
                r ← copy_keys src rest t
                ok (r.0, released ++ free_key (some (key_bytes e.key)) ∷ r.1))))
    unfolding copy_keys hand_out
    copy_one e dst v same (good, known, sized) here space rest =
        let bs = key_bytes e.key in
        let k = key_as_bytes (ignores_case src) e.key good in
        let read : read_key (some bs) (length bs) ≡ e.key = read_key-whole bs known ∙ k in
        let good' : is_key (ignores_case src) (read_key (some bs) (length bs)) ≡ true =
          ap (is_key (ignores_case src)) read ∙ good in
        let found = get_data-hand_out src (some bs) (length bs) (some null) (some 0) valid good' in
        let at : entry_at src (name_in src (read_key (some bs) (length bs))) ≡ some e =
          ap (λ key. entry_at src (name_in src key)) read ∙ here in
        let got : get_data (some src) (some bs) (length bs) (some null) (some 0)
            ≡ ok (record { found = true; r = some e.value; size = some e.data_size }) =
          found ∙ ap (λ o. ok (hand_out o (some null) (some 0))) at in
        let (w, run, writes) =
          put_data-Writes dst (some bs) (length bs) e.value e.data_size none v
            (ap (λ ic. is_key ic (read_key (some bs) (length bs))) same ∙ good')
            (space (record dst { entries = dst.entries + 1 }) (same_setup dst (dst.entries + 1))
              (omega arith)) in
        let size : data_size_of e.value e.data_size ≡ e.data_size = data_size_of-known e sized in
        let name : name_in dst (read_key (some bs) (length bs)) ≡ name_in dst e.key =
          ap (name_in dst) read in
        (
          w.table,
          record {
            valid = writes.valid;
            setup = writes.setup;
            entries = ground (arith, writes.entries);
            reads = λ q. writes.reads q ∙ one_read dst e q _ _ name size;
          },
          (
            w.released,
            ap keys_freed writes.released ∙ released_call-no_key dst.free_fn _,
            rw (got, run) refl,
          ),
        )

    -- The loop over the keys of entries that are found in the first table.
    copy_all :
        (es : List Entry) (dst : Table p.Float)
        → IsValid dst
        → ignores_case dst ≡ ignores_case src
        → AreCopyable (ignores_case src) es
        → Found (ignores_case src) (flatten src.buckets) es
        → HasSpace dst (dst.entries + length es)
        → Returns
            (copy_keys src (map (listed_key false) es) dst)
            λ r. Copied dst es r.0 × (keys_freed r.1 ≡ map (listed_key false) es)
    unfolding copy_keys last_named or_else
    copy_all [] dst v same good here space = (
      (dst, []),
      refl,
      (
        record {
          valid = v;
          setup = same_setup dst dst.entries;
          entries = omega arith;
          reads = λ q. refl;
        },
        refl,
      ),
    )
    copy_all (e ∷ es) dst v same good here space =
        let by_name =
          (flatten-lookup (ignores_case src) src.hash_func src.buckets (name_in src e.key)
            valid.placed).0 in
        let (t, first, (released, no_key, run)) =
          copy_one e dst v same good.0 (sym by_name ∙ here.0)
            (λ u s few. space u s (omega (arith, few))) (map (listed_key false) es) in
        let ((t', released'), run', (others, freed)) =
          copy_all es t first.valid (same_case dst t first.setup ∙ same) good.1 here.1 (λ u s few.
            space u (SameSetup_trans dst t u first.setup s) (omega (arith, few, first.entries))) in
        (
          (t', released ++ free_key (some (key_bytes e.key)) ∷ released'),
          run ∙ rw run' refl,
          (
            record {
              valid = others.valid;
              setup = SameSetup_trans dst t t' first.setup others.setup;
              entries = omega (arith, first.entries, others.entries);
              reads = λ q.
                  others.reads q
                  ∙ both_reads (ignores_case dst) (ignores_case t) q e es (view t q) (view dst q)
                      (same_case dst t first.setup) (first.reads q);
            },
            keys_freed-append released (free_key (some (key_bytes e.key)) ∷ released')
                ∙ rw (no_key, freed) refl,
          ),
        )

  -- Both tables valid and alike in whether they ignore case; no key or data of the first of size
  -- (size_t) -1, each of its keys a C string where case is ignored; and room: whatever table with the
  -- second one's setup has at most as many entries as both together, the size that a resize asks for
  -- is at most 2 ^ 31. The second one keeps copies of its keys. Then `cfuhash_copy` returns, the second table is valid with the setup that it
  -- had, has at most as many entries as both had, and maps each name to the data and the data size of
  -- the first table if that has it, and otherwise as it did before. The keys that are freed are the
  -- copies that were listed of the first table's keys, each of them once.
  pub copy-union :
      (src dst : Table p.Float)
      → IsValid src
      → IsValid dst
      → ignores_case dst ≡ ignores_case src
      → AreCopyable (ignores_case src) (flatten src.buckets)
      → HasSpace dst (dst.entries + src.entries)
      → has_flag dst.flags nocopy_keys ≡ false
      → Returns (copy src dst) λ r.
        IsValid r.0
        × SameSetup dst r.0
        × (r.0.entries ≤ dst.entries + src.entries)
        × ((q : List ℕ) → view r.0 q ≡ or_else (view src q) (view dst q))
        × (keys_freed r.1 ≡ map (listed_key false) (flatten src.buckets))
  unfolding copy
  copy-union src dst v v' same good space copies =
      let es = flatten src.buckets in
      let few =
        λ (q : List ℕ). flatten-lookup (ignores_case src) src.hash_func src.buckets q v.placed in
      let (listed, run, (all, counted, named)) = keys_data-flatten src true false v in
      let ((t, released), run', (copied, freed)) =
        copy_all src v es dst v' same good (Found-all (ignores_case src) es (λ q. (few q).1))
          (λ u s le. space u s (omega (arith, le, v.counted))) in
      (
        (t, released),
        rw (run, all) run',
        (
          copied.valid,
          copied.setup,
          omega (arith, copied.entries, v.counted),
          λ q.
              copied.reads q
              ∙ ap (λ ic. or_else (last_named ic q es) (view dst q)) same
              ∙ ap (λ o. or_else o (view dst q))
                  (last_named-find (ignores_case src) q es (few q).1 ∙ ap data_of (few q).0),
          freed,
        ),
      )
