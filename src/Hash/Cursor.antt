-- ===== src/Hash/Cursor.antt =====
-- The cursor of `cfuhash_each` and `cfuhash_next`, against the entries of the table.
use libcfu.Common.{
  ℕ, zero, suc, ◌+◌, ◌-◌, ◌%◌, ◌^◌, ◌≤◌, ◌<◌, ◌≡◌, refl, ◌≢◌, Option, none, some, List, [], ◌∷◌,
  ◌++◌, arith, length,
}
use native.Mathlib.Numerals.{add-one}
use mathlib.Core.List.{flatten}
use libcfu.Hash.Chain.{Entry, Chain}
use libcfu.Hash.Table.{Table}
use libcfu.Hash.Walk.{reset_each, scan, drop, at_cursor, next_from, next_data, each_data}
use libcfu.Hash.Valid.{IsValid, pow_bounds}

abbrev tail_of : Chain → Chain
tail_of [] = []
tail_of (e ∷ c) = c

module _ {F : Type 0} where
  -- The entries that the cursor has not handed out.
  abbrev ahead : Table F → List Entry
  ahead ht =
      tail_of ht.each_chain_entry ++ flatten (drop ((ht.each_bucket_index + 1) % 2 ^ 64) ht.buckets)

  -- Call `cfuhash_next_data` until it returns 0, and collect what it hands out.
  pub drain : ℕ → Table F → List Entry
  drain zero ht = []
  drain (suc f) ht = elim (next_data ht).1 [ none ↦ [] | some e ↦ e ∷ drain f (next_data ht).0 ]

drop-suc_cons {ℓ} :
    {A : Type ℓ} (xs : List A) (i : ℕ) (y : A) (ys : List A)
    → drop i xs ≡ y ∷ ys
    → drop (suc i) xs ≡ ys
drop-suc_cons [] zero y ys h = ground arith
drop-suc_cons [] (suc i) y ys h = ground arith
drop-suc_cons (x ∷ xs) zero y ys h = ground arith
drop-suc_cons (x ∷ xs) (suc i) y ys h = drop-suc_cons xs i y ys h

drop-suc_nil {ℓ} : {A : Type ℓ} (xs : List A) (i : ℕ) → drop i xs ≡ [] → drop (suc i) xs ≡ []
drop-suc_nil [] i h = refl
drop-suc_nil (x ∷ xs) zero h = ground arith
drop-suc_nil (x ∷ xs) (suc i) h = drop-suc_nil xs i h

-- `scan` stops at the next entry, and what stands behind it is what is left.
scan-flatten :
    (bs cs : List Chain) (k : ℕ)
    → drop k bs ≡ cs
    → ((scan cs k).1 ++ flatten (drop ((scan cs k).0 + 1) bs) ≡ flatten cs)
      × (k ≤ (scan cs k).0)
      × ((scan cs k).0 ≤ k + length cs)
      × ((scan cs k).1 ≢ [] → (scan cs k).0 < k + length cs)
      × ((scan cs k).1 ≡ [] → flatten cs ≡ [])
unfolding scan flatten
scan-flatten bs [] k h =
    (rw (add-one, drop-suc_nil bs k h), omega arith, omega arith, λ ne. absurd (ne refl), λ e. refl)
scan-flatten bs ([] ∷ cs) k h =
    let rest = scan-flatten bs cs (k + 1) (rw add-one (drop-suc_cons bs k [] cs h)) in
    (rest.0, omega arith, omega arith, λ ne. omega (arith, rest.3 ne), rest.4)
scan-flatten bs ((e ∷ c) ∷ cs) k h = (
  rw (add-one, drop-suc_cons bs k (e ∷ c) cs h),
  omega arith,
  omega arith,
  λ ne. omega arith,
  λ e. cc,
)

length-drop {ℓ} : {A : Type ℓ} (n : ℕ) (xs : List A) → length (drop n xs) ≡ length xs - n
length-drop zero xs = omega arith
length-drop (suc n) [] = omega arith
length-drop (suc n) (x ∷ xs) = omega (arith, length-drop n xs)

-- The bucket at which a search for the next entry starts.
abbrev after : {F : Type 0} → Table F → ℕ
after ht = (ht.each_bucket_index + 1) % 2 ^ 64

module _ {F : Type 0} (ht : Table F) (few : length ht.buckets < 2 ^ 32) where
  -- One step, in terms of what is ahead.
  record Steps (es : List Entry) (r : Table F × Option Entry) : Type 0 where
    buckets : r.0.buckets ≡ ht.buckets
    none_left : es ≡ [] → r.1 ≡ none
    one_more :
        (e : Entry) (rest : List Entry)
        → es ≡ e ∷ rest
        → (r.1 ≡ some e)
          × (ahead r.0 ≡ rest)
          × ((r.0.each_bucket_index + 1) % 2 ^ 64 ≤ length ht.buckets)

  at_cursor-Steps :
      (j : ℕ) (c : Chain) (es : List Entry)
      → c ++ flatten (drop (j + 1) ht.buckets) ≡ es
      → (c ≢ [] → j < length ht.buckets)
      → (c ≡ [] → es ≡ [])
      → Steps es (at_cursor ht (j, c))
  at_cursor-Steps j [] es e inside stop =
      let stopped = stop refl in
      record { buckets = refl; none_left = λ h. refl; one_more = λ e' rest h. cc stopped }
  at_cursor-Steps j (x ∷ c) es e inside stop =
      let lt : j < length ht.buckets = inside (λ h. cc) in
      let wrap : (j + 1) % 2 ^ 64 ≡ j + 1 = omega arith in
      record {
        buckets = refl;
        none_left = λ h. cc;
        one_more = λ e' rest h. (ground arith, rw wrap (ground arith), omega arith);
      }

  scan-Steps :
      (after ht) ≤ length ht.buckets
      → Steps
          (flatten (drop (after ht) ht.buckets))
          (at_cursor ht (scan (drop (after ht) ht.buckets) (after ht)))
  scan-Steps near =
      let facts = scan-flatten ht.buckets (drop (after ht) ht.buckets) (after ht) refl in
      at_cursor-Steps _ _ _ facts.0
        (λ ne. omega (arith, facts.3 ne, length-drop (after ht) ht.buckets)) facts.4

  next_from-Steps :
      (c : Chain)
      → after ht ≤ length ht.buckets
      → Steps (tail_of c ++ flatten (drop (after ht) ht.buckets)) (next_from ht c)
  unfolding next_from
  next_from-Steps [] near = scan-Steps near
  next_from-Steps (cur ∷ []) near = scan-Steps near
  next_from-Steps (cur ∷ e ∷ c) near = record {
    buckets = refl;
    none_left = λ h. ground arith;
    one_more = λ e' rest h. (ground arith, ground arith, near);
  }

module _ {F : Type 0} where
  drain-ahead :
      (f : ℕ) (ht : Table F) (es : List Entry)
      → length ht.buckets < 2 ^ 32
      → after ht ≤ length ht.buckets
      → length es < f
      → ahead ht ≡ es
      → drain f ht ≡ es
  unfolding drain next_data
  drain-ahead zero ht es few near h e = absurd (omega arith)
  drain-ahead (suc f) ht [] few near h e =
      let step = next_from-Steps ht few ht.each_chain_entry near in rw (step.none_left e, drain)
  drain-ahead (suc f) ht (x ∷ es) few near h e =
      let step = next_from-Steps ht few ht.each_chain_entry near in
      let (now, later, near') = step.one_more x es e in
      let rest =
        drain-ahead f (next_data ht).0 es (rw step.buckets few) (rw step.buckets near')
          (omega arith) later in
      rw (now, drain, rest)

  -- `cfuhash_each_data`, then `cfuhash_next_data` until it returns 0: what is handed out.
  pub iterate : ℕ → Table F → List Entry
  iterate f ht = elim (each_data ht).1 [ none ↦ [] | some e ↦ e ∷ drain f (each_data ht).0 ]

  -- On a valid table, `cfuhash_each_data` and then `cfuhash_next_data`, called until it returns 0
  -- or for at least as many rounds as the table counts entries, hand out every entry once, in the
  -- order of the buckets.
  pub iterate-flatten :
      (f : ℕ) (ht : Table F) → IsValid ht → ht.entries ≤ f → iterate f ht ≡ flatten ht.buckets
  unfolding iterate each_data reset_each drain
  iterate-flatten f ht v h =
      drain-ahead (suc f) (reset_each ht) (flatten ht.buckets)
        (omega (arith, v.width, (pow_bounds ht.num_buckets v.power).1)) (omega arith)
        (omega (arith, v.counted)) refl
