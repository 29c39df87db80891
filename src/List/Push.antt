-- ===== src/List/Push.antt =====
-- `cfulist_push_data` of src/cfulist.c on a list in memory.
use libcfu.Common.{
  inr, inl, Bool-cases, ok, if◌then◌else◌, ℕ, ◌+◌, ◌≡◌, refl, sym, ◌≢◌, Bool, true, false, none,
  some, List, [], ◌∷◌, ◌++◌, arith, ◌==◌, length, length-append, Returns,
}
use libcfu.List.Store.{Ptr, null, entry, CfuList, Heap, Store, this_list, write}
use libcfu.List.Ends.{unknown_size, size_of, push_data, unshift_data}
use libcfu.List.Chain.{
  Cell, Distinct, last, IsChain, IsList, IsChain-write, IsChain-append, last-append,
  IsChain-relink_last, has-ne,
}
use libcfu.List.Steps.{
  set_next-ok, set_prev-ok, store_of, at_store, Became, unused-has, Distinct-append,
}

abbrev pub cell : Ptr → Ptr → ℕ → Cell
cell p d n = record { addr = p; value = d; data_size = n }

-- Data of unknown size is a string, not a null pointer.
abbrev pub IsSized : Ptr → ℕ → Type 0
IsSized d n = n ≡ unknown_size → d ≢ null

-- The size that is kept: the length of the string with its end mark, where the size is unknown.
abbrev pub kept_size : (Ptr → ℕ) → Ptr → ℕ → ℕ
kept_size strlen d n = if n == unknown_size then strlen d + 1 else n

pub size_of-kept_size :
    (strlen : Ptr → ℕ) (d : Ptr) (n : ℕ)
    → IsSized d n
    → size_of strlen d n ≡ ok (kept_size strlen d n)
unfolding size_of
size_of-kept_size strlen d n sized = elim (Bool-cases (n == unknown_size)) [
  | inl unknown ↦
      (let there : (d == null) ≡ false = ground (arith, sized (ground (arith, unknown))) in
        rw (unknown, there) refl)
  | inr known ↦ rw known refl
]

module _ (strlen : Ptr → ℕ) (fresh d : Ptr) (n : ℕ) where
  abbrev pub new_cell : Cell
  new_cell = cell fresh d (kept_size strlen d n)

  abbrev pub Pushed : List Cell → List Cell → Store → Bool × Store → Type 0
  Pushed xs xs' s r = (r.0 ≡ true) × Became s (new_cell ∷ xs) xs' r.1

  push-cons :
      (h : Heap) (c : Cell) (xs : List Cell) (ep ff : Ptr) (calls : List (Ptr × Ptr))
      → IsChain h null (c ∷ xs) null
      → Distinct (c ∷ xs)
      → IsSized d n
      → fresh ≢ null
      → h fresh ≡ none
      → Returns
          (push_data strlen this_list fresh d n (store_of h (c ∷ xs) ep ff calls))
          (Pushed (c ∷ xs) ((c ∷ xs) ++ new_cell ∷ []) (store_of h (c ∷ xs) ep ff calls))
  unfolding push_data
  push-cons h c xs ep ff calls ch ds sized ne unused =
      let out = unused-has h null (c ∷ xs) null fresh ch unused in
      let k = kept_size strlen d n in
      let sizes = size_of-kept_size strlen d n sized in
      let t = last null (c ∷ xs) in
      let h₁ = write h fresh (some (entry d k null null)) in
      let s₁ : Store = record (store_of h (c ∷ xs) ep ff calls) { heap = h₁ } in
      let at_fresh : h₁ fresh ≡ some (entry d k null null) = ground arith in
      let h₂ = write h₁ fresh (some (entry d k null t)) in
      let s₂ : Store = record s₁ { heap = h₂ } in
      let ch₂ =
        IsChain-write h₁ fresh (some (entry d k null t)) null (c ∷ xs) null
          (IsChain-write h fresh (some (entry d k null null)) null (c ∷ xs) null ch out) out in
      let (e, ne_t, m, at_t, to, ch₃) = IsChain-relink_last h₂ null c xs null fresh ch₂ ds in
      let h₃ = write h₂ t (some (record e { next = fresh })) in
      let got : (fresh == null) ≡ false = ground arith in
      let got_t : (t == null) ≡ false = ground arith in
      let apart = has-ne t fresh (c ∷ xs) m out in
      let at_new : h₃ fresh ≡ some (entry d k null t) = rw apart (ground arith) in
      let l' : CfuList = record {
        entries = c.addr;
        tail = fresh;
        num_entries = length (c ∷ xs) + 1;
        each_ptr = ep;
        free_fn = ff;
      } in
      let s' : Store = record { heap = h₃; list = l'; calls = calls } in
      (
        (true, s'),
        rw (
          got,
          sizes,
          got_t,
          set_prev-ok fresh s₁ (entry d k null null) ne at_fresh t,
          set_next-ok t s₂ e ne_t at_t fresh,
        ),
        (
          refl,
          record {
            is = record {
              entries = refl;
              tail = sym (last-append null (c ∷ xs) (new_cell ∷ []));
              num_entries = omega (arith, length-append xs (new_cell ∷ []));
              chain =
                  (IsChain-append h₃ null (c ∷ xs) (new_cell ∷ []) null).1 (ch₃, (ne, at_new, tt));
              distinct = Distinct-append (c ∷ xs) new_cell ds out;
            };
            each_ptr = refl;
            free_fn = refl;
            calls = refl;
            outside = λ p o. rw (has-ne t p (c ∷ xs) m (ground arith)) (ground arith);
          },
        ),
      )

  pub push-nil :
      (h : Heap) (ep ff : Ptr) (calls : List (Ptr × Ptr))
      → IsSized d n
      → fresh ≢ null
      → Returns
          (push_data strlen this_list fresh d n (store_of h [] ep ff calls))
          (Pushed [] (new_cell ∷ []) (store_of h [] ep ff calls))
        × (unshift_data strlen this_list fresh d n (store_of h [] ep ff calls)
            ≡ push_data strlen this_list fresh d n (store_of h [] ep ff calls))
  unfolding push_data unshift_data
  push-nil h ep ff calls sized ne =
      let k = kept_size strlen d n in
      let sizes = size_of-kept_size strlen d n sized in
      let h₁ = write h fresh (some (entry d k null null)) in
      let got : (fresh == null) ≡ false = ground arith in
      let l' : CfuList = record {
        entries = fresh;
        tail = fresh;
        num_entries = 0 + 1;
        each_ptr = ep;
        free_fn = ff;
      } in
      let s' : Store = record { heap = h₁; list = l'; calls = calls } in
      (
        (
          (true, s'),
          rw (got, sizes),
          (
            refl,
            record {
              is = record {
                entries = refl;
                tail = refl;
                num_entries = omega arith;
                chain = (ne, ground arith, tt);
                distinct = (refl, tt);
              };
              each_ptr = refl;
              free_fn = refl;
              calls = refl;
              outside = λ p o. ground arith;
            },
          ),
        ),
        rw (got, sizes),
      )

  push-any :
      (h : Heap) (xs : List Cell) (ep ff : Ptr) (calls : List (Ptr × Ptr))
      → IsChain h null xs null
      → Distinct xs
      → IsSized d n
      → fresh ≢ null
      → h fresh ≡ none
      → Returns
          (push_data strlen this_list fresh d n (store_of h xs ep ff calls))
          (Pushed xs (xs ++ new_cell ∷ []) (store_of h xs ep ff calls))
  push-any h [] ep ff calls ch ds sized ne unused = (push-nil h ep ff calls sized ne).0
  push-any h (c ∷ xs) ep ff calls ch ds sized ne unused =
      push-cons h c xs ep ff calls ch ds sized ne unused

  -- Given an unused address, and data that is not null where its size is unknown, `cfulist_push_data` on a list puts a new entry at its end, with the
  -- length of the string for an unknown size, and returns 1; it writes only to the new entry and to
  -- entries of the list, and leaves the cursor, the free function and the calls alone.
  pub push_data-append :
      (s : Store) (xs : List Cell)
      → IsList s xs
      → IsSized d n
      → fresh ≢ null
      → s.heap fresh ≡ none
      → Returns (push_data strlen this_list fresh d n s) (Pushed xs (xs ++ new_cell ∷ []) s)
  push_data-append s xs is sized ne unused =
      at_store (push_data strlen this_list fresh d n) (Pushed xs (xs ++ new_cell ∷ [])) s xs is (
        push-any s.heap xs s.list.each_ptr s.list.free_fn s.calls is.chain is.distinct sized ne
          unused)
