-- ===== src/List/Map.antt =====
-- `cfulist_map` of src/cfulist.c.
use libcfu.Common.{
  ℕ, ◌+◌, ◌≤◌, ◌<◌, ◌≡◌, refl, sym, ◌∙◌, subst, ◌≢◌, Bool, false, none, List, [], ◌∷◌, ◌++◌,
  append-nil, append_assoc, arith, Run, ok, ◌>>=◌, Returns,
}
use libcfu.List.Store.{null, Ptr, ListArg, this_list, Store}
use libcfu.List.Ends.{push_data}
use libcfu.List.Whole.{new}
use libcfu.List.Inner.{foreach}
use libcfu.List.Chain.{Cell, IsList, has}
use libcfu.List.Steps.{unused-has}
use libcfu.List.Push.{IsSized, kept_size, cell, push_data-append}
use libcfu.List.Walk.{visit_until, foreach-cells}

-- The state of the walk: how many entries were made, and the new list, or the fault of a push.
pub record Mapping : Type 0 where
  pub made : ℕ
  pub list : Run Store

-- What data and size are mapped to, where `malloc` puts each new entry, and `strlen` of data. No entry
-- is in both lists, so the entries of the new one are kept in a store of their own.
module _ (strlen : Ptr → ℕ) (fresh : ℕ → Ptr) (map_fn : Ptr → ℕ → Ptr × ℕ) where
  -- `_cfulist_map_foreach`
  unfoldable pub map_foreach : Mapping → (value : Ptr) → (data_size : ℕ) → Mapping × Bool
  map_foreach m value data_size =
      let rv = map_fn value data_size in
      (
        record {
          made = m.made + 1;
          list = do
            s ← m.list
            r ← push_data strlen this_list (fresh m.made) rv.0 rv.1 s
            ok r.1;
        },
        false,
      )

  abbrev pub empty_store : Store
  empty_store = record { heap = λ p. none; list = new; calls = [] }

  unfoldable pub map_list : ListArg → Store → Run (Store × Store)
  map_list list s = do
    r ← foreach map_foreach list (record { made = 0; list = ok empty_store }) s
    new_list ← r.0.0.list
    ok (new_list, r.1)

  -- The cells of the new list, from the `k`th entry on.
  abbrev pub mapped : ℕ → List Cell → List Cell
  mapped k [] = []
  mapped k (c ∷ cells) =
      let rv = map_fn c.value c.data_size in
      cell (fresh k) rv.0 (kept_size strlen rv.0 rv.1) ∷ mapped (k + 1) cells

  module _ (nonnull : (k : ℕ) → fresh k ≢ null) (apart : (i j : ℕ) → i < j → fresh i ≢ fresh j)
      (sizes : (d : Ptr) (n : ℕ) → IsSized (map_fn d n).0 (map_fn d n).1) where
    visit-mapped :
        (cells xs : List Cell) (k : ℕ) (t : Store)
        → IsList t xs
        → ((j : ℕ) → k ≤ j → t.heap (fresh j) ≡ none)
        → Returns
            (visit_until map_foreach (record { made = k; list = ok t }) cells).0.list
            λ t'. IsList t' (xs ++ mapped k cells)
    unfolding visit_until map_foreach
    visit-mapped [] xs k t is free = (t, refl, subst (IsList t) (sym (append-nil xs)) is)
    visit-mapped (c ∷ cells) xs k t is free =
        let rv = map_fn c.value c.data_size in
        let new_cell = cell (fresh k) rv.0 (kept_size strlen rv.0 rv.1) in
        let (r, run, (done, became)) =
          push_data-append strlen (fresh k) rv.0 rv.1 t xs is (sizes c.value c.data_size)
            (nonnull k) (free k (omega arith)) in
        let still : (j : ℕ) → k + 1 ≤ j → r.1.heap (fresh j) ≡ none = λ j l.
          (let outside : has (fresh j) xs ≡ false =
              unused-has t.heap null xs null (fresh j) is.chain (free j (omega arith)) in
            let other : has (fresh j) (new_cell ∷ xs) ≡ false =
              ground (arith, outside, apart k j (omega arith)) in
            became.outside (fresh j) other ∙ free j (omega arith)) in
        let (t', run', is') =
          visit-mapped cells (xs ++ new_cell ∷ []) (k + 1) r.1 became.is still in
        (
          t',
          rw run run',
          subst (IsList t') (append_assoc xs (new_cell ∷ []) (mapped (k + 1) cells)) is',
        )

    -- If `malloc` gives addresses that are not null and differ from each other, and the callback gives no
    -- null pointer with an unknown size, `cfulist_map` returns a
    -- new list of what the callback gives for data and size of each entry, in order, with the length of
    -- the string for an unknown size, and leaves the list that it walks as it was.
    pub map_list-mapped :
        (s : Store) (cells : List Cell)
        → IsList s cells
        → Returns (map_list this_list s) λ r. IsList r.0 (mapped 0 cells) × (r.1 ≡ s)
    unfolding map_list
    map_list-mapped s cells is =
        let empty : IsList empty_store [] =
          unfold new in
          record { entries = refl; tail = refl; num_entries = refl; chain = tt; distinct = tt } in
        let (t, run, is') = visit-mapped cells [] 0 empty_store empty (λ j l. refl) in
        let walked =
          foreach-cells map_foreach s cells (record { made = 0; list = ok empty_store }) is in
        ((t, s), rw (walked, run), (is', refl))
