-- ===== src/List/Walk.antt =====
-- The walks over a list of src/cfulist.c: the callbacks, the cursor, and the end of the list.
use libcfu.Common.{
  ℕ, zero, suc, ◌+◌, ◌<◌, ◌≡◌, refl, sym, ◌∙◌, subst, inl, inr, true, false, none, some, List, [],
  ◌∷◌, ◌++◌, map, append-nil, append_assoc, arith, ◌==◌, if◌then◌else◌, Bool-cases, length, ok,
  Returns,
}
use libcfu.List.Store.{◌>>=◌, ◌>>◌, Ptr, null, entry, Store, Cmd, this_list, write, pure}
use libcfu.List.Ends.{Out}
use libcfu.List.Inner.{
  Callback, foreach_loop, foreach, reset_each, next_data, destroy_loop, destroy_with_free_fn,
}
use libcfu.List.Chain.{Cell, has, Distinct, first, IsChain, IsList, IsChain-write}
use libcfu.List.Steps.{load-ok, ne-beq, store_of, store-eq, at_store}
use libcfu.List.Remove.{used_fn, freed_call, free_entry-ok}

zero_plus : (n : ℕ) → 0 + n ≡ n
zero_plus n = omega arith

module _ {S : Type 0} (fn : Callback S) where
  -- The walk as it is meant: stop behind the first cell at which the callback says so.
  unfoldable pub visit_until : S → List Cell → S × ℕ
  visit_until st [] = (st, 0)
  visit_until st (c ∷ xs) =
      let rest = visit_until (fn st c.value c.data_size).0 xs in
      if (fn st c.value c.data_size).1
      then ((fn st c.value c.data_size).0, 1)
      else (rest.0, rest.1 + 1)

  foreach_loop-stopped :
      (k : ℕ) (p : Ptr) (st : S) (n : ℕ) (s : Store)
      → foreach_loop fn (suc k) p st true n s ≡ ok ((st, n), s)
  unfolding foreach_loop
  foreach_loop-stopped k p st n s = elim (Bool-cases (p == null)) [ inl e ↦ rw e | inr e ↦ rw e ]

  foreach_loop-until :
      (s : Store) (b : Ptr) (xs : List Cell) (k : ℕ) (st : S) (n : ℕ)
      → IsChain s.heap b xs null
      → length xs < k
      → foreach_loop fn k (first xs null) st false n s
        ≡ ok (((visit_until st xs).0, n + (visit_until st xs).1), s)
  unfolding foreach_loop visit_until
  foreach_loop-until s b xs zero st n ch l = absurd (omega arith)
  foreach_loop-until s b [] (suc k) st n ch l = ground arith
  foreach_loop-until s b (c ∷ xs) (suc zero) st n ch l = absurd (omega arith)
  foreach_loop-until s b (c ∷ xs) (suc (suc k)) st n ch l =
      let e = entry c.value c.data_size (first xs null) b in
      let rest =
        foreach_loop-until s c.addr xs (suc k) (fn st c.value c.data_size).0 (n + 1) ch.2
          (omega arith) in
      let more : n + 1 + (visit_until (fn st c.value c.data_size).0 xs).1
          ≡ n + ((visit_until (fn st c.value c.data_size).0 xs).1 + 1) =
        omega arith in
      elim (Bool-cases (fn st c.value c.data_size).1) [
        | inl t ↦
            rw (ne-beq c.addr ch.0, load-ok c.addr s e ch.0 ch.1, t)
              (foreach_loop-stopped k (first xs null) (fn st c.value c.data_size).0 (n + 1) s)
        | inr f ↦ rw (ne-beq c.addr ch.0, load-ok c.addr s e ch.0 ch.1, f) (rest ∙ rw more)
      ]

  -- `cfulist_foreach` on a list calls the callback on data and size of the cells in order, up to the
  -- first at which it returns other than zero, returns the number of calls, and leaves list and memory
  -- as they were.
  pub foreach-cells :
      (s : Store) (xs : List Cell) (st : S)
      → IsList s xs
      → foreach fn this_list st s ≡ ok (visit_until st xs, s)
  unfolding foreach
  foreach-cells s xs st is =
      subst (λ t. foreach fn this_list st t ≡ ok (visit_until st xs, t)) (sym (store-eq s xs is))
        (foreach_loop-until (store_of s.heap xs s.list.each_ptr s.list.free_fn s.calls) null xs
            (length xs + 1) st 0 is.chain (omega arith)
          ∙ rw (zero_plus (visit_until st xs).1))

abbrev stored : Out → ℕ
stored none = 0
stored (some n) = n

-- A client's loop with the cursor: `cfulist_next_data` until it returns 0, at most so many times.
pub drain : ℕ → Cmd (List (Ptr × ℕ))
drain zero = pure []
drain (suc k) = do
  r ← next_data this_list (some 0) (some 0)
  if r.done then (do rest ← drain k; pure ((stored r.value, stored r.size) ∷ rest)) else pure []

abbrev pub data_of : Cell → Ptr × ℕ
data_of c = (c.value, c.data_size)

abbrev at_cursor : Store → Ptr → Store
at_cursor s p = record s { list = record s.list { each_ptr = p } }

drain-rest :
    (s : Store) (b : Ptr) (xs : List Cell) (k : ℕ)
    → IsChain s.heap b xs null
    → length xs < k
    → drain k (at_cursor s (first xs null)) ≡ ok (map data_of xs, at_cursor s null)
unfolding drain next_data
drain-rest s b xs zero ch l = absurd (omega arith)
drain-rest s b [] (suc k) ch l = refl
drain-rest s b (c ∷ xs) (suc k) ch l = rw (
  ne-beq c.addr ch.0,
  load-ok c.addr (at_cursor s c.addr) (entry c.value c.data_size (first xs null) b) ch.0 ch.1,
  drain-rest s c.addr xs k ch.2 (omega arith),
)

-- After `cfulist_reset_each` the cursor hands out data and size of the cells in order, each once, then
-- `cfulist_next_data` returns 0; only the cursor has changed.
pub drain-cells :
    (s : Store) (xs : List Cell) (k : ℕ)
    → IsList s xs
    → length xs < k
    → (reset_each this_list >> drain k) s ≡ ok (map data_of xs, at_cursor s null)
unfolding reset_each
drain-cells s xs k is l =
    subst (λ q. drain k (at_cursor s q) ≡ ok (map data_of xs, at_cursor s null)) (sym is.entries)
      (drain-rest s null xs k is.chain l)

pub all_calls : Ptr → List Cell → List (Ptr × Ptr)
all_calls f [] = []
all_calls f (c ∷ xs) = freed_call f c.value ++ all_calls f xs

destroy_loop-frees :
    (s : Store) (b : Ptr) (xs : List Cell) (k : ℕ) (lf ff : Ptr)
    → IsChain s.heap b xs null
    → Distinct xs
    → length xs < k
    → Returns (destroy_loop k lf ff (first xs null) s) λ r.
      (r.1.calls ≡ s.calls ++ all_calls (used_fn lf ff) xs)
      × ((p : Ptr) → r.1.heap p ≡ (if has p xs then none else s.heap p))
unfolding destroy_loop all_calls
destroy_loop-frees s b xs zero lf ff ch ds l = absurd (omega arith)
destroy_loop-frees s b [] (suc k) lf ff ch ds l = (_, refl, (sym (append-nil s.calls), λ p. refl))
destroy_loop-frees s b (c ∷ xs) (suc k) lf ff ch ds l =
    let f = used_fn lf ff in
    let e = entry c.value c.data_size (first xs null) b in
    let s' : Store = record s {
      heap = write s.heap c.addr none;
      calls = s.calls ++ freed_call f c.value;
    } in
    let (r, run, (log, freed)) =
      destroy_loop-frees s' c.addr xs k lf ff
        (IsChain-write s.heap c.addr none c.addr xs null ch.2 ds.0) ds.1 (omega arith) in
    (
      r,
      rw
          (
            ne-beq c.addr ch.0,
            load-ok c.addr s e ch.0 ch.1,
            free_entry-ok c.addr lf ff e s none none ch.0 ch.1,
          )
          run,
      (
        log ∙ append_assoc s.calls (freed_call f c.value) (all_calls f xs),
        λ p. ground (arith, freed p),
      ),
    )

-- `cfulist_destroy_with_free_fn` on a list ends, calls the free function (the one handed over, else
-- the list's, if any) once on the data of each cell in order, frees every entry of the list, and no
-- other.
pub destroy_with_free_fn-frees :
    (s : Store) (xs : List Cell) (ff : Ptr)
    → IsList s xs
    → Returns (destroy_with_free_fn this_list ff s) λ r.
      (r.1.calls ≡ s.calls ++ all_calls (used_fn s.list.free_fn ff) xs)
      × ((p : Ptr) → r.1.heap p ≡ (if has p xs then none else s.heap p))
unfolding destroy_with_free_fn
destroy_with_free_fn-frees s xs ff is =
    let f = used_fn s.list.free_fn ff in
    at_store (destroy_with_free_fn this_list ff)
      (λ t r.
        (r.1.calls ≡ t.calls ++ all_calls f xs)
        × ((p : Ptr) → r.1.heap p ≡ (if has p xs then none else t.heap p)))
      s xs is
      (destroy_loop-frees (store_of s.heap xs s.list.each_ptr s.list.free_fn s.calls) null xs
        (length xs + 1) s.list.free_fn ff is.chain is.distinct (omega arith))
