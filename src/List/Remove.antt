-- ===== src/List/Remove.antt =====
-- Removal at a position of a list of src/cfulist.c.
use libcfu.Common.{
  ◌≡◌, refl, ◌∙◌, ◌≢◌, inl, inr, true, false, none, some, List, [], ◌∷◌, ◌++◌, append-nil, arith,
  ◌==◌, if◌then◌else◌, Bool-cases, length, get_elem?, ok, Returns, set_out,
}
use libcfu.List.Store.{Ptr, null, Entry, entry, Heap, Store, this_list, write}
use libcfu.List.Ends.{Out, Result, result}
use libcfu.List.Inner.{free_entry, remove_entry, remove_nth_data}
use libcfu.List.Chain.{
  Cell, has, Distinct, first, last, IsChain, IsList, IsChain-write, IsChain-append, has-append,
}
use libcfu.List.Steps.{load-ok, free-ok, ne-beq, store_of, at_store}
use libcfu.List.Unlink.{unlink-Unlinked}
use libcfu.List.Apart.{Distinct-Apart}
use libcfu.List.Nth.{find_entry-at}

-- The free function that is called: the one handed over, else the list's.
abbrev pub used_fn : (list_ff ff : Ptr) → Ptr
used_fn list_ff ff = if ff == null then list_ff else ff

-- What the call of a free function adds to the log.
abbrev pub freed_call : Ptr → Ptr → List (Ptr × Ptr)
freed_call f d = if f == null then [] else (f, d) ∷ []

-- The cell `c` was taken out of the list, its data freed by `f` if there is one, its entry freed.
pub record Gone (s : Store) (front : List Cell) (c : Cell) (bs : List Cell) (f : Ptr) (s' : Store)
    : Type 0 where
  pub is : IsList s' (front ++ bs)
  pub freed : s'.heap c.addr ≡ none
  pub calls : s'.calls ≡ s.calls ++ freed_call f c.value
  pub each_ptr : s'.list.each_ptr ≡ s.list.each_ptr
  pub free_fn : s'.list.free_fn ≡ s.list.free_fn
  pub outside : (p : Ptr) → has p (front ++ c ∷ bs) ≡ false → s'.heap p ≡ s.heap p

abbrev pub removed_data : Out → Out → Cell → Ptr → Result
removed_data d n c f =
    result true (set_out d (if f == null then c.value else null))
      (set_out n (if f == null then c.data_size else 0))

pub free_entry-ok :
    (p lf ff : Ptr) (e : Entry) (s : Store) (d n : Out)
    → p ≢ null
    → s.heap p ≡ some e
    → (let f = used_fn lf ff in
        free_entry p lf ff d n s
        ≡ ok (
          result true
              (set_out d (if f == null then e.value else null))
              (set_out n (if f == null then e.data_size else 0)),
          record s { heap = write s.heap p none; calls = s.calls ++ freed_call f e.value },
        ))
unfolding free_entry
free_entry-ok p lf ff e s d n ne at =
    let f = used_fn lf ff in
    let s' : Store = record s { calls = s.calls ++ (f, e.value) ∷ [] } in
    elim (Bool-cases (f == null)) [
      | inl i ↦ rw (ne-beq p ne, load-ok p s e ne at, i, free-ok p s e ne at, append-nil s.calls)
      | inr i ↦ rw (ne-beq p ne, load-ok p s e ne at, i, free-ok p s' e ne at)
    ]

pub remove_entry-Gone :
    (front : List Cell) (c : Cell) (bs : List Cell) (h : Heap) (ep lf ff : Ptr)
    (calls : List (Ptr × Ptr)) (d n : Out)
    → IsChain h null (front ++ c ∷ bs) null
    → Distinct (front ++ c ∷ bs)
    → Returns (remove_entry this_list c.addr ff d n (store_of h (front ++ c ∷ bs) ep lf calls)) λ r.
      (r.0 ≡ removed_data d n c (used_fn lf ff))
      × Gone (store_of h (front ++ c ∷ bs) ep lf calls) front c bs (used_fn lf ff) r.1
unfolding remove_entry
remove_entry-Gone front c bs h ep lf ff calls d n ch ds =
    let (h', run, un) = unlink-Unlinked front c bs h ep lf calls ch ds in
    let (ne, at, ch_b) = ((IsChain-append h null front (c ∷ bs) null).0 ch).1 in
    let e = entry c.value c.data_size (first bs null) (last null front) in
    let apart = Distinct-Apart front c bs ds in
    let out : has c.addr (front ++ bs) ≡ false =
      ground (arith, has-append c.addr front bs, apart.out_front, apart.out_back) in
    (
      _,
      rw (ne-beq c.addr ne, run)
          (free_entry-ok c.addr lf ff e (store_of h' (front ++ bs) ep lf calls) d n ne
            (un.kept ∙ at)),
      (
        refl,
        record {
          is = record {
            entries = refl;
            tail = refl;
            num_entries = refl;
            chain = IsChain-write h' c.addr none null (front ++ bs) null un.chain out;
            distinct = un.distinct;
          };
          freed = ground arith;
          calls = refl;
          each_ptr = refl;
          free_fn = refl;
          outside = λ p o. ground (arith, un.outside p o, has-append p front (c ∷ bs));
        },
      ),
    )

get_elem?-middle :
    (front : List Cell) (c : Cell) (bs : List Cell)
    → get_elem? (front ++ c ∷ bs) (length front) ≡ some c
get_elem?-middle [] c bs = refl
get_elem?-middle (a ∷ front) c bs = get_elem?-middle front c bs

-- `cfulist_remove_nth_data` on a list with a cell at position `n` takes that cell out: it returns 1,
-- hands out data and size when no free function is given or set (a null pointer and 0 when one is),
-- calls that function once on the data, frees the entry, and changes nothing outside the list.
pub remove_nth_data-Gone :
    (s : Store) (front : List Cell) (c : Cell) (bs : List Cell) (d size : Out) (ff : Ptr)
    → IsList s (front ++ c ∷ bs)
    → Returns (remove_nth_data this_list d size (length front) ff s) λ r.
      (r.0 ≡ removed_data d size c (used_fn s.list.free_fn ff))
      × Gone s front c bs (used_fn s.list.free_fn ff) r.1
unfolding remove_nth_data
remove_nth_data-Gone s front c bs d size ff is =
    let xs = front ++ c ∷ bs in
    let f = used_fn s.list.free_fn ff in
    let (r, run, h) =
      remove_entry-Gone front c bs s.heap s.list.each_ptr s.list.free_fn ff s.calls d size is.chain
        is.distinct in
    at_store (remove_nth_data this_list d size (length front) ff)
      (λ t r. (r.0 ≡ removed_data d size c f) × Gone t front c bs f r.1) s xs is
      (
        r,
        rw
            (
              find_entry-at s.heap xs (length front) s.list.each_ptr s.list.free_fn s.calls
                  is.chain,
              get_elem?-middle front c bs,
            )
            run,
        h,
      )
