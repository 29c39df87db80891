-- ===== src/List/Store.antt =====
-- The memory that src/cfulist.c works on: entries at addresses, and one list.
use libcfu.Common.{
  ℕ, Bool, true, false, Option, none, some, List, [], ◌∷◌, ◌++◌, ◌==◌, if◌then◌else◌, Run, ok,
  fault,
}

abbrev pub Ptr : Type 0
Ptr = ℕ

abbrev pub null : Ptr
null = 0

-- `struct cfulist_entry`
pub record Entry : Type 0 where
  pub value : Ptr
  pub data_size : ℕ
  pub next : Ptr
  pub prev : Ptr

abbrev pub entry : Ptr → ℕ → Ptr → Ptr → Entry
entry d n next prev = record { value = d; data_size = n; next = next; prev = prev }

-- `struct cfulist`, without its constant type and its mutex: one thread runs. `num_entries` counts
-- allocated entries, so it does not wrap.
pub record CfuList : Type 0 where
  pub entries : Ptr
  pub tail : Ptr
  pub num_entries : ℕ
  pub each_ptr : Ptr
  pub free_fn : Ptr

abbrev pub Heap : Type 0
Heap = Ptr → Option Entry

-- `calls` lists the calls of free functions: the function and the data.
pub record Store : Type 0 where
  pub heap : Heap
  pub list : CfuList
  pub calls : List (Ptr × Ptr)

-- The list that a function is called on: a null pointer, or the list of the store.
pub data ListArg : Type 0 where
  null_list this_list : ListArg

abbrev pub Cmd : Type 0 → Type 0
Cmd A = Store → Run (A × Store)

abbrev pub pure : {A : Type 0} → A → Cmd A
pure a s = ok (a, s)

module _ {A B : Type 0} where
  abbrev pub and_then : Run (A × Store) → (A → Cmd B) → Run (B × Store)
  and_then (ok (a, s)) k = k a s
  and_then fault k = fault
  and_then Run.hangs k = Run.hangs

  infixl 5 ◌>>=◌ ◌>>◌
  abbrev pub ◌>>=◌ : Cmd A → (A → Cmd B) → Cmd B
  m >>= k = λ s. and_then (m s) k

  abbrev pub ◌>>◌ : Cmd A → Cmd B → Cmd B
  m >> n = m >>= λ _. n

abbrev pub write : Heap → Ptr → Option Entry → Heap
write h p c a = if a == p then c else h a

-- `*p`: a fault at a null pointer and at an address that holds no entry.
unfoldable pub load : Ptr → Cmd Entry
load p s = if p == null then fault else elim (s.heap p) [ none ↦ fault | some e ↦ ok (e, s) ]

abbrev pub put_entry : Ptr → Option Entry → Cmd (Unit {0})
put_entry p c s = ok (tt, record s { heap = write s.heap p c })

unfoldable pub set_next : Ptr → Ptr → Cmd (Unit {0})
set_next p q = do e ← load p; put_entry p (some (record e { next = q }))

unfoldable pub set_prev : Ptr → Ptr → Cmd (Unit {0})
set_prev p q = do e ← load p; put_entry p (some (record e { prev = q }))

unfoldable pub free : Ptr → Cmd (Unit {0})
free p = do load p; put_entry p none

abbrev pub get_list : Cmd CfuList
get_list s = ok (s.list, s)

abbrev pub put_list : CfuList → Cmd (Unit {0})
put_list l s = ok (tt, record s { list = l })

abbrev pub assert : Bool → Cmd (Unit {0})
assert true s = ok (tt, s)
assert false s = fault

abbrev pub lift : {A : Type 0} → Run A → Cmd A
lift (ok a) s = ok (a, s)
lift fault s = fault
lift Run.hangs s = Run.hangs

-- `ff(data)`
abbrev pub call_free : Ptr → Ptr → Cmd (Unit {0})
call_free ff d s = ok (tt, record s { calls = s.calls ++ (ff, d) ∷ [] })
