-- ===== src/List/Ends.antt =====
-- The operations of src/cfulist.c at the two ends of the list.
use libcfu.Common.{
  ℕ, ◌+◌, ◌-◌, ◌^◌, Bool, true, false, Option, none, some, ◌==◌, ltb, leb, if◌then◌else◌, store_out,
  set_out, Run, ok, fault,
}
use libcfu.List.Store.{
  Ptr, null, entry, CfuList, ListArg, null_list, this_list, Cmd, pure, ◌>>=◌, ◌>>◌, load, put_entry,
  set_next, set_prev, free, get_list, put_list, assert, lift,
}

-- `(size_t) -1`
abbrev pub unknown_size : ℕ
unknown_size = 2 ^ 64 - 1

-- `*data` and `*data_size` of the caller: `none` is a null pointer, `some` the value stored.
abbrev pub Out : Type 0
Out = Option ℕ

-- The return value with both out-parameters.
pub record Result : Type 0 where
  pub done : Bool
  pub value : Out
  pub size : Out

abbrev pub result : Bool → Out → Out → Result
result b d n = record { done = b; value = d; size = n }

-- `strlen` is the length of the string at an address; `fresh` is what `malloc` returns.
module _ (strlen : Ptr → ℕ) where
  -- `strlen` of a null pointer faults.
  unfoldable pub size_of : Ptr → ℕ → Run ℕ
  size_of d n = if n == unknown_size then (if d == null then fault else ok (strlen d + 1)) else ok n

  -- `new_list_entry`, then the two fields.
  abbrev pub fill_entry : (fresh d : Ptr) → ℕ → Cmd (Unit {0})
  fill_entry fresh d n = do k ← lift (size_of d n); put_entry fresh (some (entry d k null null))

  unfoldable pub push_data : ListArg → (fresh d : Ptr) → ℕ → Cmd Bool
  push_data arg fresh d n = if fresh == null then pure false else do
    fill_entry fresh d n
    l ← lift (elim arg [ null_list ↦ fault | this_list ↦ ok tt ]) >> get_list
    if l.tail == null
        then put_list (record l { tail = fresh; entries = fresh; num_entries = l.num_entries + 1 })
        else do
          set_prev fresh l.tail
          set_next l.tail fresh
          put_list (record l { tail = fresh; num_entries = l.num_entries + 1 })
    pure true

  unfoldable pub unshift_data : ListArg → (fresh d : Ptr) → ℕ → Cmd Bool
  unshift_data arg fresh d n = if fresh == null then pure false else do
    fill_entry fresh d n
    l ← lift (elim arg [ null_list ↦ fault | this_list ↦ ok tt ]) >> get_list
    if l.entries == null
        then put_list (record l { tail = fresh; entries = fresh; num_entries = l.num_entries + 1 })
        else do
          set_next fresh l.entries
          set_prev l.entries fresh
          put_list (record l { entries = fresh; num_entries = l.num_entries + 1 })
    pure true

  unfoldable pub enqueue_data : ListArg → (fresh d : Ptr) → ℕ → Cmd Bool
  enqueue_data = push_data

  unfoldable pub push : ListArg → (fresh d : Ptr) → Cmd Bool
  push arg fresh d = push_data arg fresh d 0

  unfoldable pub unshift : ListArg → (fresh d : Ptr) → Cmd Bool
  unshift arg fresh d = unshift_data arg fresh d 0

  unfoldable pub enqueue : ListArg → (fresh d : Ptr) → Cmd Bool
  enqueue = push

  unfoldable pub push_string : ListArg → (fresh d : Ptr) → Cmd Bool
  push_string arg fresh d = push_data arg fresh d unknown_size

  unfoldable pub unshift_string : ListArg → (fresh d : Ptr) → Cmd Bool
  unshift_string arg fresh d = unshift_data arg fresh d unknown_size

  unfoldable pub enqueue_string : ListArg → (fresh d : Ptr) → Cmd Bool
  enqueue_string = push_string

-- The branch with two entries or more, and the one with the last entry alone.
unfoldable pub pop_tail : CfuList → (prev : Ptr) → Out → Out → Cmd Result
pop_tail l new_tail d n =
    if new_tail == null
    then (do
      assert (l.num_entries == 1)
      e ← load l.tail
      d' ← lift (store_out d e.value)
      free l.tail
      put_list (record l { tail = null; entries = null; num_entries = l.num_entries - 1 })
      pure (result true d' (set_out n e.data_size)))
    else do
      assert (ltb 1 l.num_entries)
      set_next new_tail null
      e ← load l.tail
      d' ← lift (store_out d e.value)
      free l.tail
      put_list (record l { tail = new_tail; num_entries = l.num_entries - 1 })
      pure (result true d' (set_out n e.data_size))

-- Without a list both out-parameters are written with no test.
unfoldable pub pop_data : ListArg → Out → Out → Cmd Result
pop_data null_list d n = do
  d' ← lift (store_out d null)
  n' ← lift (store_out n 0)
  pure (result false d' n')
pop_data this_list d n = do
  l ← get_list
  if l.tail == null
      then pure (result false d (set_out n 0))
      else do e ← load l.tail; pop_tail l e.prev d n

unfoldable pub shift_head : CfuList → (next : Ptr) → Cmd (Unit {0})
shift_head l next =
    if next == null
    then (do
      assert (l.num_entries == 1)
      free l.entries
      put_list (record l { tail = null; entries = null; num_entries = l.num_entries - 1 }))
    else do
      assert (ltb 1 l.num_entries)
      set_prev next null
      free l.entries
      put_list (record l { entries = next; num_entries = l.num_entries - 1 })

unfoldable pub shift_data : ListArg → Out → Out → Cmd Result
shift_data null_list d n = do d' ← lift (store_out d null); pure (result false d' (set_out n 0))
shift_data this_list d n = do
  l ← get_list
  if l.entries == null
      then (do
        assert (l.num_entries == 0)
        d' ← lift (store_out d null)
        pure (result false d' (set_out n 0)))
      else do
        e ← load l.entries
        assert (leb 1 l.num_entries)
        d' ← lift (store_out d e.value)
        shift_head l e.next
        pure (result true d' (set_out n e.data_size))

unfoldable pub dequeue_data : ListArg → Out → Out → Cmd Result
dequeue_data = shift_data

-- The data of an entry at an end; with none the size is written with no test.
unfoldable pub peek : Ptr → Out → Out → Cmd Result
peek p d n =
    if p == null
    then (do d' ← lift (store_out d null); n' ← lift (store_out n 0); pure (result false d' n'))
    else do
      e ← load p
      d' ← lift (store_out d e.value)
      pure (result true d' (set_out n e.data_size))

unfoldable pub first_data : ListArg → Out → Out → Cmd Result
first_data null_list d n = pure (result false d n)
first_data this_list d n = do l ← get_list; peek l.entries d n

unfoldable pub last_data : ListArg → Out → Out → Cmd Result
last_data null_list d n = pure (result false d n)
last_data this_list d n = do l ← get_list; peek l.tail d n

-- The data that a function hands back by its return value.
abbrev pub returned : Result → Ptr
returned r = if r.done then (elim r.value [ none ↦ null | some d ↦ d ]) else null

unfoldable pub pop : ListArg → Cmd Ptr
pop arg = do r ← pop_data arg (some null) none; pure (returned r)

unfoldable pub shift : ListArg → Cmd Ptr
shift arg = do r ← shift_data arg (some null) none; pure (returned r)

unfoldable pub dequeue : ListArg → Cmd Ptr
dequeue = shift

unfoldable pub pop_string : ListArg → Cmd Ptr
pop_string arg = do r ← pop_data arg (some null) none; pure (returned r)

unfoldable pub shift_string : ListArg → Cmd Ptr
shift_string arg = do r ← shift_data arg (some null) none; pure (returned r)

unfoldable pub dequeue_string : ListArg → Cmd Ptr
dequeue_string = shift_string
