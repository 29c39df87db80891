-- ===== src/List/Inner.antt =====
-- Insertion, removal and lookup at an entry or a position, and the walks, of src/cfulist.c.
use libcfu.Common.{
  ℕ, zero, suc, ◌+◌, ◌-◌, Bool, true, false, not, ◌||◌, none, ◌==◌, ltb, leb, if◌then◌else◌,
  set_out, hangs,
}
use libcfu.List.Store.{
  CfuList, Ptr, null, Entry, ListArg, null_list, this_list, Cmd, pure, ◌>>=◌, ◌>>◌, load, set_next,
  set_prev, free, get_list, put_list, assert, call_free,
}
use libcfu.List.Ends.{Out, Result, result}

-- Whether data and size are cleared, by whether a free function was called.
abbrev pub freed_value : Ptr → Entry → Ptr
freed_value ff e = if ff == null then e.value else null

abbrev pub freed_size : Ptr → Entry → ℕ
freed_size ff e = if ff == null then e.data_size else 0

-- `_cfulist_free_entry`
unfoldable pub free_entry : (p list_ff override_ff : Ptr) → Out → Out → Cmd Result
free_entry p list_ff override_ff d n = if p == null then pure (result true d n) else do
  let ff = if override_ff == null then list_ff else override_ff
  e ← load p
  if ff == null then pure tt else call_free ff e.value
  free p
  pure (result true (set_out d (freed_value ff e)) (set_out n (freed_size ff e)))

-- `assert(p && !p->prev)` and `assert(p && !p->next)`
abbrev pub assert_head : Ptr → Cmd (Unit {0})
assert_head p = do assert (not (p == null)); e ← load p; assert (e.prev == null)

abbrev pub assert_tail : Ptr → Cmd (Unit {0})
assert_tail p = do assert (not (p == null)); e ← load p; assert (e.next == null)

-- `_cfulist_add_entry_at`; `old` is the entry to shift.
unfoldable pub add_after : (new old : Ptr) → Cmd (Unit {0})
add_after new old = do
  set_prev new old
  l ← get_list
  if old == null then (do set_next new null; put_list (record l { tail = new })) else do
    o ← load old
    set_next new o.next
    if o.next == null then put_list (record l { tail = new }) else set_prev o.next new
    set_next old new

unfoldable pub add_before : (new old : Ptr) → Cmd (Unit {0})
add_before new old = do
  l ← get_list
  if old == null
      then (do set_prev new null; set_next new null; put_list (record l { entries = new }))
      else do
        o ← load old
        set_prev new o.prev
        set_next new old
        if o.prev == null then put_list (record l { entries = new }) else set_next o.prev new
        set_prev old new

unfoldable pub add_entry_at : ListArg → (new old : Ptr) → Bool → Cmd Bool
add_entry_at null_list new old shift_old_left = pure false
add_entry_at this_list new old shift_old_left = if new == null then pure false else do
  l ← get_list
  if shift_old_left
      then add_after new (if old == null then l.tail else old)
      else add_before new (if old == null then l.entries else old)
  l' ← get_list
  put_list (record l' { num_entries = l'.num_entries + 1 })
  assert_head l'.entries
  assert_tail l'.tail
  pure true

-- The parts of `_cfulist_unlink_entry`: the neighbour behind, the one before, the assertions.
unfoldable pub relink_next : Entry → Cmd (Unit {0})
relink_next e = do
  l ← get_list
  if e.next == null then put_list (record l { tail = e.prev }) else set_prev e.next e.prev

unfoldable pub relink_prev : Entry → Cmd (Unit {0})
relink_prev e = do
  l ← get_list
  if e.prev == null then put_list (record l { entries = e.next }) else set_next e.prev e.next

unfoldable pub check_ends : CfuList → Cmd (Unit {0})
check_ends l = do
  if l.entries == null then pure tt else assert_head l.entries
  if l.tail == null then pure tt else assert_tail l.tail

-- `_cfulist_unlink_entry`, without its tests for null pointers.
unfoldable pub unlink : Ptr → Cmd (Unit {0})
unlink p = do
  e ← load p
  relink_next e
  e' ← load p
  relink_prev e'
  l ← get_list
  assert (ltb 0 l.num_entries)
  put_list (record l { num_entries = l.num_entries - 1 })
  check_ends l

unfoldable pub unlink_entry : ListArg → Ptr → Cmd Bool
unlink_entry null_list p = pure false
unlink_entry this_list p = if p == null then pure false else do unlink p; pure true

unfoldable pub remove_entry : ListArg → (p ff : Ptr) → Out → Out → Cmd Result
remove_entry null_list p ff d n = pure (result false d n)
remove_entry this_list p ff d n =
    if p == null
    then pure (result false d n)
    else do unlink p; l ← get_list; free_entry p l.free_fn ff d n

-- The loop of `_cfulist_find_entry`, by the steps left. It ends at a null pointer or at `i == n`,
-- so that its last assertion holds.
unfoldable pub find_loop : ℕ → Ptr → Cmd Ptr
find_loop zero p = pure p
find_loop (suc k) p = if p == null then pure null else do e ← load p; find_loop k e.next

unfoldable pub find_entry : ListArg → ℕ → Cmd Ptr
find_entry null_list n = pure null
find_entry this_list n = do
  l ← get_list
  if leb l.num_entries n then pure null else find_loop n l.entries

unfoldable pub nth_data : ListArg → Out → Out → ℕ → Cmd Result
nth_data null_list d size n = pure (result false d size)
nth_data this_list d size n = do
  p ← find_entry this_list n
  if p == null
      then pure (result false d size)
      else do e ← load p; pure (result true (set_out d e.value) (set_out size e.data_size))

unfoldable pub remove_nth_data : ListArg → Out → Out → ℕ → Ptr → Cmd Result
remove_nth_data null_list d size n ff = pure (result false d size)
remove_nth_data this_list d size n ff = do
  p ← find_entry this_list n
  remove_entry this_list p ff d size

unfoldable pub reset_each : ListArg → Cmd (Unit {0})
reset_each null_list = pure tt
reset_each this_list = do l ← get_list; put_list (record l { each_ptr = l.entries })

unfoldable pub next_data : ListArg → Out → Out → Cmd Result
next_data null_list d n = pure (result false d n)
next_data this_list d n = do
  l ← get_list
  if l.each_ptr == null then pure (result false d n) else do
    e ← load l.each_ptr
    put_list (record l { each_ptr = e.next })
    pure (result true (set_out d e.value) (set_out n e.data_size))

unfoldable pub each_data : ListArg → Out → Out → Cmd Result
each_data null_list d n = pure (result false d n)
each_data this_list d n = reset_each this_list >> next_data this_list d n

-- A callback on data and size, with its state; the flag says that it returned other than zero.
abbrev pub Callback : Type 0 → Type 0
Callback S = S → Ptr → ℕ → S × Bool

module _ {S : Type 0} (fn : Callback S) where
  -- Fuel stands for the entries left: a loop that outlasts it goes round in a ring.
  unfoldable pub foreach_loop : ℕ → Ptr → S → Bool → ℕ → Cmd (S × ℕ)
  foreach_loop zero p s rv n = λ _. hangs
  foreach_loop (suc k) p s rv n =
      if (p == null) || rv
      then pure (s, n)
      else do e ← load p; let r = fn s e.value e.data_size; foreach_loop k e.next r.0 r.1 (n + 1)

  unfoldable pub foreach : ListArg → S → Cmd (S × ℕ)
  foreach null_list s = pure (s, 0)
  foreach this_list s = do l ← get_list; foreach_loop (l.num_entries + 1) l.entries s false 0

  unfoldable pub foreach_remove_loop : ℕ → (ff p : Ptr) → S → ℕ → Cmd (S × ℕ)
  foreach_remove_loop zero ff p s n = λ _. hangs
  foreach_remove_loop (suc k) ff p s n = if p == null then pure (s, n) else do
    e ← load p
    let r = fn s e.value e.data_size
    n' ←
        if r.1
        then (do
          removed ← remove_entry this_list p ff none none
          pure (if removed.done then n + 1 else n))
        else pure n
    e' ← load p
    foreach_remove_loop k ff e'.next r.0 n'

  unfoldable pub foreach_remove : ListArg → (ff : Ptr) → S → Cmd (S × ℕ)
  foreach_remove null_list ff s = pure (s, 0)
  foreach_remove this_list ff s = do
    l ← get_list
    foreach_remove_loop (l.num_entries + 1) ff l.entries s 0

unfoldable pub destroy_loop : ℕ → (list_ff ff p : Ptr) → Cmd (Unit {0})
destroy_loop zero list_ff ff p = λ _. hangs
destroy_loop (suc k) list_ff ff p =
    if p == null
    then pure tt
    else do e ← load p; free_entry p list_ff ff none none; destroy_loop k list_ff ff e.next

-- The list itself is freed last.
unfoldable pub destroy_with_free_fn : ListArg → Ptr → Cmd (Unit {0})
destroy_with_free_fn null_list ff = pure tt
destroy_with_free_fn this_list ff = do
  l ← get_list
  destroy_loop (l.num_entries + 1) l.free_fn ff l.entries

unfoldable pub destroy : ListArg → Cmd (Unit {0})
destroy arg = destroy_with_free_fn arg null
