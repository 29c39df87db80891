-- ===== src/List/Whole.antt =====
-- New lists, the count, and positions counted from the end, of src/cfulist.c.
use libcfu.Common.{ℕ, ◌+◌, ◌%◌, ◌^◌, leb, if◌then◌else◌}
use libcfu.List.Store.{
  Ptr, null, CfuList, ListArg, null_list, this_list, Cmd, pure, ◌>>=◌, get_list,
}
use libcfu.List.Inner.{find_entry}

unfoldable pub new : CfuList
new = record { entries = null; tail = null; num_entries = 0; each_ptr = null; free_fn = null }

unfoldable pub new_with_free_fn : Ptr → CfuList
new_with_free_fn free_fn = record new { free_fn = free_fn }

-- `cfulist_num_entries`, which does not test for a null list.
unfoldable pub num_entries : CfuList → ℕ
num_entries list = list.num_entries

-- An `int` as its 32 bits: from 2 ^ 31 on it is negative.
abbrev pub counted_from : CfuList → ℕ → ℕ
counted_from list n = if leb (2 ^ 31) n then (n + list.num_entries) % 2 ^ 32 else n

unfoldable pub find_entry_relative : ListArg → ℕ → Cmd Ptr
find_entry_relative null_list n = pure null
find_entry_relative this_list n = do
  list ← get_list
  let i = counted_from list n
  if leb (2 ^ 31) i then pure null else find_entry this_list i
