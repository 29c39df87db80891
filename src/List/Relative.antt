-- ===== src/List/Relative.antt =====
-- Positions counted from the end of a list of src/cfulist.c.
use libcfu.Common.{
  ℕ, ◌+◌, ◌-◌, ◌%◌, ◌^◌, ◌≤◌, ◌<◌, ◌≡◌, true, false, List, arith, leb, length, get_elem?, ok,
}
use libcfu.List.Chain.{Cell, IsList}
use libcfu.List.Store.{Store, this_list}
use libcfu.List.Whole.{find_entry_relative}
use libcfu.List.Nth.{found_at, find_entry-nth}

leb-true : (a b : ℕ) → a ≤ b → leb a b ≡ true
leb-true a b h = ground arith

leb-false : (a b : ℕ) → b < a → leb a b ≡ false
leb-false a b h = ground arith

-- On a list of fewer than 2 ^ 31 cells `_cfulist_find_entry_relative` with the negative number `-k`,
-- `k` from 1 to the length, finds the `k`-th cell from the end, so that -1 is the last.
pub find_entry_relative-last :
    (s : Store) (xs : List Cell) (k : ℕ)
    → IsList s xs
    → length xs < 2 ^ 31
    → 1 ≤ k
    → k ≤ length xs
    → find_entry_relative this_list (2 ^ 32 - k) s ≡ ok (found_at (get_elem? xs (length xs - k)), s)
unfolding find_entry_relative
find_entry_relative-last s xs k is small one most =
    let negative = leb-true (2 ^ 31) (2 ^ 32 - k) (omega arith) in
    let i : (2 ^ 32 - k + s.list.num_entries) % 2 ^ 32 ≡ length xs - k =
      omega (arith, is.num_entries) in
    let positive = leb-false (2 ^ 31) (length xs - k) (omega arith) in
    rw (negative, i, positive) (find_entry-nth s xs (length xs - k) is)
