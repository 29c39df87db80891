-- ===== src/List/Tests.antt =====
-- Runs on a list of two entries in memory, and the theorems of the list applied to them.
use libcfu.Common.{
  ℕ, ◌+◌, ◌≡◌, refl, ◌⊎◌, Option, none, some, List, [], ◌∷◌, ◌++◌, arith, ltb, ◌==◌, if◌then◌else◌,
  replicate, length-replicate, fault, Returns,
}
use libcfu.List.Join.{join, join-joined}
use libcfu.List.Map.{map_list, mapped, map_list-mapped}
use libcfu.List.Store.{Ptr, null, entry, Heap, Store, this_list}
use libcfu.List.Chain.{Cell, IsList, has}
use libcfu.List.Steps.{store_of}
use libcfu.List.Push.{cell, Pushed, push_data-append}
use libcfu.List.Pop.{Taken, pop_data-last}
use libcfu.List.Shift.{shift_data-first}
use libcfu.List.Inner.{Callback, remove_nth_data, foreach_remove, destroy_with_free_fn}
use libcfu.List.Ends.{unknown_size, push_data, pop_data, shift_data}
use libcfu.List.Remove.{removed_data, Gone, remove_nth_data-Gone}
use libcfu.List.Walk.{all_calls, destroy_with_free_fn-frees}
use libcfu.List.Sweep.{kept_all, foreach_remove-faults}

-- Data at 100 and 200, entries at 10 and 20; the free function is at 7.
abbrev front : Cell
front = cell 10 100 4

abbrev back : Cell
back = cell 20 200 8

abbrev memory : Heap
memory p =
    if p == 10
    then some (entry 100 4 20 null)
    else if p == 20
    then some (entry 200 8 null 10)
    else none

abbrev two : Store
two = store_of memory (front ∷ back ∷ []) null 7 []

abbrev cells : List Cell
cells = front ∷ back ∷ []

two-IsList : IsList two cells
two-IsList = record {
  entries = refl;
  tail = refl;
  num_entries = refl;
  chain = (ground arith, refl, (ground arith, refl, tt));
  distinct = (refl, (refl, tt));
}

abbrev strlen : Ptr → ℕ
strlen p = 5

-- The size of the string is asked for, so the entry gets `strlen` and its end mark.
push_data-append_example :
    Returns
      (push_data strlen this_list 30 300 unknown_size two)
      (Pushed strlen 30 300 unknown_size cells (cells ++ cell 30 300 6 ∷ []) two)
push_data-append_example =
    push_data-append strlen 30 300 unknown_size two cells two-IsList (λ e. ground arith)
      (ground arith) refl

pop_data-last_example :
    Returns
      (pop_data this_list (some 0) (some 0) two)
      (Taken back 0 (some 0) cells (front ∷ []) two)
pop_data-last_example = pop_data-last 0 (some 0) two back (front ∷ []) two-IsList

shift_data-first_example :
    Returns (shift_data this_list (some 0) none two) (Taken front 0 none cells (back ∷ []) two)
shift_data-first_example = shift_data-first 0 none two front (back ∷ []) two-IsList

remove_nth_data-Gone_example :
    Returns
      (remove_nth_data this_list (some 0) none 1 9 two)
      λ r. (r.0 ≡ removed_data (some 0) none back 9) × Gone two (front ∷ []) back [] 9 r.1
remove_nth_data-Gone_example =
    remove_nth_data-Gone two (front ∷ []) back [] (some 0) none 9 two-IsList

-- A callback that adds up the sizes and stops at a size above 6.
abbrev add_sizes : Callback ℕ
add_sizes n d k = (n + k, ltb 6 k)

destroy_with_free_fn-frees_example : Returns (destroy_with_free_fn this_list null two) λ r.
    (r.1.calls ≡ two.calls ++ all_calls 7 cells)
    × ((p : Ptr) → r.1.heap p ≡ (if has p cells then none else two.heap p))
destroy_with_free_fn-frees_example = destroy_with_free_fn-frees two cells null two-IsList

foreach_remove-faults_example : foreach_remove add_sizes this_list null 0 two ≡ fault
unfolding kept_all
foreach_remove-faults_example = foreach_remove-faults add_sizes two cells 0 null two-IsList

-- "a" at 100 and "b" anywhere else
abbrev letters : Ptr → Option (List ℕ)
letters p = if p == 100 then some (97 ∷ 0 ∷ []) else some (98 ∷ 0 ∷ [])

abbrev zeros : ℕ → List ℕ
zeros n = replicate n 0

join-joined_example : Returns (join zeros letters (some (44 ∷ 0 ∷ [])) this_list two) λ r.
    (r.1 ≡ two)
    × ((r.0 ≡ some (97 ∷ 44 ∷ 98 ∷ 0 ∷ []))
        ⊎ ((r.0 ≡ none) × (◌≡◌ {A = List ℕ} (97 ∷ 44 ∷ 98 ∷ []) [])))
join-joined_example =
    join-joined zeros (λ n. length-replicate n 0) letters (44 ∷ []) [] (ground arith, tt) two cells
      ((97 ∷ []) ∷ (98 ∷ []) ∷ []) two-IsList
      (([], refl, (ground arith, tt)), (([], refl, (ground arith, tt)), tt))

-- Data and size are both made one larger.
abbrev one_more : Ptr → ℕ → Ptr × ℕ
one_more d n = (d + 1, n + 1)

map_list-mapped_example :
    Returns
      (map_list (λ d. 3) (λ k. k + 1) one_more this_list two)
      λ r. IsList r.0 (mapped (λ d. 3) (λ k. k + 1) one_more 0 cells) × (r.1 ≡ two)
map_list-mapped_example =
    map_list-mapped (λ d. 3) (λ k. k + 1) one_more (λ k. ground arith) (λ i j l. ground arith)
      (λ d n e. ground arith) two cells two-IsList
