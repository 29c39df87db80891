-- ===== src/ThreadQueue/Tests.antt =====
-- Runs of one call, and the theorems of the queue applied to them.
use libcfu.Common.{ℕ, suc, ◌≡◌, refl, true, false, [], ◌∷◌, ◌++◌, arith}
use libcfu.ThreadQueue.System.{
  returned, System, acquired, found_some, dequeued, released, acquired_entry, ran, signalled,
  released_entry, locked_queue, locked_entry, enqueued, signalled_queue, unlocked_queue, waits,
  relocked_entry, unlocked_entry, has_read, destroyed, works, calls, moves, begins, new, Reach,
  start, later,
}
use libcfu.ThreadQueue.Safety.{Reach-returned}
use libcfu.ThreadQueue.Progress.{CanMove, Reach-CanMove}
use libcfu.ThreadQueue.Liveness.{Inevitably, AllReturned, new-Inevitably}
use libcfu.ThreadQueue.Order.{in_hand, put_order, run_order, put_order-run_order}
use libcfu.ThreadQueue.Spurious.{spurious-null}

abbrev three : ℕ → ℕ
three i = 3

abbrev Reached : System ℕ → Type 0
Reached s = Reach suc 0 three 1 false false s

abbrev put_on : (s : System ℕ) × Reached s
put_on = (
  _,
  later
      (later
        (later
          (later
            (later
              (later (later start (begins 0 (omega arith) refl))
                (moves (calls 0 (omega arith) (locked_queue refl))))
              (moves (calls 0 (omega arith) (locked_entry refl))))
            (moves (calls 0 (omega arith) enqueued)))
          (moves (calls 0 (omega arith) signalled_queue)))
        (moves (calls 0 (omega arith) unlocked_queue)))
      (moves (calls 0 (omega arith) waits)),
)

-- The worker has run the function.
abbrev ran_fn : (s : System ℕ) × Reached s
ran_fn = (
  _,
  later
      (later
        (later
          (later
            (later (later put_on.1 (moves (works (acquired refl))))
              (moves (works (found_some (omega arith)))))
            (moves (works (dequeued refl))))
          (moves (works released)))
        (moves (works (acquired_entry refl))))
      (moves (works ran)),
)

abbrev came_back : (s : System ℕ) × Reached s
came_back = (
  _,
  later
      (later
        (later
          (later (later (later ran_fn.1 (moves (works signalled))) (moves (works released_entry)))
            (moves (calls 0 (omega arith) (relocked_entry refl))))
          (moves (calls 0 (omega arith) unlocked_entry)))
        (moves (calls 0 (omega arith) has_read)))
      (moves (calls 0 (omega arith) destroyed)),
)

Reach-returned_example : 4 ≡ suc (three 0)
Reach-returned_example = Reach-returned suc 0 three 0 4 came_back.1 refl

Reach-CanMove_example : CanMove suc 0 three 1 put_on.0
Reach-CanMove_example = Reach-CanMove suc 0 three 0 put_on.1 refl

new-Inevitably_example : Inevitably suc 0 three 2 (AllReturned suc 0 three 2) (new suc 0 three)
new-Inevitably_example = new-Inevitably suc 0 three 2

spurious-null_example :
    (s : System ℕ) × Reach suc 0 three 1 false true s
    × (s.caller 0 ≡ returned 0)
    × (s.request_queue ≡ 0 ∷ [])
spurious-null_example = spurious-null suc 0 three

put_order-run_order_example :
    put_order suc 0 three ran_fn.1
    ≡ run_order suc 0 three ran_fn.1 ++ (in_hand ran_fn.0.worker ++ ran_fn.0.request_queue)
put_order-run_order_example = put_order-run_order suc 0 three ran_fn.1
