-- ===== src/ThreadQueue/Spurious.antt =====
-- A wait of `cfuthread_queue_make_request` of src/cfuthread_queue.c that ends without a signal.
use libcfu.Common.{ℕ, ◌≡◌, refl, true, false, [], ◌∷◌, arith}
use libcfu.ThreadQueue.System.{
  returned, System, locked_queue, locked_entry, enqueued, signalled_queue, unlocked_queue, waits,
  relocked_entry, unlocked_entry, has_read, destroyed, calls, moves, begins, spurious_caller, Reach,
  start, later,
}

module _ {A : Type 0} (fn : A → A) (null : A) (passed : ℕ → A) where
  -- When the wait of a call may end without a signal, as POSIX permits, a call can return the null pointer
  -- for any function and data, and its entry, then destroyed, is still in the queue.
  pub spurious-null :
      (s : System A) × Reach fn null passed 1 false true s
      × (s.caller 0 ≡ returned null)
      × (s.request_queue ≡ 0 ∷ [])
  spurious-null = (
    _,
    later
        (later
          (later
            (later
              (later
                (later
                  (later
                    (later
                      (later
                        (later
                          (later (later start (begins 0 (omega arith) refl))
                            (moves (calls 0 (omega arith) (locked_queue refl))))
                          (moves (calls 0 (omega arith) (locked_entry refl))))
                        (moves (calls 0 (omega arith) enqueued)))
                      (moves (calls 0 (omega arith) signalled_queue)))
                    (moves (calls 0 (omega arith) unlocked_queue)))
                  (moves (calls 0 (omega arith) waits)))
                (spurious_caller 0 refl refl))
              (moves (calls 0 (omega arith) (relocked_entry refl))))
            (moves (calls 0 (omega arith) unlocked_entry)))
          (moves (calls 0 (omega arith) has_read)))
        (moves (calls 0 (omega arith) destroyed)),
    refl,
    refl,
  )
