-- ===== src/ThreadQueue/Invariant.antt =====
-- What always holds of the threads of src/cfuthread_queue.c.
pub mod Callers
pub mod Workers
use libcfu.Common.{
  ℕ, zero, suc, ◌+◌, ◌-◌, ◌*◌, ◌/◌, ◌%◌, ◌^◌, ◌≤◌, ◌<◌, bit_and, bit_or, bit_xor, ◌≡◌, refl, sym,
  ap, ◌∙◌, subst, ◌≢◌, ◌↔◌, ◌⊎◌, inl, inr, Bool, true, false, not, ◌&&◌, ◌||◌, Option, none, some,
  List, [], ◌∷◌, ◌++◌, map, append-nil, append_assoc, arith, ltb, leb, ◌==◌, if◌then◌else◌,
  Bool-cases, Option-cases, bytes_eq, bytes_eq_iff, length, get_elem?, get_or, set, replicate, take,
  length-append, length-set, length-replicate, get_or-replicate, get_or-set, take_all, length-map,
  length-flatten-set, Run, ok, fault, hangs, ◌>>=◌, Returns, Returns-ok, store_out, set_out,
}
use libcfu.ThreadQueue.System.{
  Owner, nobody, by_worker, by_caller, Entry, WorkerPc, acquire, test, asleep, woken, dequeue,
  release, acquire_entry, run_fn, signal_done, release_entry, CallerPc, idle, lock_queue,
  lock_entry, enqueue, signal_queue, unlock_queue, wait_entry, sleeping, roused, unlock_entry,
  read_out, destroy, returned, update, System, wake_worker, wake_caller, new_entry, goes,
  WorkerMove, acquired, found_empty, found_some, reacquired, dequeued, dequeued_none, continued,
  released, acquired_entry, ran, signalled, released_entry, CallerMove, locked_queue, locked_entry,
  enqueued, signalled_queue, unlocked_queue, waits, relocked_entry, unlocked_entry, has_read,
  destroyed, Move, works, calls, Step, moves, begins, spurious_worker, spurious_caller, new, Reach,
  start, later,
}
use libcfu.ThreadQueue.Holds.{
  is_worker, is_caller, is_call, count, taken, due, holds_mutex, works_on, holds_queue, holds_entry,
  leaves, is_roused, answers, IsGiven, Ready,
}

module _ {A : Type 0} (fn : A → A) (passed : ℕ → A) where
  -- Of call `j`
  pub record InvAt (s : System A) (j : ℕ) : Type 0 where
    pub counted : count j s.request_queue + taken s.worker j ≡ due (s.caller j)
    pub caller_has : is_call (s.entry j).mutex ≡ holds_entry (s.caller j)
    pub worker_has : is_worker (s.entry j).mutex ≡ works_on s.worker j
    pub queue_has : is_caller j s.mutex ≡ holds_queue (s.caller j)
    pub leaving : leaves s.worker j ≡ true → is_roused (s.caller j) ≡ true
    pub kept : (s.entry j).data_in ≡ passed j
    pub answered : answers s.worker j ≡ true → (s.entry j).data_out ≡ fn (passed j)
    pub is_given : IsGiven fn (passed j) (s.entry j) (s.caller j)

  pub record Inv (s : System A) : Type 0 where
    pub at : (j : ℕ) → InvAt s j
    pub worker_mutex : is_worker s.mutex ≡ holds_mutex s.worker
    pub ready : Ready s.worker s.request_queue s.caller
