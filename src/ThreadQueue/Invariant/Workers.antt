-- ===== src/ThreadQueue/Invariant/Workers.antt =====
-- A step of the thread of `_run_queue` keeps each part of the invariant.
use libcfu.Common.{ℕ, ◌+◌, ◌≤◌, ◌≡◌, refl, inl, true, some, [], ◌∷◌, arith, length}
use libcfu.ThreadQueue.System.{
  nobody, WorkerPc, release, acquire_entry, run_fn, signal_done, release_entry, System, WorkerMove,
  acquired, found_empty, found_some, reacquired, dequeued, dequeued_none, acquired_entry,
}
use libcfu.ThreadQueue.Holds.{
  is_worker, is_caller, is_call, count, taken, due, holds_mutex, works_on, holds_queue, holds_entry,
  leaves, is_roused, answers, IsGiven, Ready,
}
use libcfu.ThreadQueue.Invariant.{Inv}

module _ {A : Type 0} (fn : A → A) (null : A) (passed : ℕ → A) {s : System A}
    (inv : Inv fn passed s) where
  open inv use {at, worker_mutex, ready}

  abbrev Guard : {w : WorkerPc} {t : System A} → WorkerMove fn null passed s w t → Type 0
  Guard (acquired _) = s.mutex ≡ nobody
  Guard (reacquired _) = s.mutex ≡ nobody
  Guard (found_empty _) = s.request_queue ≡ []
  Guard (found_some _) = 1 ≤ length s.request_queue
  Guard (dequeued {r} {rest} _) = s.request_queue ≡ r ∷ rest
  Guard (dequeued_none _) = s.request_queue ≡ []
  Guard (acquired_entry {r} _) = (s.entry r).mutex ≡ nobody
  Guard _ = Unit

  guard : {w : WorkerPc} {t : System A} (mv : WorkerMove fn null passed s w t) → Guard mv
  guard (acquired g) = g
  guard (reacquired g) = g
  guard (found_empty g) = g
  guard (found_some g) = g
  guard (dequeued g) = g
  guard (dequeued_none g) = g
  guard (acquired_entry g) = g
  guard _ = tt

  -- The entry that the worker has
  abbrev served : WorkerPc → ℕ
  served (release (some r)) = r
  served (acquire_entry r) = r
  served (run_fn r) = r
  served (signal_done r) = r
  served (release_entry r) = r
  served _ = 0

  counted :
      {w : WorkerPc} {t : System A}
      → WorkerMove fn null passed s w t
      → s.worker ≡ w
      → (j : ℕ) → count j t.request_queue + taken t.worker j ≡ due (t.caller j)
  unfolding count
  counted (acquired free) e j = ground (arith, (at j).counted)
  counted {w} mv e j = ground (
    arith,
    guard mv,
    (at j).counted,
    (at (served w)).counted,
    (at (served w)).caller_has,
    (at (served w)).worker_has,
  )

  caller_has :
      {w : WorkerPc} {t : System A}
      → WorkerMove fn null passed s w t
      → s.worker ≡ w
      → (j : ℕ) → is_call (t.entry j).mutex ≡ holds_entry (t.caller j)
  caller_has (acquired free) e j = ground (arith, (at j).caller_has)
  caller_has {w} mv e j = ground (
    arith,
    guard mv,
    (at j).caller_has,
    (at (served w)).counted,
    (at (served w)).caller_has,
    (at (served w)).worker_has,
  )

  worker_has :
      {w : WorkerPc} {t : System A}
      → WorkerMove fn null passed s w t
      → s.worker ≡ w
      → (j : ℕ) → is_worker (t.entry j).mutex ≡ works_on t.worker j
  worker_has (acquired free) e j = ground (arith, (at j).worker_has)
  worker_has {w} mv e j = ground (
    arith,
    guard mv,
    (at j).worker_has,
    (at (served w)).counted,
    (at (served w)).caller_has,
    (at (served w)).worker_has,
  )

  queue_has :
      {w : WorkerPc} {t : System A}
      → WorkerMove fn null passed s w t
      → s.worker ≡ w
      → (j : ℕ) → is_caller j t.mutex ≡ holds_queue (t.caller j)
  queue_has (acquired free) e j = ground (arith, (at j).queue_has, worker_mutex)
  queue_has {w} mv e j = ground (
    arith,
    guard mv,
    (at j).queue_has,
    worker_mutex,
    (at (served w)).counted,
    (at (served w)).caller_has,
    (at (served w)).worker_has,
  )

  leaving :
      {w : WorkerPc} {t : System A}
      → WorkerMove fn null passed s w t
      → s.worker ≡ w
      → (j : ℕ) → leaves t.worker j ≡ true
      → is_roused (t.caller j) ≡ true
  leaving (acquired free) e j = ground (arith, (at j).leaving)
  leaving {w} mv e j = ground (
    arith,
    guard mv,
    (at j).leaving,
    (at (served w)).counted,
    (at (served w)).caller_has,
    (at (served w)).worker_has,
  )

  kept :
      {w : WorkerPc} {t : System A}
      → WorkerMove fn null passed s w t
      → s.worker ≡ w
      → (j : ℕ) → (t.entry j).data_in ≡ passed j
  kept (acquired free) e j = ground (arith, (at j).kept)
  kept {w} mv e j = ground (
    arith,
    guard mv,
    (at j).kept,
    (at (served w)).counted,
    (at (served w)).caller_has,
    (at (served w)).worker_has,
  )

  answered :
      {w : WorkerPc} {t : System A}
      → WorkerMove fn null passed s w t
      → s.worker ≡ w
      → (j : ℕ) → answers t.worker j ≡ true
      → (t.entry j).data_out ≡ fn (passed j)
  answered (acquired free) e j = ground (arith, (at j).answered, (at j).kept)
  answered {w} mv e j = ground (
    arith,
    guard mv,
    (at j).answered,
    (at j).kept,
    (at (served w)).counted,
    (at (served w)).caller_has,
    (at (served w)).worker_has,
  )

  is_given :
      {w : WorkerPc} {t : System A}
      → WorkerMove fn null passed s w t
      → s.worker ≡ w
      → (j : ℕ) → IsGiven fn (passed j) (t.entry j) (t.caller j)
  is_given (acquired free) e j = ground (arith, (at j).is_given, (at j).answered, (at j).caller_has)
  is_given {w} mv e j = ground (
    arith,
    guard mv,
    (at j).is_given,
    (at j).answered,
    (at j).caller_has,
    (at (served w)).counted,
    (at (served w)).caller_has,
    (at (served w)).worker_has,
  )

  worker_mutex_kept :
      {w : WorkerPc} {t : System A}
      → WorkerMove fn null passed s w t
      → s.worker ≡ w
      → is_worker t.mutex ≡ holds_mutex t.worker
  worker_mutex_kept (acquired free) e = ground (arith, worker_mutex)
  worker_mutex_kept mv e = ground (arith, guard mv, worker_mutex)

  Ready-kept :
      {w : WorkerPc} {t : System A}
      → WorkerMove fn null passed s w t
      → s.worker ≡ w
      → Ready t.worker t.request_queue t.caller
  Ready-kept (found_empty g) e = inl g
  Ready-kept (found_some g) e = g
  Ready-kept mv e = tt

  pub WorkerMove-Inv : {t : System A} → WorkerMove fn null passed s s.worker t → Inv fn passed t
  WorkerMove-Inv mv = record {
    at = λ j. record {
      counted = counted mv refl j;
      caller_has = caller_has mv refl j;
      worker_has = worker_has mv refl j;
      queue_has = queue_has mv refl j;
      leaving = leaving mv refl j;
      kept = kept mv refl j;
      answered = answered mv refl j;
      is_given = is_given mv refl j;
    };
    worker_mutex = worker_mutex_kept mv refl;
    ready = Ready-kept mv refl;
  }
