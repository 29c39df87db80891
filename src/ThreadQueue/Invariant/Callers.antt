-- ===== src/ThreadQueue/Invariant/Callers.antt =====
-- A step of a call of `cfuthread_queue_make_request` keeps each part of the invariant.
use libcfu.Common.{
  ℕ, ◌+◌, ◌≡◌, refl, ◌≢◌, inl, inr, true, false, List, [], ◌∷◌, ◌++◌, arith, ◌==◌, if◌then◌else◌,
  length-append,
}
use libcfu.ThreadQueue.System.{
  nobody, WorkerPc, asleep, dequeue, CallerPc, signal_queue, unlock_queue, update, System,
  wake_worker, CallerMove, locked_queue, locked_entry, enqueued, signalled_queue, relocked_entry,
}
use libcfu.ThreadQueue.Holds.{
  is_worker, is_caller, is_call, count, taken, due, holds_mutex, works_on, holds_queue, holds_entry,
  leaves, is_roused, answers, IsGiven, Ready,
}
use libcfu.ThreadQueue.Invariant.{Inv}

pub count-enqueue :
    (j i : ℕ) (queue : List ℕ)
    → count j (queue ++ i ∷ []) ≡ count j queue + (if i == j then 1 else 0)
unfolding count
count-enqueue j i [] = omega arith
count-enqueue j i (k ∷ queue) = rw (count-enqueue j i queue) (omega arith)

module _ {A : Type 0} (fn : A → A) (null : A) (passed : ℕ → A) {s : System A}
    (inv : Inv fn passed s) (i : ℕ) where
  open inv use {at, worker_mutex, ready}

  abbrev Guard : {p : CallerPc A} {t : System A} → CallerMove fn null passed i s p t → Type 0
  Guard (locked_queue _) = s.mutex ≡ nobody
  Guard (locked_entry _) = (s.entry i).mutex ≡ nobody
  Guard (relocked_entry _) = (s.entry i).mutex ≡ nobody
  Guard _ = Unit

  guard : {p : CallerPc A} {t : System A} (mv : CallerMove fn null passed i s p t) → Guard mv
  guard (locked_queue free) = free
  guard (locked_entry free) = free
  guard (relocked_entry free) = free
  guard _ = tt

  counted :
      {p : CallerPc A} {t : System A}
      → CallerMove fn null passed i s p t
      → s.caller i ≡ p
      → (j : ℕ) → count j t.request_queue + taken t.worker j ≡ due (t.caller j)
  counted (locked_queue free) e j = ground (arith, (at j).counted)
  counted mv e j = ground (arith, (at j).counted, count-enqueue j i s.request_queue)

  caller_has :
      {p : CallerPc A} {t : System A}
      → CallerMove fn null passed i s p t
      → s.caller i ≡ p
      → (j : ℕ) → is_call (t.entry j).mutex ≡ holds_entry (t.caller j)
  caller_has (locked_queue free) e j = ground (arith, (at j).caller_has)
  caller_has mv e j = ground (arith, guard mv, (at j).caller_has, (at i).caller_has)

  worker_has :
      {p : CallerPc A} {t : System A}
      → CallerMove fn null passed i s p t
      → s.caller i ≡ p
      → (j : ℕ) → is_worker (t.entry j).mutex ≡ works_on t.worker j
  worker_has (locked_queue free) e j = ground (arith, (at j).worker_has)
  worker_has mv e j = ground (arith, guard mv, (at j).worker_has, (at i).caller_has)

  queue_has :
      {p : CallerPc A} {t : System A}
      → CallerMove fn null passed i s p t
      → s.caller i ≡ p
      → (j : ℕ) → is_caller j t.mutex ≡ holds_queue (t.caller j)
  queue_has (locked_queue free) e j = ground (arith, (at j).queue_has)
  queue_has mv e j = ground (arith, guard mv, (at j).queue_has, (at i).queue_has)

  leaving :
      {p : CallerPc A} {t : System A}
      → CallerMove fn null passed i s p t
      → s.caller i ≡ p
      → (j : ℕ) → leaves t.worker j ≡ true
      → is_roused (t.caller j) ≡ true
  leaving (locked_queue free) e j = ground (arith, (at j).leaving)
  leaving mv e j = ground (arith, guard mv, (at j).leaving, (at i).worker_has)

  kept :
      {p : CallerPc A} {t : System A}
      → CallerMove fn null passed i s p t
      → s.caller i ≡ p
      → (j : ℕ) → (t.entry j).data_in ≡ passed j
  kept (locked_queue free) e j = ground (arith, (at j).kept)
  kept mv e j = ground (arith, (at j).kept, (at i).kept)

  answered :
      {p : CallerPc A} {t : System A}
      → CallerMove fn null passed i s p t
      → s.caller i ≡ p
      → (j : ℕ) → answers t.worker j ≡ true
      → (t.entry j).data_out ≡ fn (passed j)
  answered (locked_queue free) e j = ground (arith, (at j).answered)
  answered mv e j = ground (arith, (at j).answered, (at i).answered)

  is_given :
      {p : CallerPc A} {t : System A}
      → CallerMove fn null passed i s p t
      → s.caller i ≡ p
      → (j : ℕ) → IsGiven fn (passed j) (t.entry j) (t.caller j)
  is_given (locked_queue free) e j = ground (arith, (at j).is_given)
  is_given mv e j = ground (arith, (at j).is_given, (at i).is_given)

  worker_mutex_kept :
      {p : CallerPc A} {t : System A}
      → CallerMove fn null passed i s p t
      → s.caller i ≡ p
      → is_worker t.mutex ≡ holds_mutex t.worker
  worker_mutex_kept (locked_queue free) e = ground (arith, worker_mutex)
  worker_mutex_kept mv e = ground (arith, guard mv, worker_mutex, (at i).queue_has)

  -- A call that is not about to signal the queue goes on.
  Ready-goes :
      (w : WorkerPc) (p : CallerPc A)
      → s.caller i ≢ signal_queue
      → Ready w s.request_queue s.caller
      → Ready w s.request_queue (update s.caller i p)
  Ready-goes asleep p other (inl h) = inl h
  Ready-goes asleep p other (inr (j, h)) =
      inr (j, (let apart : (i == j) ≡ false = ground (arith, other) in rw apart h))
  Ready-goes dequeue p other h = h
  Ready-goes w p other h = tt

  Ready-enqueued :
      (w : WorkerPc)
      → Ready w s.request_queue s.caller
      → Ready w (s.request_queue ++ i ∷ []) (update s.caller i signal_queue)
  Ready-enqueued asleep h = inr (i, (let same : (i == i) ≡ true = ground arith in rw same))
  Ready-enqueued dequeue h = omega (arith, h, length-append s.request_queue (i ∷ []))
  Ready-enqueued w h = tt

  Ready-signalled :
      (w : WorkerPc)
      → Ready w s.request_queue s.caller
      → Ready (wake_worker w) s.request_queue (update s.caller i unlock_queue)
  Ready-signalled asleep h = tt
  Ready-signalled dequeue h = h
  Ready-signalled w h = tt

  Ready-kept :
      {p : CallerPc A} {t : System A}
      → CallerMove fn null passed i s p t
      → s.caller i ≡ p
      → Ready t.worker t.request_queue t.caller
  Ready-kept enqueued e = Ready-enqueued s.worker ready
  Ready-kept signalled_queue e = Ready-signalled s.worker ready
  Ready-kept mv e = Ready-goes s.worker _ (ground (arith, e)) ready

  pub CallerMove-Inv :
      {t : System A} → CallerMove fn null passed i s (s.caller i) t → Inv fn passed t
  CallerMove-Inv mv = record {
    at = λ j. record {
      counted = counted mv refl j;
      caller_has = caller_has mv refl j;
      worker_has = worker_has mv refl j;
      queue_has = queue_has mv refl j;
      leaving = leaving mv refl j;
      kept = kept mv refl j;
      answered = answered mv refl j;
      is_given = is_given mv refl j;
    };
    worker_mutex = worker_mutex_kept mv refl;
    ready = Ready-kept mv refl;
  }
