-- ===== src/ThreadQueue/Progress.antt =====
-- The threads of src/cfuthread_queue.c never wait for each other in a circle.
use libcfu.Common.{
  ℕ, ◌+◌, ◌<◌, ◌≡◌, refl, sym, ap, ◌∙◌, subst, ◌⊎◌, inl, inr, Bool, true, false, none, some, List,
  [], ◌∷◌, arith,
}
use libcfu.ThreadQueue.System.{
  Owner, nobody, by_worker, by_caller, WorkerPc, acquire, test, asleep, woken, dequeue, release,
  acquire_entry, run_fn, signal_done, release_entry, CallerPc, idle, lock_queue, lock_entry,
  enqueue, signal_queue, unlock_queue, wait_entry, sleeping, roused, unlock_entry, read_out,
  destroy, returned, System, WorkerMove, acquired, found_empty, found_some, reacquired, dequeued,
  dequeued_none, continued, released, acquired_entry, ran, signalled, released_entry, CallerMove,
  locked_queue, locked_entry, enqueued, signalled_queue, unlocked_queue, waits, relocked_entry,
  unlocked_entry, has_read, destroyed, Move, works, calls, Step, moves, begins, spurious_worker,
  spurious_caller, Reach, start, later,
}
use libcfu.ThreadQueue.Holds.{count, due, holds_mutex, works_on, holds_queue, holds_entry, Ready}
use libcfu.ThreadQueue.Invariant.{Inv}
use libcfu.ThreadQueue.Safety.{Reach-Inv}

-- A call that neither waits nor gets a mutex.
abbrev is_free : {A : Type 0} → CallerPc A → Bool
is_free enqueue = true
is_free signal_queue = true
is_free unlock_queue = true
is_free wait_entry = true
is_free unlock_entry = true
is_free read_out = true
is_free (destroy _) = true
is_free _ = false

-- A call that has begun and has not returned.
abbrev pub is_running : {A : Type 0} → CallerPc A → Bool
is_running idle = false
is_running (returned _) = false
is_running _ = true

module _ {A : Type 0} (fn : A → A) (null : A) (passed : ℕ → A) where
  -- The calls that run are among the first `n`.
  abbrev InRange : ℕ → System A → Type 0
  InRange n s = (j : ℕ) → is_running (s.caller j) ≡ true → j < n

  abbrev pub CanMove : ℕ → System A → Type 0
  CanMove n s = (t : System A) × Move fn null passed n s t

  running-CallerMove :
      {i : ℕ} {s t : System A} {p : CallerPc A}
      → CallerMove fn null passed i s p t
      → s.caller i ≡ p
      → (j : ℕ) → is_running (t.caller j) ≡ true
      → is_running (s.caller j) ≡ true
  running-CallerMove (locked_queue free) e j r = ground (arith, e, r)
  running-CallerMove mv e j r = ground (arith, e, r)

  running-WorkerMove :
      {s t : System A} {w : WorkerPc}
      → WorkerMove fn null passed s w t
      → (j : ℕ) → is_running (t.caller j) ≡ true
      → is_running (s.caller j) ≡ true
  running-WorkerMove (acquired free) j r = r
  running-WorkerMove mv j r = ground (arith, r)

  Step-InRange :
      {n : ℕ} {b c : Bool} {s t : System A}
      → Step fn null passed n b c s t
      → InRange n s
      → InRange n t
  Step-InRange (moves (works mv)) h j r = h j (running-WorkerMove mv j r)
  Step-InRange (moves (calls i l mv)) h j r = h j (running-CallerMove mv refl j r)
  Step-InRange (begins i l e) h j r = ground (arith, l, h j)
  Step-InRange (spurious_worker d e) h j r = h j r
  Step-InRange (spurious_caller i d e) h j r = ground (arith, e, h j)

  Reach-InRange : {n : ℕ} {b c : Bool} {s : System A} → Reach fn null passed n b c s → InRange n s
  Reach-InRange start j r = absurd (ground (arith, r))
  Reach-InRange (later reach step) j r = Step-InRange step (Reach-InRange reach) j r

  module _ {n : ℕ} {s : System A} (inv : Inv fn passed s) (range : InRange n s) where
    call_moves :
        {p : CallerPc A} {t : System A} (j : ℕ)
        → s.caller j ≡ p
        → is_running p ≡ true
        → CallerMove fn null passed j s p t
        → CanMove n s
    call_moves {t = t} j e r mv = (
      t,
      calls j (range j (ap is_running e ∙ r))
          (subst (λ q. CallerMove fn null passed j s q t) (sym e) mv),
    )

    work_moves :
        {w : WorkerPc} {t : System A} → s.worker ≡ w → WorkerMove fn null passed s w t → CanMove n s
    work_moves {t = t} e mv = (t, works (subst (λ w. WorkerMove fn null passed s w t) (sym e) mv))

    free_moves : (j : ℕ) (p : CallerPc A) → s.caller j ≡ p → is_free p ≡ true → CanMove n s
    free_moves j enqueue e h = call_moves j e refl enqueued
    free_moves j signal_queue e h = call_moves j e refl signalled_queue
    free_moves j unlock_queue e h = call_moves j e refl unlocked_queue
    free_moves j wait_entry e h = call_moves j e refl waits
    free_moves j unlock_entry e h = call_moves j e refl unlocked_entry
    free_moves j read_out e h = call_moves j e refl has_read
    free_moves j (destroy d) e h = call_moves j e refl destroyed
    free_moves j p e h = absurd (ground (arith, h))

    -- The mutex of an entry that neither side holds is free.
    entry_free :
        (j : ℕ)
        → holds_entry (s.caller j) ≡ false
        → works_on s.worker j ≡ false
        → (s.entry j).mutex ≡ nobody
    entry_free j c w = ground (arith, (inv.at j).caller_has, (inv.at j).worker_has)

    -- A call that holds the mutex of the queue can go on when the worker has no entry's mutex.
    holder_moves :
        (j : ℕ) → holds_queue (s.caller j) ≡ true → works_on s.worker j ≡ false → CanMove n s
    holder_moves j h w = by_place (s.caller j) refl h
      where
        by_place : (p : CallerPc A) → s.caller j ≡ p → holds_queue p ≡ true → CanMove n s
        by_place lock_entry e q =
            call_moves j e refl (locked_entry (entry_free j (ground (arith, e)) w))
        by_place enqueue e q = free_moves j enqueue e refl
        by_place signal_queue e q = free_moves j signal_queue e refl
        by_place unlock_queue e q = free_moves j unlock_queue e refl
        by_place p e q = absurd (ground (arith, q))

    -- When the worker does not hold the mutex of the queue, it is free or its holder can go on.
    queue_free :
        holds_mutex s.worker ≡ false
        → ((j : ℕ) → works_on s.worker j ≡ false)
        → (s.mutex ≡ nobody) ⊎ CanMove n s
    queue_free w none_worked = by_place s.mutex refl
      where
        by_place : (o : Owner) → s.mutex ≡ o → (s.mutex ≡ nobody) ⊎ CanMove n s
        by_place nobody e = inl e
        by_place by_worker e = absurd (ground (arith, e, w, inv.worker_mutex))
        by_place (by_caller j) e =
            inr (holder_moves j (ground (arith, e, (inv.at j).queue_has)) (none_worked j))

    -- While the worker sleeps, a call that has put its entry on the queue is about to signal it.
    sleeping_moves : (i : ℕ) → s.caller i ≡ sleeping → s.worker ≡ asleep → CanMove n s
    unfolding count
    sleeping_moves i e w = elim (subst (λ v. Ready v s.request_queue s.caller) w inv.ready) [
      | inl empty ↦ absurd (ground (arith, e, w, (inv.at i).counted, ap (count i) empty))
      | inr (j, signals) ↦ holder_moves j (ground (arith, signals)) (ground (arith, w))
    ]

    asleep_moves : (i : ℕ) → is_running (s.caller i) ≡ true → s.worker ≡ asleep → CanMove n s
    asleep_moves i running w = elim (queue_free (ground (arith, w)) (λ j. ground (arith, w))) [
      | inl free ↦ by_place free (s.caller i) refl
      | inr moved ↦ moved
    ]
      where
        by_place : s.mutex ≡ nobody → (p : CallerPc A) → s.caller i ≡ p → CanMove n s
        by_place free idle e = absurd (ground (arith, e, running))
        by_place free (returned d) e = absurd (ground (arith, e, running))
        by_place free lock_queue e = call_moves i e refl (locked_queue free)
        by_place free lock_entry e = holder_moves i (ground (arith, e)) (ground (arith, w))
        by_place free sleeping e = sleeping_moves i e w
        by_place free roused e =
            call_moves i e refl
              (relocked_entry (entry_free i (ground (arith, e)) (ground (arith, w))))
        by_place free enqueue e = free_moves i enqueue e refl
        by_place free signal_queue e = free_moves i signal_queue e refl
        by_place free unlock_queue e = free_moves i unlock_queue e refl
        by_place free wait_entry e = free_moves i wait_entry e refl
        by_place free unlock_entry e = free_moves i unlock_entry e refl
        by_place free read_out e = free_moves i read_out e refl
        by_place free (destroy d) e = free_moves i (destroy d) e refl

    -- The mutex of the entry that the worker waits for is free, or its call can go on.
    entry_moves : (r : ℕ) → s.worker ≡ acquire_entry r → CanMove n s
    entry_moves r w = by_place (s.caller r) refl
      where
        not_works : works_on s.worker r ≡ false
        not_works = ground (arith, w)

        due_one : due (s.caller r) ≡ 1 + count r s.request_queue
        due_one = ground (arith, w, (inv.at r).counted)

        by_place : (p : CallerPc A) → s.caller r ≡ p → CanMove n s
        by_place signal_queue e = free_moves r signal_queue e refl
        by_place unlock_queue e = free_moves r unlock_queue e refl
        by_place wait_entry e = free_moves r wait_entry e refl
        by_place sleeping e =
            work_moves w (acquired_entry (entry_free r (ground (arith, e)) not_works))
        by_place p e = absurd (ground (arith, due_one, e))

    found_moves : (queue : List ℕ) → s.request_queue ≡ queue → s.worker ≡ test → CanMove n s
    found_moves [] e w = work_moves w (found_empty e)
    found_moves (r ∷ rest) e w = work_moves w (found_some (rw e (omega arith)))

    dequeue_moves : (queue : List ℕ) → s.request_queue ≡ queue → s.worker ≡ dequeue → CanMove n s
    dequeue_moves [] e w = work_moves w (dequeued_none e)
    dequeue_moves (r ∷ rest) e w = work_moves w (dequeued e)

    some_moves : (i : ℕ) → is_running (s.caller i) ≡ true → CanMove n s
    some_moves i running = by_place s.worker refl
      where
        by_place : (w : WorkerPc) → s.worker ≡ w → CanMove n s
        by_place acquire w = elim (queue_free (ground (arith, w)) (λ j. ground (arith, w))) [
          | inl free ↦ work_moves w (acquired free)
          | inr moved ↦ moved
        ]
        by_place woken w = elim (queue_free (ground (arith, w)) (λ j. ground (arith, w))) [
          | inl free ↦ work_moves w (reacquired free)
          | inr moved ↦ moved
        ]
        by_place asleep w = asleep_moves i running w
        by_place test w = found_moves s.request_queue refl w
        by_place dequeue w = dequeue_moves s.request_queue refl w
        by_place (release none) w = work_moves w continued
        by_place (release (some r)) w = work_moves w released
        by_place (acquire_entry r) w = entry_moves r w
        by_place (run_fn r) w = work_moves w ran
        by_place (signal_done r) w = work_moves w signalled
        by_place (release_entry r) w = work_moves w released_entry

  -- There is no deadlock: as long as a call has begun and has not returned, some thread can take its next
  -- step, however the threads were interleaved before. Waits of the queue's thread may have ended without
  -- a signal, waits of a call may not.
  pub Reach-CanMove :
      {n : ℕ} {b : Bool} {s : System A} (i : ℕ)
      → Reach fn null passed n b false s
      → is_running (s.caller i) ≡ true
      → CanMove n s
  Reach-CanMove i reach running =
      some_moves (Reach-Inv fn null passed reach) (Reach-InRange reach) i running
