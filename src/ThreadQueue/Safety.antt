-- ===== src/ThreadQueue/Safety.antt =====
-- What calls of `cfuthread_queue_make_request` of src/cfuthread_queue.c get.
use libcfu.Common.{
  ℕ, ◌≡◌, refl, subst, inl, inr, Bool, true, false, List, arith, ◌==◌, if◌then◌else◌,
}
use libcfu.ThreadQueue.System.{
  by_worker, WorkerPc, asleep, woken, dequeue, CallerPc, idle, lock_queue, sleeping, roused,
  returned, update, System, new_entry, goes, Move, works, calls, Step, moves, begins,
  spurious_worker, spurious_caller, new, Reach, start, later,
}
use libcfu.ThreadQueue.Holds.{count, works_on, leaves, IsGiven, Ready}
use libcfu.ThreadQueue.Invariant.{InvAt, Inv}
use libcfu.ThreadQueue.Invariant.Callers.{CallerMove-Inv}
use libcfu.ThreadQueue.Invariant.Workers.{WorkerMove-Inv}

module _ {A : Type 0} (fn : A → A) (null : A) (passed : ℕ → A) where
  begins-InvAt :
      (s : System A) (i : ℕ)
      → Inv fn passed s
      → s.caller i ≡ idle
      → (j : ℕ)
      → InvAt fn passed
          (goes fn null passed
            (record s { entry = update s.entry i (new_entry fn null passed i) })
            i
            lock_queue)
          j
  begins-InvAt s i inv e j = record {
    counted = ground (arith, (inv.at j).counted);
    caller_has = ground (arith, (inv.at j).caller_has);
    worker_has = ground (arith, (inv.at j).worker_has, (inv.at j).counted, (inv.at j).leaving);
    queue_has = ground (arith, (inv.at j).queue_has);
    leaving = ground (arith, (inv.at j).leaving);
    kept = ground (arith, (inv.at j).kept);
    answered = ground (arith, (inv.at j).answered, (inv.at j).counted);
    is_given = ground (arith, (inv.at j).is_given);
  }

  begins-Ready :
      (w : WorkerPc) (queue : List ℕ) (caller : ℕ → CallerPc A) (i : ℕ)
      → caller i ≡ idle
      → Ready w queue caller
      → Ready w queue (update caller i lock_queue)
  begins-Ready asleep queue caller i e (inl h) = inl h
  begins-Ready asleep queue caller i e (inr (j, h)) =
      inr (j, (let apart : (i == j) ≡ false = ground (arith, e, h) in rw apart h))
  begins-Ready dequeue queue caller i e h = h
  begins-Ready w queue caller i e h = tt

  woken-InvAt :
      (s : System A)
      → Inv fn passed s
      → s.worker ≡ asleep
      → (j : ℕ) → InvAt fn passed (record s { worker = woken }) j
  woken-InvAt s inv e j = record {
    counted = ground (arith, (inv.at j).counted);
    caller_has = ground (arith, (inv.at j).caller_has);
    worker_has = ground (arith, (inv.at j).worker_has);
    queue_has = ground (arith, (inv.at j).queue_has);
    leaving = ground (arith, (inv.at j).leaving);
    kept = ground (arith, (inv.at j).kept);
    answered = ground (arith, (inv.at j).answered);
    is_given = ground (arith, (inv.at j).is_given);
  }

  Move-Inv :
      (n : ℕ) (s t : System A) → Inv fn passed s → Move fn null passed n s t → Inv fn passed t
  Move-Inv n s t inv (works mv) = WorkerMove-Inv fn null passed inv mv
  Move-Inv n s t inv (calls i l mv) = CallerMove-Inv fn null passed inv i mv

  pub Step-Inv :
      {n : ℕ} {b : Bool} {s t : System A}
      → Inv fn passed s
      → Step fn null passed n b false s t
      → Inv fn passed t
  Step-Inv {n} {b} {s} {t} inv (moves mv) = Move-Inv n s t inv mv
  Step-Inv {n} {b} {s} inv (begins i l e) = record {
    at = begins-InvAt s i inv e;
    worker_mutex = inv.worker_mutex;
    ready = begins-Ready s.worker s.request_queue s.caller i e inv.ready;
  }
  Step-Inv {n} {b} {s} inv (spurious_worker h e) = record {
    at = woken-InvAt s inv e;
    worker_mutex = ground (arith, inv.worker_mutex);
    ready = tt;
  }
  Step-Inv inv (spurious_caller i h e) = absurd (ground (arith, h))

  new-Inv : Inv fn passed (new fn null passed)
  unfolding count
  new-Inv = record {
    at = λ j. record {
      counted = refl;
      caller_has = refl;
      worker_has = refl;
      queue_has = refl;
      leaving = ground arith;
      kept = refl;
      answered = ground arith;
      is_given = tt;
    };
    worker_mutex = refl;
    ready = tt;
  }

  pub Reach-Inv :
      {n : ℕ} {b : Bool} {s : System A} → Reach fn null passed n b false s → Inv fn passed s
  Reach-Inv start = new-Inv
  Reach-Inv (later r step) = Step-Inv (Reach-Inv r) step

  -- However the threads are interleaved, and even when waits of the queue's thread end without a signal, a
  -- call that has returned has what the function gives for the data that it passed, as long as no wait of
  -- a call ends without a signal.
  pub Reach-returned :
      {n : ℕ} {b : Bool} {s : System A} (i : ℕ) (out : A)
      → Reach fn null passed n b false s
      → s.caller i ≡ returned out
      → out ≡ fn (passed i)
  Reach-returned {s = s} i out reach e =
      subst (IsGiven fn (passed i) (s.entry i)) e ((Reach-Inv reach).at i).is_given

  -- When the queue's thread is about to signal an entry, the call that made it is in its wait: no signal
  -- is lost. While it runs the function for an entry, and until it has released the entry's mutex, the
  -- entry is not destroyed and its call does not hold the mutex.
  pub Reach-works_on :
      {n : ℕ} {b : Bool} {s : System A} (i : ℕ)
      → Reach fn null passed n b false s
      → works_on s.worker i ≡ true
      → (s.caller i ≡ (if leaves s.worker i then roused else sleeping))
        × ((s.entry i).mutex ≡ by_worker)
  Reach-works_on {s = s} i reach h =
      let inv = (Reach-Inv reach).at i in
      (
        ground (arith, inv.counted, inv.caller_has, inv.worker_has, inv.leaving),
        ground (arith, inv.worker_has),
      )
