-- ===== src/ThreadQueue/Rank.antt =====
-- A bound on the steps that are left of the threads of src/cfuthread_queue.c, and that each step lowers it.
use libcfu.Common.{
  ℕ, zero, suc, ◌+◌, ◌*◌, ◌≤◌, ◌<◌, ◌≡◌, refl, ap, subst, inl, inr, false, none, some, [], ◌∷◌,
  arith, ◌==◌, Bool-cases, length, length-append,
}
use libcfu.ThreadQueue.System.{
  WorkerPc, acquire, test, asleep, woken, dequeue, release, acquire_entry, run_fn, signal_done,
  release_entry, CallerPc, idle, lock_queue, lock_entry, enqueue, signal_queue, unlock_queue,
  wait_entry, sleeping, roused, unlock_entry, read_out, destroy, returned, update, System,
  wake_caller, WorkerMove, dequeued, dequeued_none, signalled, CallerMove, locked_queue,
  locked_entry, enqueued, signalled_queue, unlocked_queue, waits, relocked_entry, unlocked_entry,
  has_read, destroyed, works, calls, Step, moves, begins, spurious_worker, spurious_caller,
}
use libcfu.ThreadQueue.Holds.{Ready}
use libcfu.ThreadQueue.Invariant.{Inv}

-- For the worker, with the step that wakes it when it sleeps.
abbrev worker_rank : WorkerPc → ℕ
worker_rank asleep = 0
worker_rank dequeue = 1
worker_rank test = 2
worker_rank acquire = 3
worker_rank woken = 3
worker_rank (release none) = 4
worker_rank (release_entry r) = 6
worker_rank (signal_done r) = 7
worker_rank (run_fn r) = 8
worker_rank (acquire_entry r) = 9
worker_rank (release (some r)) = 10

-- For a call, with the steps that its entry and its signal make the worker take.
abbrev caller_rank : {A : Type 0} → CallerPc A → ℕ
caller_rank (returned _) = 0
caller_rank (destroy _) = 1
caller_rank read_out = 2
caller_rank unlock_entry = 3
caller_rank roused = 4
caller_rank sleeping = 5
caller_rank wait_entry = 6
caller_rank unlock_queue = 7
caller_rank signal_queue = 11
caller_rank enqueue = 22
caller_rank lock_entry = 23
caller_rank lock_queue = 24
caller_rank idle = 25

abbrev callers_rank : {A : Type 0} → ℕ → (ℕ → CallerPc A) → ℕ
callers_rank zero caller = 0
callers_rank (suc n) caller = callers_rank n caller + caller_rank (caller n)

update_beyond :
    {A : Type 0} (n : ℕ) (caller : ℕ → CallerPc A) (i : ℕ) (p : CallerPc A)
    → n ≤ i
    → callers_rank n (update caller i p) ≡ callers_rank n caller
update_beyond zero caller i p l = refl
update_beyond (suc n) caller i p l =
    let apart : (i == n) ≡ false = ground arith in
    rw (apart, update_beyond n caller i p (omega arith))

callers_rank-update :
    {A : Type 0} (n : ℕ) (caller : ℕ → CallerPc A) (i : ℕ) (p : CallerPc A)
    → i < n
    → callers_rank n (update caller i p) + caller_rank (caller i)
      ≡ callers_rank n caller + caller_rank p
callers_rank-update zero caller i p l = absurd (omega arith)
callers_rank-update (suc n) caller i p l = elim (Bool-cases (i == n)) [
  | inl same ↦
      let e : i ≡ n = ground (arith, same) in
      rw (same, update_beyond n caller i p (omega (arith, e)), e) (omega arith)
  | inr apart ↦ rw apart (omega (arith, callers_rank-update n caller i p (ground (arith, apart))))
]

module _ {A : Type 0} (fn : A → A) (null : A) (passed : ℕ → A) where
  unfoldable pub rank : ℕ → System A → ℕ
  rank n s = callers_rank n s.caller + 10 * length s.request_queue + worker_rank s.worker

  -- Where the call goes.
  abbrev after :
      {i : ℕ} {s t : System A} {p : CallerPc A} → CallerMove fn null passed i s p t → CallerPc A
  after (locked_queue _) = lock_entry
  after (locked_entry _) = enqueue
  after enqueued = signal_queue
  after signalled_queue = unlock_queue
  after unlocked_queue = wait_entry
  after waits = sleeping
  after (relocked_entry _) = unlock_entry
  after unlocked_entry = read_out
  after {i} {s} has_read = destroy (s.entry i).data_out
  after (destroyed {d}) = returned d

  rank-CallerMove :
      {n i : ℕ} {s t : System A} {p : CallerPc A}
      → i < n
      → CallerMove fn null passed i s p t
      → s.caller i ≡ p
      → rank n t < rank n s
  unfolding rank
  rank-CallerMove {n} {i} {s} l (locked_queue free) e =
      ground (arith, e, callers_rank-update n s.caller i lock_entry l)
  rank-CallerMove {n} {i} {s} l mv e = ground (
    arith,
    e,
    callers_rank-update n s.caller i (after mv) l,
    length-append s.request_queue (i ∷ []),
  )

  -- The worker rouses a call, which is a step for both, or leaves it as it is.
  callers_rank-wake :
      (n : ℕ) (caller : ℕ → CallerPc A) (i : ℕ)
      → callers_rank n (update caller i (wake_caller (caller i))) ≤ callers_rank n caller
  callers_rank-wake zero caller i = omega arith
  callers_rank-wake (suc n) caller i = ground (arith, callers_rank-wake n caller i)

  rank-WorkerMove :
      (n : ℕ) {s t : System A} {w : WorkerPc}
      → Ready s.worker s.request_queue s.caller
      → WorkerMove fn null passed s w t
      → s.worker ≡ w
      → rank n t < rank n s
  unfolding rank
  rank-WorkerMove n {s} ready (dequeued g) e = ground (arith, e, ap length g)
  rank-WorkerMove n {s} ready (dequeued_none g) e =
      absurd (ground (arith, ap length g, subst (λ v. Ready v s.request_queue s.caller) e ready))
  rank-WorkerMove n {s} ready (signalled {r}) e = ground (arith, e, callers_rank-wake n s.caller r)
  rank-WorkerMove n {s} ready mv e = ground (arith, e)

  -- Every step but a wait that ends without a signal.
  pub rank-Step :
      {n : ℕ} {s t : System A}
      → Inv fn passed s
      → Step fn null passed n false false s t
      → rank n t < rank n s
  unfolding rank
  rank-Step {n} inv (moves (works mv)) = rank-WorkerMove n inv.ready mv refl
  rank-Step inv (moves (calls i l mv)) = rank-CallerMove l mv refl
  rank-Step {n} {s} inv (begins i l e) =
      ground (arith, e, callers_rank-update n s.caller i lock_queue l)
  rank-Step inv (spurious_worker h e) = absurd (ground (arith, h))
  rank-Step inv (spurious_caller i h e) = absurd (ground (arith, h))
