-- ===== src/ThreadQueue/System.antt =====
-- The threads of src/cfuthread_queue.c, a statement at a time: one runs `_run_queue`, and any number call
-- `cfuthread_queue_make_request`. The mutexes and condition variables are those of POSIX.
use libcfu.Common.{
  ℕ, ◌≤◌, ◌<◌, ◌≡◌, Bool, true, Option, none, some, List, [], ◌∷◌, ◌++◌, ◌==◌, if◌then◌else◌,
  length,
}

-- Who holds a mutex.
pub data Owner : Type 0 where
  nobody : Owner
  by_worker : Owner
  by_caller : (i : ℕ) → Owner

-- `cfuthread_queue_entry`
pub record Entry (A : Type 0) : Type 0 where
  pub mutex : Owner
  pub data_in : A
  pub data_out : A

-- Where the thread of `_run_queue` stands, from the head of its loop on.
pub data WorkerPc : Type 0 where
  acquire : WorkerPc
  test : WorkerPc
  asleep : WorkerPc  -- in `pthread_cond_wait`, the mutex released
  woken : WorkerPc  -- there, about to get the mutex back
  dequeue : WorkerPc
  release : (request : Option ℕ) → WorkerPc
  acquire_entry : (request : ℕ) → WorkerPc
  run_fn : (request : ℕ) → WorkerPc
  signal_done : (request : ℕ) → WorkerPc
  release_entry : (request : ℕ) → WorkerPc

-- Where a call of `cfuthread_queue_make_request` stands, with what `data` was set to.
pub data CallerPc (A : Type 0) : Type 0 where
  idle : CallerPc A
  lock_queue : CallerPc A
  lock_entry : CallerPc A
  enqueue : CallerPc A
  signal_queue : CallerPc A
  unlock_queue : CallerPc A
  wait_entry : CallerPc A
  sleeping : CallerPc A  -- in `pthread_cond_wait`, the mutex released
  roused : CallerPc A  -- there, about to get the mutex back
  unlock_entry : CallerPc A
  read_out : CallerPc A
  destroy : (out : A) → CallerPc A
  returned : (out : A) → CallerPc A

abbrev pub update : {A : Type 0} → (ℕ → A) → ℕ → A → ℕ → A
update f i a j = if i == j then a else f j

-- The queue, with its mutex; the entry of a call has the number of the call.
pub record System (A : Type 0) : Type 0 where
  pub mutex : Owner
  pub request_queue : List ℕ
  pub worker : WorkerPc
  pub entry : ℕ → Entry A
  pub caller : ℕ → CallerPc A

-- `pthread_cond_signal` on the condition of the queue, which only its thread waits on.
abbrev pub wake_worker : WorkerPc → WorkerPc
wake_worker asleep = woken
wake_worker w = w

-- `pthread_cond_signal` on the condition of an entry, which only its call waits on.
abbrev pub wake_caller : {A : Type 0} → CallerPc A → CallerPc A
wake_caller sleeping = roused
wake_caller p = p

-- The function of the queue, the null pointer, and what each call passes.
module _ {A : Type 0} (fn : A → A) (null : A) (passed : ℕ → A) where
  -- `_new_cfuthread_entry`
  abbrev pub new_entry : ℕ → Entry A
  new_entry i = record { mutex = nobody; data_in = passed i; data_out = null }

  abbrev pub goes : System A → ℕ → CallerPc A → System A
  goes s i p = record s { caller = update s.caller i p }

  -- One step of `_run_queue`.
  pub data WorkerMove (s : System A) : WorkerPc → System A → Type 0 where
    acquired :
        s.mutex ≡ nobody → WorkerMove s acquire (record s { mutex = by_worker; worker = test })
    found_empty :
        s.request_queue ≡ [] → WorkerMove s test (record s { mutex = nobody; worker = asleep })
    found_some : 1 ≤ length s.request_queue → WorkerMove s test (record s { worker = dequeue })
    reacquired :
        s.mutex ≡ nobody → WorkerMove s woken (record s { mutex = by_worker; worker = test })
    dequeued :
        {r : ℕ} {rest : List ℕ}
        → s.request_queue ≡ r ∷ rest
        → WorkerMove s dequeue (record s { request_queue = rest; worker = release (some r) })
    dequeued_none : s.request_queue ≡ [] → WorkerMove s dequeue (record s { worker = release none })
    continued : WorkerMove s (release none) (record s { mutex = nobody; worker = acquire })
    released :
        {r : ℕ}
        → WorkerMove s (release (some r)) (record s { mutex = nobody; worker = acquire_entry r })
    acquired_entry :
        {r : ℕ}
        → (s.entry r).mutex ≡ nobody
        → WorkerMove s (acquire_entry r) (record s {
          entry = update s.entry r (record (s.entry r) { mutex = by_worker });
          worker = run_fn r;
        })
    ran :
        {r : ℕ}
        → WorkerMove s (run_fn r) (record s {
          entry = update s.entry r (record (s.entry r) { data_out = fn (s.entry r).data_in });
          worker = signal_done r;
        })
    signalled :
        {r : ℕ}
        → WorkerMove s (signal_done r) (record s {
          caller = update s.caller r (wake_caller (s.caller r));
          worker = release_entry r;
        })
    released_entry :
        {r : ℕ}
        → WorkerMove s (release_entry r) (record s {
          entry = update s.entry r (record (s.entry r) { mutex = nobody });
          worker = acquire;
        })

  -- One step of call `i` of `cfuthread_queue_make_request` that has begun.
  pub data CallerMove (i : ℕ) (s : System A) : CallerPc A → System A → Type 0 where
    locked_queue :
        s.mutex ≡ nobody
        → CallerMove i s lock_queue (goes (record s { mutex = by_caller i }) i lock_entry)
    locked_entry :
        (s.entry i).mutex ≡ nobody
        → CallerMove i s lock_entry (
            goes
              (record s { entry = update s.entry i (record (s.entry i) { mutex = by_caller i }) })
              i
              enqueue)
    enqueued :
        CallerMove i s enqueue
          (goes (record s { request_queue = s.request_queue ++ i ∷ [] }) i signal_queue)
    signalled_queue :
        CallerMove i s signal_queue
          (goes (record s { worker = wake_worker s.worker }) i unlock_queue)
    unlocked_queue : CallerMove i s unlock_queue (goes (record s { mutex = nobody }) i wait_entry)
    waits : CallerMove i s wait_entry (
        goes
          (record s { entry = update s.entry i (record (s.entry i) { mutex = nobody }) })
          i
          sleeping)
    relocked_entry :
        (s.entry i).mutex ≡ nobody
        → CallerMove i s roused (
            goes
              (record s { entry = update s.entry i (record (s.entry i) { mutex = by_caller i }) })
              i
              unlock_entry)
    unlocked_entry : CallerMove i s unlock_entry (
        goes
          (record s { entry = update s.entry i (record (s.entry i) { mutex = nobody }) })
          i
          read_out)
    has_read : CallerMove i s read_out (goes s i (destroy (s.entry i).data_out))
    -- The entry is freed. What is kept of it here is not looked at again, unless a call's wait has ended
    -- without a signal: then the thread still uses the freed entry, and C says nothing of what follows.
    destroyed : {d : A} → CallerMove i s (destroy d) (goes s i (returned d))

  -- A move of a thread among the first `n` calls.
  pub data Move (n : ℕ) (s t : System A) : Type 0 where
    works : WorkerMove s s.worker t → Move n s t
    calls : (i : ℕ) → i < n → CallerMove i s (s.caller i) t → Move n s t

  -- Moves, new calls, and, where the flags allow it, waits of the worker or of a call that end without a
  -- signal, as POSIX permits.
  pub data Step (n : ℕ) (worker_spurious caller_spurious : Bool) (s : System A)
      : System A → Type 0 where
    moves : {t : System A} → Move n s t → Step n worker_spurious caller_spurious s t
    begins :
        (i : ℕ)
        → i < n
        → s.caller i ≡ idle
        → Step n worker_spurious caller_spurious s
            (goes (record s { entry = update s.entry i (new_entry i) }) i lock_queue)
    spurious_worker :
        worker_spurious ≡ true
        → s.worker ≡ asleep
        → Step n worker_spurious caller_spurious s (record s { worker = woken })
    spurious_caller :
        (i : ℕ)
        → caller_spurious ≡ true
        → s.caller i ≡ sleeping
        → Step n worker_spurious caller_spurious s (goes s i roused)

  -- `cfuthread_queue_new_with_cleanup`, with its thread at the head of its loop and no call begun.
  abbrev pub new : System A
  new = record {
    mutex = nobody;
    request_queue = [];
    worker = acquire;
    entry = new_entry;
    caller = λ i. idle;
  }

  pub data Reach (n : ℕ) (worker_spurious caller_spurious : Bool) : System A → Type 0 where
    start : Reach n worker_spurious caller_spurious new
    later :
        {s t : System A}
        → Reach n worker_spurious caller_spurious s
        → Step n worker_spurious caller_spurious s t
        → Reach n worker_spurious caller_spurious t
