-- ===== src/ThreadQueue/Holds.antt =====
-- What each place in the code of src/cfuthread_queue.c says about mutexes and entries.
use libcfu.Common.{
  ℕ, ◌+◌, ◌≤◌, ◌≡◌, ◌⊎◌, Bool, true, false, some, List, [], ◌∷◌, ◌==◌, if◌then◌else◌, length,
}
use libcfu.ThreadQueue.System.{
  Owner, by_worker, by_caller, Entry, WorkerPc, test, asleep, dequeue, release, acquire_entry,
  run_fn, signal_done, release_entry, CallerPc, lock_entry, enqueue, signal_queue, unlock_queue,
  wait_entry, sleeping, roused, unlock_entry, read_out, destroy, returned,
}

abbrev pub is_worker : Owner → Bool
is_worker by_worker = true
is_worker _ = false

abbrev pub is_caller : ℕ → Owner → Bool
is_caller j (by_caller i) = i == j
is_caller j _ = false

-- The mutex of an entry is only for its own call.
abbrev pub is_call : Owner → Bool
is_call (by_caller _) = true
is_call _ = false

-- How many times an entry stands in the queue.
unfoldable pub count : ℕ → List ℕ → ℕ
count j [] = 0
count j (i ∷ queue) = (if i == j then 1 else 0) + count j queue

-- The entry was taken off the queue, and its call was not signalled yet.
abbrev pub taken : WorkerPc → ℕ → ℕ
taken (release (some r)) j = if r == j then 1 else 0
taken (acquire_entry r) j = if r == j then 1 else 0
taken (run_fn r) j = if r == j then 1 else 0
taken (signal_done r) j = if r == j then 1 else 0
taken _ j = 0

-- The call has put its entry on the queue, and was not signalled yet.
abbrev pub due : {A : Type 0} → CallerPc A → ℕ
due signal_queue = 1
due unlock_queue = 1
due wait_entry = 1
due sleeping = 1
due _ = 0

-- The thread of the queue holds the mutex of the queue.
abbrev pub holds_mutex : WorkerPc → Bool
holds_mutex test = true
holds_mutex dequeue = true
holds_mutex (release _) = true
holds_mutex _ = false

-- It holds the mutex of an entry.
abbrev pub works_on : WorkerPc → ℕ → Bool
works_on (run_fn r) j = r == j
works_on (signal_done r) j = r == j
works_on (release_entry r) j = r == j
works_on _ j = false

-- A call holds the mutex of the queue.
abbrev pub holds_queue : {A : Type 0} → CallerPc A → Bool
holds_queue lock_entry = true
holds_queue enqueue = true
holds_queue signal_queue = true
holds_queue unlock_queue = true
holds_queue _ = false

-- It holds the mutex of its entry.
abbrev pub holds_entry : {A : Type 0} → CallerPc A → Bool
holds_entry enqueue = true
holds_entry signal_queue = true
holds_entry unlock_queue = true
holds_entry wait_entry = true
holds_entry unlock_entry = true
holds_entry _ = false

-- The call was signalled, and its entry is about to be released.
abbrev pub leaves : WorkerPc → ℕ → Bool
leaves (release_entry r) j = r == j
leaves _ j = false

abbrev pub is_roused : {A : Type 0} → CallerPc A → Bool
is_roused roused = true
is_roused _ = false

-- The result of an entry was stored, and its call was not signalled yet.
abbrev pub answers : WorkerPc → ℕ → Bool
answers (signal_done r) j = r == j
answers _ j = false

-- What call `j` has of its result, given what it passed.
abbrev pub IsGiven : {A : Type 0} → (fn : A → A) → (passed : A) → Entry A → CallerPc A → Type 0
IsGiven fn d e roused = e.data_out ≡ fn d
IsGiven fn d e unlock_entry = e.data_out ≡ fn d
IsGiven fn d e read_out = e.data_out ≡ fn d
IsGiven fn d e (destroy out) = out ≡ fn d
IsGiven fn d e (returned out) = out ≡ fn d
IsGiven fn d e _ = Unit

-- Before an entry is taken off, the queue is not empty; while the thread sleeps, the queue is empty or a
-- signal is to come.
abbrev pub Ready :
    {A : Type 0} → WorkerPc → (request_queue : List ℕ) → (caller : ℕ → CallerPc A) → Type 0
Ready dequeue queue caller = 1 ≤ length queue
Ready asleep queue caller = (queue ≡ []) ⊎ ((j : ℕ) × (caller j ≡ signal_queue))
Ready _ queue caller = Unit
