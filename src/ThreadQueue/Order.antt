-- ===== src/ThreadQueue/Order.antt =====
-- The order in which `_run_queue` of src/cfuthread_queue.c runs its function for the entries.
use libcfu.Common.{
  ℕ, ◌≡◌, refl, sym, ap, ◌∙◌, Bool, false, some, List, [], ◌∷◌, ◌++◌, append-nil, append_assoc,
}
use libcfu.ThreadQueue.System.{
  WorkerPc, acquire, asleep, release, acquire_entry, run_fn, CallerPc, System, wake_worker,
  WorkerMove, dequeued, ran, CallerMove, enqueued, signalled_queue, works, calls, Step, moves,
  begins, spurious_worker, spurious_caller, Reach, start, later,
}

-- The entry that was taken off the queue, and for which the function was not run yet.
abbrev pub in_hand : WorkerPc → List ℕ
in_hand (release (some r)) = r ∷ []
in_hand (acquire_entry r) = r ∷ []
in_hand (run_fn r) = r ∷ []
in_hand _ = []

in_hand-wake_worker : (w : WorkerPc) → in_hand w ≡ in_hand (wake_worker w)
in_hand-wake_worker asleep = refl
in_hand-wake_worker acquire = refl
in_hand-wake_worker w = refl

module _ {A : Type 0} (fn : A → A) (null : A) (passed : ℕ → A) where
  -- The entry that a step puts on the queue, if it puts one there.
  abbrev pub puts :
      {i : ℕ} {s t : System A} {p : CallerPc A} → CallerMove fn null passed i s p t → List ℕ
  puts {i} enqueued = i ∷ []
  puts _ = []

  -- The entry for which a step runs the function.
  abbrev pub runs : {s t : System A} {w : WorkerPc} → WorkerMove fn null passed s w t → List ℕ
  runs (ran {r}) = r ∷ []
  runs _ = []

  abbrev pub put_by : {n : ℕ} {b c : Bool} {s t : System A} → Step fn null passed n b c s t → List ℕ
  put_by (moves (calls i l mv)) = puts mv
  put_by _ = []

  abbrev pub run_by : {n : ℕ} {b c : Bool} {s t : System A} → Step fn null passed n b c s t → List ℕ
  run_by (moves (works mv)) = runs mv
  run_by _ = []

  -- The entries in the order in which they were put on the queue.
  unfoldable pub put_order :
      {n : ℕ} {b c : Bool} {s : System A} → Reach fn null passed n b c s → List ℕ
  put_order start = []
  put_order (later reach step) = put_order reach ++ put_by step

  -- The entries in the order in which the function was run for them.
  unfoldable pub run_order :
      {n : ℕ} {b c : Bool} {s : System A} → Reach fn null passed n b c s → List ℕ
  run_order start = []
  run_order (later reach step) = run_order reach ++ run_by step

  abbrev pub waiting : System A → List ℕ
  waiting s = in_hand s.worker ++ s.request_queue

  caller-waiting :
      {i : ℕ} {s t : System A} {p : CallerPc A} (mv : CallerMove fn null passed i s p t)
      → waiting s ++ puts mv ≡ waiting t
  caller-waiting {s = s} enqueued = append_assoc (in_hand s.worker) s.request_queue _
  caller-waiting {s = s} signalled_queue =
      append-nil (waiting s) ∙ ap (λ h. h ++ s.request_queue) (in_hand-wake_worker s.worker)
  caller-waiting {s = s} mv = append-nil (waiting s)

  worker-waiting :
      {s t : System A} {w : WorkerPc} (mv : WorkerMove fn null passed s w t)
      → s.worker ≡ w
      → waiting s ≡ runs mv ++ waiting t
  worker-waiting {s = s} (dequeued g) e = ap (λ v. in_hand v ++ s.request_queue) e ∙ g
  worker-waiting {s = s} mv e = ap (λ v. in_hand v ++ s.request_queue) e

  -- A step that neither puts an entry on the queue nor runs the function.
  unchanged :
      (put run before after : List ℕ)
      → put ≡ run ++ before
      → before ≡ after
      → put ++ [] ≡ (run ++ []) ++ after
  unchanged put run before after h e =
      append-nil put ∙ h ∙ ap (λ w. run ++ w) e ∙ ap (λ r. r ++ after) (sym (append-nil run))

  waiting-order :
      {n : ℕ} {b c : Bool} {s : System A} (reach : Reach fn null passed n b c s)
      → put_order reach ≡ run_order reach ++ (in_hand s.worker ++ s.request_queue)
  unfolding put_order run_order
  waiting-order start = refl
  waiting-order (later {s = s} {t = t} reach (moves (works mv))) =
      append-nil (put_order reach)
      ∙ waiting-order reach
      ∙ ap (λ w. run_order reach ++ w) (worker-waiting mv refl)
      ∙ sym (append_assoc (run_order reach) (runs mv) (waiting t))
  waiting-order (later {s = s} {t = t} reach (moves (calls i l mv))) =
      ap (λ p. p ++ puts mv) (waiting-order reach)
      ∙ append_assoc (run_order reach) (waiting s) (puts mv)
      ∙ ap (λ w. run_order reach ++ w) (caller-waiting mv)
      ∙ ap (λ r. r ++ waiting t) (sym (append-nil (run_order reach)))
  waiting-order (later {s = s} reach (begins i l e)) =
      unchanged _ _ (waiting s) _ (waiting-order reach) refl
  waiting-order (later {s = s} reach (spurious_worker h e)) =
      unchanged _ _ (waiting s) _ (waiting-order reach) (ap (λ v. in_hand v ++ s.request_queue) e)
  waiting-order (later {s = s} reach (spurious_caller i h e)) =
      unchanged _ _ (waiting s) _ (waiting-order reach) refl

  -- The function is run for the entries in the order in which calls have put them on the queue, once for
  -- each, and none is left out: those for which it was not run yet are the one that the thread has in hand
  -- and then those in the queue. No wait of a call ends without a signal; the thread's may.
  pub put_order-run_order :
      {n : ℕ} {b : Bool} {s : System A} (reach : Reach fn null passed n b false s)
      → put_order reach ≡ run_order reach ++ (in_hand s.worker ++ s.request_queue)
  put_order-run_order reach = waiting-order reach
