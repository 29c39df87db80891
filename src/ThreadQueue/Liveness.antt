-- ===== src/ThreadQueue/Liveness.antt =====
-- Calls of `cfuthread_queue_make_request` of src/cfuthread_queue.c return.
use libcfu.Common.{
  ℕ, zero, suc, ◌+◌, ◌≤◌, ◌<◌, ◌≡◌, refl, ap, ◌∙◌, subst, ◌⊎◌, inl, inr, true, false, arith, ◌==◌,
  Bool-cases,
}
use libcfu.ThreadQueue.System.{
  CallerPc, idle, returned, System, Step, moves, begins, new, Reach, start, later,
}
use libcfu.ThreadQueue.Safety.{Reach-Inv, Reach-returned}
use libcfu.ThreadQueue.Progress.{is_running, Reach-CanMove}
use libcfu.ThreadQueue.Rank.{rank, rank-Step}

module _ {A : Type 0} (fn : A → A) (null : A) (passed : ℕ → A) where
  -- However the run goes on from `s`, it comes to a state as stated, and it does not stop before.
  pub data Inevitably (n : ℕ) (P : System A → Type 0) : System A → Type 0 where
    reached : {s : System A} → P s → Inevitably n P s
    goes_on :
        {s : System A} (t : System A)
        → Step fn null passed n false false s t
        → ((u : System A) → Step fn null passed n false false s u → Inevitably n P u)
        → Inevitably n P s

  -- The first `n` calls have returned with what the function gives for their data.
  pub AllReturned : ℕ → System A → Type 0
  AllReturned n s = (i : ℕ) → i < n → s.caller i ≡ returned (fn (passed i))

  abbrev IsReturned : System A → ℕ → Type 0
  IsReturned s i = s.caller i ≡ returned (fn (passed i))

  -- A call that has not returned has not begun, or runs.
  not-IsReturned :
      {n : ℕ} {s : System A}
      → Reach fn null passed n false false s
      → (i : ℕ) → i < n
      → IsReturned s i ⊎ ((t : System A) × Step fn null passed n false false s t)
  not-IsReturned {n} {s} reach i l = by_place (s.caller i) refl
    where
      runs : is_running (s.caller i) ≡ true → (t : System A) × Step fn null passed n false false s t
      runs r = let (t, mv) = Reach-CanMove fn null passed i reach r in (t, moves mv)

      by_place :
          (p : CallerPc A)
          → s.caller i ≡ p
          → IsReturned s i ⊎ ((t : System A) × Step fn null passed n false false s t)
      by_place idle e = inr (_, begins i l e)
      by_place (returned out) e =
          inl (e ∙ ap returned (Reach-returned fn null passed i out reach e))
      by_place p e = inr (runs (ap is_running e))

  all_or_Step :
      {n : ℕ} {s : System A}
      → Reach fn null passed n false false s
      → (m : ℕ) → m ≤ n
      → ((i : ℕ) → i < m → IsReturned s i)
        ⊎ ((t : System A) × Step fn null passed n false false s t)
  all_or_Step reach zero l = inl (λ i b. absurd (omega arith))
  all_or_Step {s = s} reach (suc m) l = elim (all_or_Step reach m (omega arith)) [
    | inr step ↦ inr step
    | inl all ↦ elim (not-IsReturned reach m l) [
      | inr step ↦ inr step
      | inl last ↦ inl (λ i b. extended all last i b)
    ]
  ]
    where
      extended :
          ((i : ℕ) → i < m → IsReturned s i) → IsReturned s m → (i : ℕ) → i < suc m → IsReturned s i
      extended all last i b = elim (Bool-cases (i == m)) [
        | inl same ↦ (let e : m ≡ i = ground (arith, same) in subst (IsReturned s) e last)
        | inr apart ↦ all i (ground (arith, apart, b))
      ]

  Inevitably-from :
      (n k : ℕ) (s : System A)
      → rank fn null passed n s < k
      → Reach fn null passed n false false s
      → Inevitably n (AllReturned n) s
  unfolding AllReturned
  Inevitably-from n zero s l reach = absurd (omega arith)
  Inevitably-from n (suc k) s l reach = elim (all_or_Step reach n (omega arith)) [
    | inl all ↦ reached all
    | inr (t, step) ↦ goes_on t step (λ u next.
        Inevitably-from n k u
          (omega (arith, rank-Step fn null passed (Reach-Inv fn null passed reach) next))
          (later reach next))
  ]

  -- When `n` calls are made and no wait ends without a signal, every run, however the threads are
  -- interleaved, comes to a state in which all of them have returned, each with what the function gives for
  -- the data that it passed.
  pub new-Inevitably : (n : ℕ) → Inevitably n (AllReturned n) (new fn null passed)
  new-Inevitably n =
      Inevitably-from n (rank fn null passed n (new fn null passed) + 1) _ (omega arith) start
