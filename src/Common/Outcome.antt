-- ===== src/Common/Outcome.antt =====
-- Outcomes of a run: a result, a fault (a failed assertion, a bad pointer) or a loop with no end.
use mathlib.Core.Path.{◌≡◌, sym, ◌∙◌, subst}
use mathlib.Core.Option.{Option, none, some}

pub data Run {ℓ} (A : Type ℓ) : Type ℓ where
  ok : A → Run A
  fault : Run A
  hangs : Run A

ok-injective {ℓ} : {A : Type ℓ} (a b : A) → ok a ≡ ok b → a ≡ b
ok-injective a b h = cc

infixl 5 ◌>>=◌
abbrev pub ◌>>=◌ {ℓ κ} : {A : Type ℓ} {B : Type κ} → Run A → (A → Run B) → Run B
hangs >>= next = hangs
fault >>= next = fault
ok a >>= next = next a

-- Total correctness: the run gives a result, and the result is as stated.
abbrev pub Returns {ℓ κ} : {A : Type ℓ} → Run A → (A → Type κ) → Type (ℓ ⊔ κ)
Returns {A} run Post = (result : A) × (run ≡ ok result) × Post result

-- What is known of some result holds of the result at hand.
pub Returns-ok {ℓ κ} :
    {A : Type ℓ} {r : Run A} (P : A → Type κ) (b : A) → Returns r P → r ≡ ok b → P b
Returns-ok P b (a, e, h) e' = subst P (ok-injective a b (sym e ∙ e')) h

-- `*p = v` where the code does not test `p`; `none` stands for a null out-parameter.
abbrev pub store_out {ℓ} : {A : Type ℓ} → Option A → A → Run (Option A)
store_out none v = fault
store_out (some w) v = ok (some v)

-- `if (p) *p = v`.
abbrev pub set_out {ℓ} : {A : Type ℓ} → Option A → A → Option A
set_out none v = none
set_out (some w) v = some v
