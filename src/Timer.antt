-- ===== src/Timer.antt =====
-- The timer of src/cfutimer.c. The clock is read outside: a function that reads it takes what it reads.
use libcfu.Types.{LibcfuType, t_time}
mod Tests

-- A time of the platform and its zero, seconds, and their difference.
module _ {Time Seconds : Type 0} (zero_time : Time) (sec : Time → Seconds)
    (minus : Seconds → Seconds → Seconds) where
  -- `struct cfutimer`
  pub record Timer : Type 0 where
    pub type : LibcfuType
    pub t1 : Time
    pub t2 : Time

  -- `cfutimer_new`
  abbrev pub new : Timer
  new = record { type = t_time; t1 = zero_time; t2 = zero_time }

  -- `cfutimer_start`
  unfoldable pub start : Timer → (now : Time) → Timer
  start timer now = record timer { t1 = now; t2 = zero_time }

  -- `cfutimer_stop`
  unfoldable pub stop : Timer → (now : Time) → Timer
  stop timer now = record timer { t2 = now }

  -- `cfutimer_elapsed`
  unfoldable pub elapsed : Timer → Seconds
  elapsed timer = minus (sec timer.t2) (sec timer.t1)
