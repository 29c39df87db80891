-- ===== src/Timer/Tests.antt =====
-- A timer with whole seconds.
use libcfu.Common.{ℕ, ◌-◌, ◌≡◌, refl, true, some}
use libcfu.Types.{get_type, is_time, is_timer}
use libcfu.Timer.{new, start, stop, elapsed}

abbrev same : ℕ → ℕ
same n = n

abbrev minus : ℕ → ℕ → ℕ
minus a b = a - b

-- The second start sets the timer back.
started_twice :
    elapsed 0 same minus
      (stop 0 same minus (start 0 same minus (start 0 same minus (new 0 same minus) 3) 5) 9)
    ≡ 4
unfolding start stop elapsed
started_twice = refl

-- A timer is also taken for a time.
timer_is_time :
    (is_timer (some (new 0 same minus).type) ≡ true)
    × (is_time (some (new 0 same minus).type) ≡ true)
unfolding get_type is_time is_timer
timer_is_time = (refl, refl)
