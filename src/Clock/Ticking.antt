-- ===== src/Clock/Ticking.antt =====
-- The clock counts seconds of the day, and the timer counts milliseconds.
use kernel_c.Prelude.{ℕ, zero, suc, ◌+◌, ◌*◌, ◌%◌, ◌<◌, ◌≡◌, refl, arith}
use kernel_c.Clock.{ClockTime, clock_tick, Timer, count_tick}

pub record IsTime (t : ClockTime) : Type 0 where
  pub hour : t.hh < 24
  pub minute : t.mm < 60
  pub second : t.ss < 60

-- the second of the day
abbrev pub of_day : ClockTime → ℕ
of_day t = t.hh * 3600 + t.mm * 60 + t.ss

-- `clock_tick` goes on to the next second of the day, round midnight, and stays a time.
pub clock_tick-of_day :
    (t : ClockTime)
    → IsTime t
    → IsTime (clock_tick t) × (of_day (clock_tick t) ≡ (of_day t + 1) % 86400)
unfolding clock_tick
clock_tick-of_day t v = ground arith

pub record IsTimer (t : Timer) : Type 0 where
  pub ticks : t.tick_time < 1000
  pub time : IsTime t.system_clock

-- the timer after `n` interrupts
unfoldable pub run_ticks : ℕ → Timer → Timer
run_ticks zero t = t
run_ticks (suc n) t = run_ticks n (count_tick t)

abbrev pub millis : Timer → ℕ
millis t = t.seconds * 1000 + t.tick_time

count_tick_step :
    (t : Timer)
    → IsTimer t
    → t.seconds + 1 < 4294967296
    → IsTimer (count_tick t)
      × (millis (count_tick t) ≡ millis t + 1)
      × ((of_day (count_tick t).system_clock + t.seconds) % 86400
          ≡ (of_day t.system_clock + (count_tick t).seconds) % 86400)
unfolding count_tick
count_tick_step t v small = ground (arith, clock_tick-of_day t.system_clock v.time)

-- After `n` timer interrupts exactly `n` milliseconds more are counted, as long as the 32-bit count
-- of seconds does not wrap, and the clock has advanced by the seconds counted, modulo a day.
pub run_ticks_counts :
    (n : ℕ) (t : Timer)
    → IsTimer t
    → millis t + n < 4294967295000
    → IsTimer (run_ticks n t)
      × (millis (run_ticks n t) ≡ millis t + n)
      × ((of_day (run_ticks n t).system_clock + t.seconds) % 86400
          ≡ (of_day t.system_clock + (run_ticks n t).seconds) % 86400)
unfolding run_ticks
run_ticks_counts zero t v small = (v, omega arith, refl)
run_ticks_counts (suc n) t v small =
    let (v', more, clock) = count_tick_step t v (omega arith) in
    let (v'', more', clock') = run_ticks_counts n (count_tick t) v' (omega arith) in
    (v'', omega arith, omega arith)
