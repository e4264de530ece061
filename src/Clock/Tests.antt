-- ===== src/Clock/Tests.antt =====
-- The clock's theorems at concrete times.
use kernel_c.Prelude.{◌+◌, ◌%◌, ◌≡◌, refl, arith, [], ◌∷◌}
use kernel_c.Clock.{ClockTime, clock_tick, Timer, format_clock, read_rtc_time}
use kernel_c.Clock.Ticking.{
  IsTime, of_day, clock_tick-of_day, IsTimer, run_ticks, millis, run_ticks_counts,
}
use kernel_c.Clock.Rtc.{read_rtc_time_24, read_rtc_time_decodes}

abbrev last_second : ClockTime
last_second = record { hh = 23; mm = 59; ss = 59 }

abbrev just_before : Timer
just_before = record { tick_time = 998; seconds = 7; system_clock = last_second }

clock_tick-midnight : clock_tick last_second ≡ record { hh = 0; mm = 0; ss = 0 }
unfolding clock_tick
clock_tick-midnight = refl

format_clock-text :
    format_clock last_second ≡ b'2' ∷ b'3' ∷ b':' ∷ b'5' ∷ b'9' ∷ b':' ∷ b'5' ∷ b'9' ∷ 0 ∷ []
unfolding format_clock
format_clock-text = refl

clock_tick-of_day_run : IsTime (clock_tick last_second) × (of_day (clock_tick last_second) ≡ 0)
clock_tick-of_day_run = clock_tick-of_day last_second (omega arith)

run_ticks_counts_run :
    IsTimer (run_ticks 1500 just_before)
    × (millis (run_ticks 1500 just_before) ≡ 7998 + 1500)
    × ((of_day (run_ticks 1500 just_before).system_clock + 7) % 86400
        ≡ (of_day last_second + (run_ticks 1500 just_before).seconds) % 86400)
run_ticks_counts_run = run_ticks_counts 1500 just_before (omega arith) (omega arith)

-- half past six in the evening, in decimal digits
read_rtc_time_24_run :
    let t = read_rtc_time 0x05 0x30 0x18 2 0 in IsTime t × (t ≡ record { hh = 1; mm = 30; ss = 5 })
read_rtc_time_24_run = read_rtc_time_24 18 30 5 2 0 (omega arith) (omega arith) (omega arith) refl

read_rtc_time_decodes_example :
    read_rtc_time 0x45 0x30 0x92 0 0x92 ≡ record { hh = 7; mm = 30; ss = 45 }
read_rtc_time_decodes_example =
    read_rtc_time_decodes 0 12 30 45 (omega arith) (omega arith) (omega arith)
