-- ===== src/Clock.antt =====
-- time/clock/clock.c, time/clock/rtc.c and time/timer.c: the wall clock, the real-time clock that it
-- starts from, and the timer interrupt that drives it. What the CMOS registers hold is an argument.
pub mod Ticking
pub mod Text
pub mod Rtc
mod Tests
use kernel_c.Prelude.{
  ℕ, ◌+◌, ◌-◌, ◌*◌, ◌/◌, ◌%◌, Bool, List, [], ◌∷◌, ◌++◌, Option, none, some, if◌then◌else◌, ◌==◌,
  ltb, leb, not, ◌&&◌, u8, u16, u32,
}
use kernel_c.Port.{PortWrite, outb, pic_send_eoi}

-- `ClockTime`, three bytes
pub record ClockTime : Type 0 where
  pub hh : ℕ
  pub mm : ℕ
  pub ss : ℕ

tick_hour : ClockTime → ClockTime
tick_hour t =
    let t = record t { hh = u8 (t.hh + 1) } in if leb 24 t.hh then record t { hh = 0 } else t

tick_minute : ClockTime → ClockTime
tick_minute t =
    let t = record t { mm = u8 (t.mm + 1) } in
    if leb 60 t.mm then tick_hour (record t { mm = 0 }) else t

unfoldable pub clock_tick : ClockTime → ClockTime
unfolding tick_hour tick_minute
clock_tick t =
    let t = record t { ss = u8 (t.ss + 1) } in
    if leb 60 t.ss then tick_minute (record t { ss = 0 }) else t

-- `tick_time` (16 bits), `seconds` (32 bits) and `system_clock`
pub record Timer : Type 0 where
  pub tick_time : ℕ
  pub seconds : ℕ
  pub system_clock : ClockTime

-- The counters of `timer_tick` and `isr_timer_dispatch`.
unfoldable pub count_tick : Timer → Timer
count_tick t =
    let t = record t { tick_time = u16 (t.tick_time + 1) } in
    if leb 1000 t.tick_time
    then record t {
      tick_time = 0;
      seconds = u32 (t.seconds + 1);
      system_clock = clock_tick t.system_clock;
    }
    else t

unfoldable pub timer_tick : Timer → Timer × List PortWrite
timer_tick t = (count_tick t, pic_send_eoi 0)

unfoldable pub init_timer : ℕ → List PortWrite
init_timer frequency =
    let divisor = 1193180 / frequency in
    outb 0x43 0x36 ∷ outb 0x40 (divisor % 256) ∷ outb 0x40 (divisor / 256 % 256) ∷ []

-- `(bcd & 0x0F) + (bcd >> 4) * 10`
unfoldable pub bcd_to_bin : ℕ → ℕ
bcd_to_bin bcd = u8 (bcd % 16 + bcd / 16 * 10)

-- `while (1)` until a status byte has bit 7 clear: the bytes that the port yields, and those left
unfoldable pub rtc_wait_ready : List ℕ → Option (List ℕ)
rtc_wait_ready [] = none
rtc_wait_ready (b ∷ bs) = if leb 128 b then rtc_wait_ready bs else some bs

-- `read_rtc_time` behind the wait, on what registers 0, 2, 4 and 0x0B hold, and on what register 4
-- holds when it is read again
unfoldable pub read_rtc_time : ℕ → ℕ → ℕ → ℕ → ℕ → ClockTime
unfolding bcd_to_bin
read_rtc_time ss mm hh reg_b hh_again =
    let bcd = reg_b / 4 % 2 == 0 in
    let twelve = reg_b / 2 % 2 == 0 in
    let ss = if bcd then bcd_to_bin ss else ss in
    let mm = if bcd then bcd_to_bin mm else mm in
    let hh = if bcd then bcd_to_bin (hh % 128) else hh % 128 in
    let hh = if twelve && leb 128 hh_again then (hh + 12) % 24 else hh in
    record { hh = u8 ((hh + 7 + 24) % 24); mm = mm; ss = ss }

-- The registers that `read_rtc_time` selects at port 0x70: the status register for each byte of the
-- wait, then the four registers, and in 12-hour mode the hour again.
unfoldable pub rtc_waits : List ℕ → List PortWrite
rtc_waits [] = []
rtc_waits (b ∷ bs) = outb 0x70 0x0A ∷ (if leb 128 b then rtc_waits bs else [])

unfoldable pub rtc_ports : List ℕ → ℕ → List PortWrite
unfolding rtc_waits
rtc_ports status reg_b =
    rtc_waits status
    ++ (outb 0x70 0x00
        ∷ outb 0x70 0x02
        ∷ outb 0x70 0x04
        ∷ outb 0x70 0x0B
        ∷ (if reg_b / 2 % 2 == 0 then outb 0x70 0x04 ∷ [] else []))

-- `status` is what the status register yields, a byte for each round
unfoldable pub init_system_clock : List ℕ → ℕ → ℕ → ℕ → ℕ → ℕ → Option ClockTime
unfolding rtc_wait_ready read_rtc_time
init_system_clock status ss mm hh reg_b hh_again = elim (rtc_wait_ready status) [
  | none ↦ none
  | some left ↦
      let t = read_rtc_time ss mm hh reg_b hh_again in
      some (record { hh = u8 t.hh; mm = u8 t.mm; ss = u8 t.ss })
]

-- `'0' + n`
abbrev pub digit : ℕ → ℕ
digit n = u8 (48 + n)

unfoldable pub format_clock : ClockTime → List ℕ
format_clock t =
    digit (t.hh / 10)
    ∷ digit (t.hh % 10)
    ∷ b':'
    ∷ digit (t.mm / 10)
    ∷ digit (t.mm % 10)
    ∷ b':'
    ∷ digit (t.ss / 10)
    ∷ digit (t.ss % 10)
    ∷ 0
    ∷ []
