-- ===== src/Clock/Rtc.antt =====
-- What `read_rtc_time` makes of the registers of the real-time clock.
use kernel_c.Prelude.{
  ℕ, ◌+◌, ◌*◌, ◌/◌, ◌%◌, ◌≤◌, ◌<◌, ◌≡◌, arith, ◌==◌, ◌&&◌, leb, inl, inr, Bool-cases, if◌then◌else◌,
}
use kernel_c.Clock.{bcd_to_bin, read_rtc_time}
use kernel_c.Clock.Ticking.{IsTime}

-- a number below 100 in binary-coded decimal
abbrev pub bin_to_bcd : ℕ → ℕ
bin_to_bcd n = n / 10 * 16 + n % 10

pub bcd_to_bin-bin_to_bcd : (n : ℕ) → n < 100 → bcd_to_bin (bin_to_bcd n) ≡ n
unfolding bcd_to_bin
bcd_to_bin-bin_to_bcd n lt = omega arith

-- On a clock in 24-hour mode the time read is the clock's, seven hours on, whether its registers are
-- binary or in decimal digits; it is a valid time.
pub read_rtc_time_24 :
    (h m s reg_b again : ℕ)
    → h < 24
    → m < 60
    → s < 60
    → reg_b / 2 % 2 ≡ 1
    → let code : ℕ → ℕ = λ n. if reg_b / 4 % 2 == 0 then bin_to_bcd n else n in
      let t = read_rtc_time (code s) (code m) (code h) reg_b again in
      IsTime t × (t ≡ record { hh = (h + 7) % 24; mm = m; ss = s })
unfolding read_rtc_time
read_rtc_time_24 h m s reg_b again hh mm ss mode = ground arith

-- the hour as a clock of 12 hours shows it, from 1 to 12
abbrev pub shown : ℕ → ℕ
shown h = if h % 12 == 0 then 12 else h % 12

-- What a register holds for a number, and register 4 for the hour, in the mode that the bits of
-- `reg_b` name: binary or decimal digits, and 24 hours or 12 with bit 7 in the afternoon.
abbrev pub coded : ℕ → ℕ → ℕ
coded reg_b n = if reg_b / 4 % 2 == 0 then bin_to_bcd n else n

abbrev pub coded_hour : ℕ → ℕ → ℕ
coded_hour reg_b h =
    if reg_b / 2 % 2 == 0
    then coded reg_b (shown h) + (if leb 12 h then 128 else 0)
    else coded reg_b h

bin_to_bcd_hour : (n : ℕ) → n < 24 → (bin_to_bcd n < 64) × (bcd_to_bin (bin_to_bcd n) ≡ n)
bin_to_bcd_hour n lt = (omega arith, bcd_to_bin-bin_to_bcd n (omega arith))

shown_bounds : (h : ℕ) → (1 ≤ shown h) × (shown h ≤ 12)
shown_bounds h = ground arith

-- `read_rtc_time` decodes what a clock shows, in each of its four modes: for a clock at `h`:`m`:`s` it
-- reads the same minute and second, and the hour seven hours on. Only in 12-hour mode, and there in
-- the hours that are shown as 12, after midnight and after noon, it is twelve hours off.
pub read_rtc_time_decodes :
    (reg_b h m s : ℕ)
    → h < 24
    → m < 60
    → s < 60
    → read_rtc_time (coded reg_b s) (coded reg_b m) (coded_hour reg_b h) reg_b (coded_hour reg_b h)
      ≡ record {
        hh = ((if (reg_b / 2 % 2 == 0) && (h % 12 == 0) then h + 12 else h) + 7) % 24;
        mm = m;
        ss = s;
      }
unfolding read_rtc_time
read_rtc_time_decodes reg_b h m s hh mm ss =
    let (lo, hi) = shown_bounds h in
    elim (Bool-cases (reg_b / 4 % 2 == 0)) [
      | inl bcd ↦
          let sec = bcd_to_bin-bin_to_bcd s (omega arith) in
          let min = bcd_to_bin-bin_to_bcd m (omega arith) in
          elim (Bool-cases (reg_b / 2 % 2 == 0)) [
            | inl twelve ↦
                let (small, hour) = bin_to_bcd_hour (shown h) (omega (arith, hi)) in ground arith
            | inr whole ↦ let (small, hour) = bin_to_bcd_hour h hh in ground arith
          ]
      | inr binary ↦ ground arith
    ]
