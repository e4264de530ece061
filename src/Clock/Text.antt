-- ===== src/Clock/Text.antt =====
-- `format_clock` writes a text from which the time can be read back.
use kernel_c.Prelude.{ℕ, ◌+◌, ◌-◌, ◌*◌, ◌≤◌, List, get_or}
use kernel_c.Clock.{ClockTime}

-- the number that two decimal digits stand for
abbrev pub two_digits : ℕ → ℕ → ℕ
two_digits a b = (a - 48) * 10 + (b - 48)

abbrev pub IsDigit : ℕ → Type 0
IsDigit c = (48 ≤ c) × (c ≤ 57)

abbrev pub parse_clock : List ℕ → ClockTime
parse_clock text = record {
  hh = two_digits (get_or text 0 0) (get_or text 1 0);
  mm = two_digits (get_or text 3 0) (get_or text 4 0);
  ss = two_digits (get_or text 6 0) (get_or text 7 0);
}
