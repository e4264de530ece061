-- ===== src/Vga.antt =====
-- vga/vga.c: the text screen. The buffer at 0xB8000 is a map from cell numbers to cells, `vid[2 * i]`
-- and `vid[2 * i + 1]`; 80 * 25 cells are visible. `x` and `y` are the cursor, two `uint8_t`. The
-- port writes that move the hardware cursor are part of the state, in order.
pub mod Cursor
pub mod Lines
mod Tests
use kernel_c.Prelude.{
  ℕ, zero, suc, ◌+◌, ◌-◌, ◌*◌, ◌/◌, ◌%◌, ◌^◌, Bool, ◌&&◌, ◌||◌, not, List, [], ◌∷◌, ◌++◌,
  if◌then◌else◌, ◌==◌, leb, ltb, u8, u16, u32,
}
use kernel_c.Port.{PortWrite, outb}
use kernel_c.Clock.{ClockTime, format_clock}

abbrev pub width : ℕ
width = 80

abbrev pub height : ℕ
height = 25

abbrev pub blank_char : ℕ
blank_char = 32

pub record Glyph : Type 0 where
  pub char : ℕ
  pub color : ℕ

abbrev pub glyph : ℕ → ℕ → Glyph
glyph c a = record { char = c; color = a }

abbrev pub Grid : Type 0
Grid = ℕ → Glyph

pub record Screen : Type 0 where
  pub cells : Grid
  pub x : ℕ
  pub y : ℕ
  pub ports : List PortWrite

-- the four low bits of `fore` below the bits of `back`
abbrev pub make_color : ℕ → ℕ → ℕ
make_color fore back = u8 (back * 16 + fore % 16)

abbrev pub plot : Grid → ℕ → Glyph → Grid
plot g i c j = if j == i then c else g j

unfoldable pub clean_screen : Screen → Screen
clean_screen s = record s {
  cells = λ i. if ltb i (80 * 25) then glyph blank_char 7 else s.cells i;
  x = 0;
  y = 0;
}

-- the first loop of `scroll_screen`, by the rounds left
pub shift_loop : ℕ → ℕ → Grid → Grid
shift_loop zero i g = g
shift_loop (suc k) i g = shift_loop k (i + 1) (plot g i (g (i + width)))

-- the second loop
pub clear_loop : ℕ → ℕ → Grid → Grid
clear_loop zero i g = g
clear_loop (suc k) i g = clear_loop k (i + 1) (plot g i (glyph blank_char (make_color 0 0)))

unfoldable pub scroll_screen : Screen → Screen
unfolding shift_loop clear_loop
scroll_screen s = record s {
  cells = clear_loop 80 1920 (shift_loop 1920 0 s.cells);
  y = if ltb 0 s.y then s.y - 1 else s.y;
}

unfoldable pub update_hardware_cursor : Screen → Screen
update_hardware_cursor s =
    let at = u16 (s.y * width + s.x) in
    record s {
      ports =
          s.ports
          ++ outb 0x3D4 0x0E
            ∷ outb 0x3D5 (at / 256 % 256)
            ∷ outb 0x3D4 0x0F
            ∷ outb 0x3D5 (at % 256)
            ∷ [];
    }

unfoldable pub print_char_position : Screen → ℕ → ℕ → ℕ → ℕ → ℕ → Screen
print_char_position s c x y fore back =
    if leb width x || leb height y
    then s
    else record s { cells = plot s.cells (y * width + x) (glyph c (make_color fore back)) }

-- `x = 0; y++;` and the scroll at the end of the screen, which two functions repeat
pub new_line : Screen → Screen
new_line s =
    let next = record s { x = 0; y = u8 (s.y + 1) } in
    if leb height next.y then record (scroll_screen next) { y = height - 1 } else next

unfoldable pub print_char : Screen → ℕ → ℕ → ℕ → Screen
unfolding new_line
print_char s c fore back =
    let drawn = record s {
      cells = plot s.cells (s.y * width + s.x) (glyph c (make_color fore back));
      x = u8 (s.x + 1);
    } in
    if c == 10
    then new_line s
    else update_hardware_cursor (if leb width drawn.x then new_line drawn else drawn)

-- the characters before the NUL
pub print_loop : Screen → List ℕ → ℕ → ℕ → Screen
unfolding new_line
print_loop s [] fore back = s
print_loop s (c ∷ str) fore back =
    print_loop (if c == 10 then new_line s else print_char s c fore back) str fore back

unfoldable pub print_string : Screen → List ℕ → ℕ → ℕ → Screen
unfolding print_loop
print_string s str fore back = update_hardware_cursor (print_loop s str fore back)

-- `spaces` blanks, from `offset / 2` on; `offset` has 32 bits
pub space_loop : ℕ → Grid → ℕ → ℕ → Grid
space_loop zero g at color = g
space_loop (suc k) g at color =
    space_loop k (plot g at (glyph blank_char color)) ((at + 1) % 2 ^ 31) color

-- The loop of `print_string_position`: `at` is `offset / 2`, and `offset` and `col` have 32 bits and wrap.
-- No test keeps `offset` inside the screen but the one on the column.
pub position_loop : Grid → List ℕ → ℕ → ℕ → ℕ → Grid
unfolding space_loop
position_loop g [] at col color = g
position_loop g (c ∷ str) at col color =
    let spaces = 8 - col % 8 in
    let n = if c == 9 then spaces else 1 in
    let g' = if c == 9 then space_loop spaces g at color else plot g at (glyph c color) in
    let rest = position_loop g' str ((at + n) % 2 ^ 31) (u32 (col + n)) color in
    if leb width (u32 (col + n)) then g' else rest

unfoldable pub print_string_position : Screen → List ℕ → ℕ → ℕ → ℕ → ℕ → Screen
unfolding position_loop
print_string_position s str x y fore back = record s {
  cells = position_loop s.cells str ((y * width + x) % 2 ^ 31) x (make_color fore back);
}

-- the move of the cursor in `backspace`
pub step_back : Screen → Screen
step_back s =
    if s.x == 0
    then (if ltb 0 s.y then record s { y = s.y - 1; x = width - 1 } else s)
    else record s { x = s.x - 1 }

unfoldable pub backspace : Screen → Screen
unfolding step_back
backspace s =
    let b = step_back s in
    update_hardware_cursor
      (record b { cells = plot b.cells (b.y * width + b.x) (glyph blank_char (make_color 0 0)) })

abbrev pub digit_char : ℕ → ℕ
digit_char n = 48 + n

unfoldable pub format_up : ℕ → List ℕ
format_up total =
    let hours = total / 3600 in
    let minutes = total % 3600 / 60 in
    let seconds = total % 60 in
    digit_char (hours / 10 % 10)
    ∷ digit_char (hours % 10)
    ∷ 58
    ∷ digit_char (minutes / 10)
    ∷ digit_char (minutes % 10)
    ∷ 58
    ∷ digit_char (seconds / 10)
    ∷ digit_char (seconds % 10)
    ∷ []

-- the loop of `print_systemup` and `print_time`: one character after the other, in a row
pub print_row : Screen → List ℕ → ℕ → ℕ → Screen
print_row s [] x y = s
print_row s (c ∷ str) x y = print_row (print_char_position s c x y 14 0) str (x + 1) y

unfoldable pub print_systemup : Screen → ℕ → Screen
unfolding print_row
print_systemup s seconds = print_row s (format_up seconds) 70 23

unfoldable pub print_time : Screen → ClockTime → Screen
unfolding print_row
print_time s system_clock = print_row s (format_clock system_clock) 70 24
