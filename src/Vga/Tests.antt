-- ===== src/Vga/Tests.antt =====
-- The screen at concrete inputs.
use kernel_c.Prelude.{ℕ, ◌+◌, ◌*◌, ◌≤◌, ◌<◌, ◌≡◌, ◌⊎◌, [], ◌∷◌, ◌++◌, arith}
use kernel_c.Port.{outb}
use kernel_c.Vga.{
  glyph, Screen, width, blank_char, scroll_screen, update_hardware_cursor, print_string, backspace,
}
use kernel_c.Vga.Lines.{scroll_screen_lem}
use kernel_c.Vga.Cursor.{IsOn, Draws, print_string-Draws, backspace_lem, update_hardware_cursor_lem}

-- the cursor at the last cell
abbrev corner : Screen
corner = record { cells = λ i. glyph 65 7; x = 79; y = 24; ports = [] }

corner-IsOn : IsOn corner
corner-IsOn = record { column = omega arith; line = omega arith }

scroll_screen_lem_run :
    ((i : ℕ) → i < 1920 → (scroll_screen corner).cells i ≡ corner.cells (i + width))
    × ((i : ℕ) → i < 80 → (scroll_screen corner).cells (1920 + i) ≡ glyph blank_char 0)
    × ((i : ℕ) → 2000 ≤ i → (scroll_screen corner).cells i ≡ corner.cells i)
    × ((scroll_screen corner).x ≡ corner.x)
    × ((corner.y ≡ 0 × (scroll_screen corner).y ≡ 0) ⊎ ((scroll_screen corner).y + 1 ≡ corner.y))
scroll_screen_lem_run = scroll_screen_lem corner

print_string-Draws_example : Draws corner (print_string corner (72 ∷ 10 ∷ 105 ∷ []) 7 0)
print_string-Draws_example = print_string-Draws corner (72 ∷ 10 ∷ 105 ∷ []) 7 0 corner-IsOn

backspace_lem_run :
    IsOn (backspace corner)
    × ((backspace corner).cells ((backspace corner).y * width + (backspace corner).x)
        ≡ glyph blank_char 0)
    × (((backspace corner).y * width + (backspace corner).x + 1 ≡ corner.y * width + corner.x)
        ⊎ ((corner.y * width + corner.x ≡ 0)
            × ((backspace corner).y * width + (backspace corner).x ≡ 0)))
    × ((i : ℕ)
        → (i < (backspace corner).y * width + (backspace corner).x)
          ⊎ ((backspace corner).y * width + (backspace corner).x < i)
        → (backspace corner).cells i ≡ corner.cells i)
backspace_lem_run = backspace_lem corner corner-IsOn

cursor_at_corner :
    (hi : ℕ) × (lo : ℕ) × ((update_hardware_cursor corner).ports
      ≡ corner.ports ++ outb 0x3D4 0x0E ∷ outb 0x3D5 hi ∷ outb 0x3D4 0x0F ∷ outb 0x3D5 lo ∷ [])
    × (hi * 256 + lo ≡ corner.y * width + corner.x)
    × (hi < 256)
    × (lo < 256)
cursor_at_corner = update_hardware_cursor_lem corner corner-IsOn
