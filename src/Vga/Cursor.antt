-- ===== src/Vga/Cursor.antt =====
-- The cursor stays on the screen, and what the functions that use it draw stays inside the buffer.
use kernel_c.Prelude.{
  ℕ, ◌+◌, ◌*◌, ◌%◌, ◌/◌, ◌≤◌, ◌<◌, ◌≡◌, ◌⊎◌, inl, inr, refl, ap, ◌∙◌, arith, List, [], ◌∷◌, ◌++◌,
  if◌then◌else◌, ◌==◌, ltb, leb, u8, u16, Bool-cases,
}
use kernel_c.Port.{outb}
use kernel_c.Vga.{
  Grid, Glyph, glyph, Screen, width, height, blank_char, plot, make_color, update_hardware_cursor,
  new_line, print_char, print_loop, print_string, step_back, backspace,
}
use kernel_c.Vga.Lines.{scroll_screen_lem}

-- the cursor is on the screen
pub record IsOn (s : Screen) : Type 0 where
  pub column : s.x < width
  pub line : s.y < height

-- the two screens agree outside the 2000 cells that are visible
pub Inside : Screen → Screen → Type 0
Inside s t = (i : ℕ) → 2000 ≤ i → t.cells i ≡ s.cells i

-- what every function that draws at the cursor does
pub record Draws (s t : Screen) : Type 0 where
  pub on : IsOn t
  pub inside : Inside s t

Draws-then : (s t u : Screen) → Draws s t → Draws t u → Draws s u
unfolding Inside
Draws-then s t u p q = record { on = q.on; inside = λ i le. q.inside i le ∙ p.inside i le }

-- `x` may be one too far
new_line-Draws : (s : Screen) → s.y < height → Draws s (new_line s)
unfolding new_line Inside
new_line-Draws s lt = elim (Bool-cases (leb height (u8 (s.y + 1)))) [
  | inl end ↦
      let (_, _, behind, column, _) = scroll_screen_lem (record s { x = 0; y = u8 (s.y + 1) }) in
      simp end (record {
        on = record { column = omega (arith, column); line = omega arith };
        inside = behind;
      })
  | inr inner ↦
      simp inner (record {
        on = record { column = omega arith; line = ground arith };
        inside = λ i le. refl;
      })
]

update-Draws : (s t : Screen) → Draws s t → Draws s (update_hardware_cursor t)
unfolding update_hardware_cursor Inside
update-Draws s t d = record {
  on = record { column = d.on.column; line = d.on.line };
  inside = d.inside;
}

abbrev drawn : Screen → Glyph → Screen
drawn s c = record s { cells = plot s.cells (s.y * width + s.x) c; x = u8 (s.x + 1) }

drawn-Inside : (s : Screen) (c : Glyph) → IsOn s → Inside s (drawn s c)
unfolding Inside
drawn-Inside s c on i le =
    let (col, line) : (s.x < width) × (s.y < height) = (on.column, on.line) in ground arith

print_char-Draws : (s : Screen) (c fore back : ℕ) → IsOn s → Draws s (print_char s c fore back)
unfolding print_char Inside
print_char-Draws s c fore back on = elim (Bool-cases (c == 10)) [
  | inl e ↦ simp e (new_line-Draws s on.line)
  | inr other ↦
      let g : Glyph = glyph c (make_color fore back) in
      simp other (
        update-Draws s _ (elim (Bool-cases (leb width (u8 (s.x + 1)))) [
          | inl end ↦ simp end (through g (new_line-Draws (drawn s g) on.line))
          | inr inner ↦ simp inner (record {
            on = record { column = ground arith; line = on.line };
            inside = drawn-Inside s g on;
          })
        ]))
]
  where
    through :
        (g : Glyph) → Draws (drawn s g) (new_line (drawn s g)) → Draws s (new_line (drawn s g))
    through g d = record { on = d.on; inside = λ i le. d.inside i le ∙ drawn-Inside s g on i le }

print_loop-Draws :
    (s : Screen) (str : List ℕ) (fore back : ℕ) → IsOn s → Draws s (print_loop s str fore back)
unfolding print_loop Inside
print_loop-Draws s [] fore back on = record { on = on; inside = λ i le. refl }
print_loop-Draws s (c ∷ str) fore back on =
    let step : Draws s (if c == 10 then new_line s else print_char s c fore back) =
      elim (Bool-cases (c == 10)) [
        | inl e ↦ simp e (new_line-Draws s on.line)
        | inr other ↦ simp other (print_char-Draws s c fore back on)
      ] in
    Draws-then s _ _ step (
      print_loop-Draws (if c == 10 then new_line s else print_char s c fore back) str fore back
        step.on)

-- From a cursor on the screen, printing any string leaves the cursor on the screen and writes no
-- cell outside it, however often the screen scrolls.
pub print_string-Draws :
    (s : Screen) (str : List ℕ) (fore back : ℕ) → IsOn s → Draws s (print_string s str fore back)
unfolding print_string
print_string-Draws s str fore back on =
    update-Draws s (print_loop s str fore back) (print_loop-Draws s str fore back on)

step_back_lem :
    (s : Screen)
    → IsOn s
    → ((step_back s).cells ≡ s.cells)
      × ((step_back s).x < width)
      × ((step_back s).y < height)
      × (((step_back s).y * width + (step_back s).x + 1 ≡ s.y * width + s.x)
          ⊎ ((s.y * width + s.x ≡ 0) × ((step_back s).y * width + (step_back s).x ≡ 0)))
unfolding step_back
step_back_lem s on =
    let (col, line) : (s.x < width) × (s.y < height) = (on.column, on.line) in
    elim (Bool-cases (s.x == 0)) [
      | inr inner ↦ simp inner (refl, omega arith, omega arith, inl (ground arith))
      | inl start ↦ simp start (elim (Bool-cases (ltb 0 s.y)) [
        | inl below ↦ simp below (refl, omega arith, ground arith, inl (ground arith))
        | inr top ↦ simp top (refl, omega arith, omega arith, inr (ground arith, ground arith))
      ])
    ]

plot_self : (g : Grid) (i : ℕ) (c : Glyph) → plot g i c i ≡ c
plot_self g i c = ground arith

plot_other : (g : Grid) (i : ℕ) (c : Glyph) (j : ℕ) → (j < i) ⊎ (i < j) → plot g i c j ≡ g j
plot_other g i c j far = ground arith

-- `backspace` keeps the cursor on the screen; it blanks the cell that the cursor comes to, and no
-- other. At the top left corner the cursor stays.
pub backspace_lem :
    (s : Screen)
    → IsOn s
    → IsOn (backspace s)
      × ((backspace s).cells ((backspace s).y * width + (backspace s).x) ≡ glyph blank_char 0)
      × (((backspace s).y * width + (backspace s).x + 1 ≡ s.y * width + s.x)
          ⊎ ((s.y * width + s.x ≡ 0) × ((backspace s).y * width + (backspace s).x ≡ 0)))
      × ((i : ℕ)
          → (i < (backspace s).y * width + (backspace s).x)
            ⊎ ((backspace s).y * width + (backspace s).x < i)
          → (backspace s).cells i ≡ s.cells i)
unfolding backspace update_hardware_cursor
backspace_lem s on =
    let (cells, col, line, at) = step_back_lem s on in
    (
      record { column = col; line = line },
      plot_self (step_back s).cells _ (glyph blank_char 0),
      at,
      λ i far.
          plot_other (step_back s).cells _ (glyph blank_char 0) i far
          ∙ ap (λ (g : Grid). g i) cells,
    )

-- The two bytes written to the cursor registers are the position of the cursor in the buffer.
pub update_hardware_cursor_lem :
    (s : Screen)
    → IsOn s
    → (hi : ℕ) × (lo : ℕ) × ((update_hardware_cursor s).ports
        ≡ s.ports ++ outb 0x3D4 0x0E ∷ outb 0x3D5 hi ∷ outb 0x3D4 0x0F ∷ outb 0x3D5 lo ∷ [])
      × (hi * 256 + lo ≡ s.y * width + s.x)
      × (hi < 256)
      × (lo < 256)
unfolding update_hardware_cursor
update_hardware_cursor_lem s on =
    let (col, line) : (s.x < width) × (s.y < height) = (on.column, on.line) in
    (
      u16 (s.y * width + s.x) / 256 % 256,
      u16 (s.y * width + s.x) % 256,
      refl,
      omega arith,
      omega arith,
      omega arith,
    )
