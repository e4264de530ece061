-- ===== src/Vga/Lines.antt =====
-- Scrolling, cell by cell.
use kernel_c.Prelude.{
  ℕ, zero, suc, ◌+◌, ◌≤◌, ◌<◌, ◌≡◌, ◌⊎◌, inl, inr, refl, ap, ◌∙◌, sym, arith, if◌then◌else◌, ◌==◌,
  ltb, ◌-◌,
}
use kernel_c.Vga.{
  Grid, glyph, Screen, width, blank_char, plot, make_color, shift_loop, clear_loop, scroll_screen,
}

clear_loop-other : (k i : ℕ) (g : Grid) (q : ℕ) → (q < i) ⊎ (i + k ≤ q) → clear_loop k i g q ≡ g q
unfolding clear_loop
clear_loop-other zero i g q far = refl
clear_loop-other (suc k) i g q far =
    clear_loop-other k (i + 1) (plot g i (glyph blank_char (make_color 0 0))) q (ground arith)
    ∙ ground arith

clear_loop_lem :
    (k i : ℕ) (g : Grid) (j : ℕ)
    → j < k
    → clear_loop k i g (i + j) ≡ glyph blank_char (make_color 0 0)
unfolding clear_loop
clear_loop_lem zero i g j lt = absurd (omega arith)
clear_loop_lem (suc k) i g zero lt =
    clear_loop-other k (i + 1) (plot g i (glyph blank_char (make_color 0 0))) (i + 0)
      (inl (omega arith))
    ∙ ground arith
clear_loop_lem (suc k) i g (suc j) lt =
    ap (clear_loop k (i + 1) (plot g i (glyph blank_char (make_color 0 0)))) (omega arith)
    ∙ clear_loop_lem k (i + 1) (plot g i (glyph blank_char (make_color 0 0))) j (omega arith)

shift_loop-other : (k i : ℕ) (g : Grid) (q : ℕ) → (q < i) ⊎ (i + k ≤ q) → shift_loop k i g q ≡ g q
unfolding shift_loop
shift_loop-other zero i g q far = refl
shift_loop-other (suc k) i g q far =
    shift_loop-other k (i + 1) (plot g i (g (i + width))) q (ground arith) ∙ ground arith

shift_loop_lem : (k i : ℕ) (g : Grid) (j : ℕ) → j < k → shift_loop k i g (i + j) ≡ g (i + j + width)
unfolding shift_loop
shift_loop_lem zero i g j lt = absurd (omega arith)
shift_loop_lem (suc k) i g zero lt =
    shift_loop-other k (i + 1) (plot g i (g (i + width))) (i + 0) (inl (omega arith)) ∙ ground arith
shift_loop_lem (suc k) i g (suc j) lt =
    ap (shift_loop k (i + 1) (plot g i (g (i + width)))) (omega arith)
    ∙ shift_loop_lem k (i + 1) (plot g i (g (i + width))) j (omega arith)
    ∙ behind (i + 1 + j + width) (i + suc j + width) (omega arith) (omega arith)
  where
    behind : (q r : ℕ) → q ≡ r → i < q → (if q == i then g (i + width) else g q) ≡ g r
    behind q r e lt = ground arith

-- `scroll_screen` moves every line but the first up by one, blanks the last line, leaves what lies
-- behind the screen as it is, and moves the cursor up by a line unless it is in the first.
pub scroll_screen_lem :
    (s : Screen)
    → ((i : ℕ) → i < 1920 → (scroll_screen s).cells i ≡ s.cells (i + width))
      × ((i : ℕ) → i < 80 → (scroll_screen s).cells (1920 + i) ≡ glyph blank_char 0)
      × ((i : ℕ) → 2000 ≤ i → (scroll_screen s).cells i ≡ s.cells i)
      × ((scroll_screen s).x ≡ s.x)
      × ((s.y ≡ 0 × (scroll_screen s).y ≡ 0) ⊎ ((scroll_screen s).y + 1 ≡ s.y))
unfolding scroll_screen
scroll_screen_lem s = (
  λ i lt. clear_loop-other 80 1920 (shift_loop 1920 0 s.cells) i (inl lt) ∙ shifted i lt,
  λ i lt. clear_loop_lem 80 1920 (shift_loop 1920 0 s.cells) i lt,
  λ i le.
      clear_loop-other 80 1920 (shift_loop 1920 0 s.cells) i (inr le)
      ∙ shift_loop-other 1920 0 s.cells i (inr (omega arith)),
  refl,
  up s.y,
)
  where
    shifted : (i : ℕ) → i < 1920 → shift_loop 1920 0 s.cells i ≡ s.cells (i + width)
    shifted i lt =
        let start : 0 + i ≡ i = omega arith in
        ap (shift_loop 1920 0 s.cells) (sym start)
        ∙ shift_loop_lem 1920 0 s.cells i lt
        ∙ ap (λ j. s.cells (j + width)) start

    up :
        (y : ℕ)
        → (y ≡ 0 × (if ltb 0 y then y - 1 else y) ≡ 0) ⊎ ((if ltb 0 y then y - 1 else y) + 1 ≡ y)
    up y = ground arith
