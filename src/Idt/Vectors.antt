-- ===== src/Idt/Vectors.antt =====
-- Where the processor goes on an interrupt, by the table that `idt_install` leaves.
use kernel_c.Prelude.{
  ℕ, zero, suc, ◌+◌, ◌*◌, ◌/◌, ◌%◌, ◌<◌, ◌≤◌, ◌≡◌, ◌≢◌, ◌⊎◌, inl, inr, refl, sym, ap, ◌∙◌, ==_ne,
  ==_self, arith, u8, ℕ_discrete,
}
use kernel_c.Idt.{IdtEntry, Idt, make_entry, idt_set_gate, stubs_loop, idt_install}

-- the address that the three parts of an entry stand for
abbrev pub handler_of : IdtEntry → ℕ
handler_of e = e.offset_low + 65536 * e.offset_mid + 4294967296 * e.offset_high

-- the privilege that a program needs to raise the interrupt itself
abbrev pub privilege : IdtEntry → ℕ
privilege e = e.type_attr / 32 % 4

handler_of-make_entry :
    (base sel flags : ℕ)
    → base < 18446744073709551616
    → handler_of (make_entry base sel flags) ≡ base
handler_of-make_entry base sel flags range = omega arith

set_gate_self :
    (idt : Idt) (num handler sel flags : ℕ)
    → num < 256
    → idt_set_gate idt num handler sel flags num ≡ make_entry handler (sel % 65536) (flags % 256)
unfolding idt_set_gate
set_gate_self idt num handler sel flags range =
    let same : u8 num ≡ num = omega arith in rw (same, ==_self num) refl

set_gate-other :
    (idt : Idt) (num handler sel flags i : ℕ)
    → num < 256
    → i ≢ num
    → idt_set_gate idt num handler sel flags i ≡ idt i
unfolding idt_set_gate
set_gate-other idt num handler sel flags i range ne =
    let same : u8 num ≡ num = omega arith in rw (same, ==_ne i num ne) refl

stubs_loop-other :
    (n : ℕ) (idt : Idt) (stubs : ℕ → ℕ) (i j : ℕ)
    → i + n ≤ 256
    → (j < i) ⊎ (i + n ≤ j)
    → stubs_loop n idt stubs i j ≡ idt j
unfolding stubs_loop
stubs_loop-other zero idt stubs i j range out = refl
stubs_loop-other (suc n) idt stubs i j range out =
    stubs_loop-other n (idt_set_gate idt i (stubs i) 0x08 0x8E) stubs (i + 1) j (omega arith)
      (ground arith)
    ∙ set_gate-other idt i (stubs i) 0x08 0x8E j (omega arith) (λ e. ground arith)

stubs_loop_lem :
    (n : ℕ) (idt : Idt) (stubs : ℕ → ℕ) (i j : ℕ)
    → i + n ≤ 256
    → i ≤ j
    → j < i + n
    → stubs_loop n idt stubs i j ≡ make_entry (stubs j) 0x08 0x8E
unfolding stubs_loop
stubs_loop_lem zero idt stubs i j range from lt = absurd (omega arith)
stubs_loop_lem (suc n) idt stubs i j range from lt = elim (ℕ_discrete j i) [
  | yes e ↦
      stubs_loop-other n (idt_set_gate idt i (stubs i) 0x08 0x8E) stubs (i + 1) j (omega arith)
        (inl (omega (arith, e)))
      ∙ ap (idt_set_gate idt i (stubs i) 0x08 0x8E) e
      ∙ set_gate_self idt i (stubs i) 0x08 0x8E (omega arith)
      ∙ ap (λ q. make_entry (stubs q) 0x08 0x8E) (sym e)
  | no ne ↦
      stubs_loop_lem n (idt_set_gate idt i (stubs i) 0x08 0x8E) stubs (i + 1) j (omega arith)
        (omega (arith, from, ne)) (omega arith)
]

module _ (idt : Idt) (stubs : ℕ → ℕ) (isr32 isr33 isr80 a1 a2 : ℕ) where
  exceptions : Idt
  exceptions = stubs_loop 32 idt stubs 0

  with_timer : Idt
  with_timer = idt_set_gate exceptions 32 isr32 0x08 0x8E

  with_keyboard : Idt
  with_keyboard = idt_set_gate with_timer 33 isr33 0x08 0x8E

  abbrev table : Idt
  table = (idt_install idt stubs isr32 isr33 isr80 a1 a2).0

  table-below : (i : ℕ) → i ≢ 0x80 → table i ≡ with_keyboard i
  unfolding idt_install with_keyboard with_timer exceptions
  table-below i ne = set_gate-other with_keyboard 0x80 isr80 0x08 0xEE i (omega arith) ne

  keyboard-below : (i : ℕ) → i ≢ 33 → with_keyboard i ≡ with_timer i
  unfolding with_keyboard
  keyboard-below i ne = set_gate-other with_timer 33 isr33 0x08 0x8E i (omega arith) ne

  timer-below : (i : ℕ) → i ≢ 32 → with_timer i ≡ exceptions i
  unfolding with_timer
  timer-below i ne = set_gate-other exceptions 32 isr32 0x08 0x8E i (omega arith) ne

  at_exception : (i : ℕ) → i < 32 → table i ≡ make_entry (stubs i) 0x08 0x8E
  unfolding exceptions
  at_exception i lt =
      table-below i (λ e. omega (arith, e))
      ∙ keyboard-below i (λ e. omega (arith, e))
      ∙ timer-below i (λ e. omega (arith, e))
      ∙ stubs_loop_lem 32 idt stubs 0 i (omega arith) (omega arith) (omega arith)

  at_timer : table 32 ≡ make_entry isr32 0x08 0x8E
  unfolding with_timer
  at_timer =
      table-below 32 (λ e. omega (arith, e))
      ∙ keyboard-below 32 (λ e. omega (arith, e))
      ∙ set_gate_self exceptions 32 isr32 0x08 0x8E (omega arith)

  at_keyboard : table 33 ≡ make_entry isr33 0x08 0x8E
  unfolding with_keyboard
  at_keyboard =
      table-below 33 (λ e. omega (arith, e))
      ∙ set_gate_self with_timer 33 isr33 0x08 0x8E (omega arith)

  at_syscall : table 0x80 ≡ make_entry isr80 0x08 0xEE
  unfolding idt_install with_keyboard with_timer exceptions
  at_syscall = set_gate_self with_keyboard 0x80 isr80 0x08 0xEE (omega arith)

  elsewhere : (i : ℕ) → 33 < i → i ≢ 0x80 → table i ≡ idt i
  unfolding exceptions
  elsewhere i gt ne =
      table-below i ne
      ∙ keyboard-below i (λ e. omega (arith, e, gt))
      ∙ timer-below i (λ e. omega (arith, e, gt))
      ∙ stubs_loop-other 32 idt stubs 0 i (omega arith) (inr (omega arith))

  -- With 64-bit addresses of the handlers, the table that `idt_install` leaves leads every exception to
  -- its stub, vectors 32 and 33 to the handlers of the timer and the keyboard, and 0x80 to that of the
  -- system calls, which alone a program may raise itself. Every other entry is as it was.
  pub idt_install_lem :
      ((i : ℕ) → i < 32 → stubs i < 18446744073709551616)
      → isr32 < 18446744073709551616
      → isr33 < 18446744073709551616
      → isr80 < 18446744073709551616
      → ((i : ℕ) → i < 32 → (handler_of (table i) ≡ stubs i) × (privilege (table i) ≡ 0))
        × (handler_of (table 32) ≡ isr32)
        × (privilege (table 32) ≡ 0)
        × (handler_of (table 33) ≡ isr33)
        × (privilege (table 33) ≡ 0)
        × (handler_of (table 0x80) ≡ isr80)
        × (privilege (table 0x80) ≡ 3)
        × ((i : ℕ) → 33 < i → i ≢ 0x80 → table i ≡ idt i)
  idt_install_lem stubs_range range32 range33 range80 = (
    λ i lt. (
      ap handler_of (at_exception i lt)
          ∙ handler_of-make_entry (stubs i) 0x08 0x8E (stubs_range i lt),
      ap privilege (at_exception i lt),
    ),
    ap handler_of at_timer ∙ handler_of-make_entry isr32 0x08 0x8E range32,
    ap privilege at_timer,
    ap handler_of at_keyboard ∙ handler_of-make_entry isr33 0x08 0x8E range33,
    ap privilege at_keyboard,
    ap handler_of at_syscall ∙ handler_of-make_entry isr80 0x08 0xEE range80,
    ap privilege at_syscall,
    elsewhere,
  )
