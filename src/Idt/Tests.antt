-- ===== src/Idt/Tests.antt =====
-- The table for handlers 16 bytes apart.
use kernel_c.Prelude.{ℕ, ◌+◌, ◌*◌, ◌<◌, ◌≡◌, ◌≢◌, arith}
use kernel_c.Idt.{Idt, make_entry, idt_install}
use kernel_c.Idt.Vectors.{handler_of, privilege, idt_install_lem}

abbrev empty : Idt
empty i = make_entry 0 0 0

abbrev stubs : ℕ → ℕ
stubs i = 0xFFFF80000010F000 + 16 * i

abbrev loaded : Idt
loaded =
    (idt_install empty stubs 0xFFFF800000110000 0xFFFF800000110010 0xFFFF800000110020 0xFF 0xFF).0

idt_install_lem_example :
    ((i : ℕ) → i < 32 → (handler_of (loaded i) ≡ stubs i) × (privilege (loaded i) ≡ 0))
    × (handler_of (loaded 32) ≡ 0xFFFF800000110000)
    × (privilege (loaded 32) ≡ 0)
    × (handler_of (loaded 33) ≡ 0xFFFF800000110010)
    × (privilege (loaded 33) ≡ 0)
    × (handler_of (loaded 0x80) ≡ 0xFFFF800000110020)
    × (privilege (loaded 0x80) ≡ 3)
    × ((i : ℕ) → 33 < i → i ≢ 0x80 → loaded i ≡ empty i)
idt_install_lem_example =
    idt_install_lem empty stubs 0xFFFF800000110000 0xFFFF800000110010 0xFFFF800000110020 0xFF 0xFF
      (λ i lt. omega (arith, lt)) (omega arith) (omega arith) (omega arith)
