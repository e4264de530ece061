-- ===== src/Idt.antt =====
-- idt.c: the interrupt descriptor table. The addresses of the handlers, which are assembly, are arguments.
pub mod Vectors
mod Tests
use kernel_c.Prelude.{
  ℕ, zero, suc, ◌+◌, ◌*◌, ◌/◌, ◌%◌, List, [], ◌∷◌, ◌++◌, if◌then◌else◌, ◌==◌, u8, u16, u32,
}
use kernel_c.Port.{PortWrite, pic_remap}

-- `struct idt_entry`
pub record IdtEntry : Type 0 where
  pub offset_low : ℕ
  pub selector : ℕ
  pub ist : ℕ
  pub type_attr : ℕ
  pub offset_mid : ℕ
  pub offset_high : ℕ
  pub reserved : ℕ

abbrev pub Idt : Type 0
Idt = ℕ → IdtEntry

abbrev pub timer_vector : ℕ
timer_vector = 32

abbrev pub keyboard_vector : ℕ
keyboard_vector = 33

abbrev pub syscall_vector : ℕ
syscall_vector = 0x80

abbrev pub make_entry : ℕ → ℕ → ℕ → IdtEntry
make_entry base sel flags = record {
  offset_low = base % 65536;
  selector = sel;
  ist = 0;
  type_attr = flags;
  offset_mid = base / 65536 % 65536;
  offset_high = base / 4294967296 % 4294967296;
  reserved = 0;
}

unfoldable pub idt_set_gate : Idt → ℕ → ℕ → ℕ → ℕ → Idt
idt_set_gate idt num handler sel flags i =
    if i == u8 num then make_entry handler (u16 sel) (u8 flags) else idt i

-- the loop over the exceptions, with `n` left from `i` on
unfoldable pub stubs_loop : ℕ → Idt → (ℕ → ℕ) → ℕ → Idt
unfolding idt_set_gate
stubs_loop zero idt stubs i = idt
stubs_loop (suc n) idt stubs i = stubs_loop n (idt_set_gate idt i (stubs i) 0x08 0x8E) stubs (i + 1)

-- the table that `lidt` then loads, and what the interrupt controller is told; `a1` and `a2` are
-- the masks that its ports read
unfoldable pub idt_install : Idt → (ℕ → ℕ) → ℕ → ℕ → ℕ → ℕ → ℕ → Idt × List PortWrite
unfolding stubs_loop idt_set_gate
idt_install idt stubs isr32 isr33 isr80 a1 a2 =
    let exceptions = stubs_loop 32 idt stubs 0 in
    let with_timer = idt_set_gate exceptions timer_vector isr32 0x08 0x8E in
    let with_keyboard = idt_set_gate with_timer keyboard_vector isr33 0x08 0x8E in
    (idt_set_gate with_keyboard syscall_vector isr80 0x08 0xEE, pic_remap a1 a2 0x20 0x28)
