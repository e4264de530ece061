-- ===== src/Port.antt =====
-- portio/portio.c and pic.c: what the kernel writes to I/O ports, as a list of writes in order. What
-- a port read returns comes from the hardware, and is an argument of the functions that read.
use kernel_c.Prelude.{ℕ, List, [], ◌∷◌, ◌++◌, if◌then◌else◌, leb, u8}

-- `outb` and `outw`
pub data PortWrite : Type 0 where
  outb : ℕ → ℕ → PortWrite
  outw : ℕ → ℕ → PortWrite

abbrev pub pic1_command : ℕ
pic1_command = 0x20

abbrev pub pic1_data : ℕ
pic1_data = 0x21

abbrev pub pic2_command : ℕ
pic2_command = 0xA0

abbrev pub pic2_data : ℕ
pic2_data = 0xA1

unfoldable pub pic_send_eoi : ℕ → List PortWrite
pic_send_eoi irq =
    (if leb 8 irq then outb pic2_command 0x20 ∷ [] else []) ++ (outb pic1_command 0x20 ∷ [])

-- `a1` and `a2` are the masks that the two data ports read back first
unfoldable pub pic_remap : ℕ → ℕ → ℕ → ℕ → List PortWrite
pic_remap a1 a2 offset1 offset2 =
    outb pic1_command 0x11
    ∷ outb pic2_command 0x11
    ∷ outb pic1_data (u8 offset1)
    ∷ outb pic2_data (u8 offset2)
    ∷ outb pic1_data 4
    ∷ outb pic2_data 2
    ∷ outb pic1_data 0x01
    ∷ outb pic2_data 0x01
    ∷ outb pic1_data a1
    ∷ outb pic2_data a2
    ∷ []
