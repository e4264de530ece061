-- ===== src/Heap.antt =====
-- The data that the two allocators of the kernel share: malloc/malloc.c and malloc/user_malloc.c.
-- Both keep a doubly linked list of blocks, whose headers stand in the managed memory itself.
-- A store maps an address to the header that stands there, and pointers are addresses, so that
-- aliasing is the program's own. `bytes` holds the payloads.
pub mod Cells
pub mod Frame
pub mod Focus
pub mod Mark
use kernel_c.Prelude.{ℕ, ◌+◌, ◌*◌, ◌/◌, Bool, if◌then◌else◌, ◌==◌, add64, sub64}

abbrev pub null : ℕ
null = 0

-- `block_header_t`; `free` is what the code tests of the `int`
pub record Header : Type 0 where
  pub magic : ℕ
  pub size : ℕ
  pub free : Bool
  pub prev : ℕ
  pub next : ℕ

abbrev pub Store : Type 0
Store = ℕ → Header

-- `sizeof(block_header_t)`: 4 bytes and 4 of padding, 8, 4 and 4 of padding, 8, 8
abbrev pub header_size : ℕ
header_size = 40

abbrev pub align : ℕ
align = 8

abbrev pub min_split_size : ℕ
min_split_size = 48

-- The globals of an allocator, with its `MAGIC` and the linker's `_heap_start`, which never change.
pub record Heap : Type 0 where
  pub magic : ℕ
  pub heap_start : ℕ
  pub head : ℕ
  pub tail : ℕ
  pub managed_end : ℕ
  pub brk : ℕ
  pub mem : Store
  pub bytes : ℕ → ℕ

abbrev pub write : Store → ℕ → Header → Store
write m p h a = if a == p then h else m a

abbrev pub set_size : Store → ℕ → ℕ → Store
set_size m p n = write m p (record (m p) { size = n })

abbrev pub set_free : Store → ℕ → Bool → Store
set_free m p b = write m p (record (m p) { free = b })

abbrev pub set_prev : Store → ℕ → ℕ → Store
set_prev m p q = write m p (record (m p) { prev = q })

abbrev pub set_next : Store → ℕ → ℕ → Store
set_next m p q = write m p (record (m p) { next = q })

-- `(n + (ALIGN - 1)) & ~(ALIGN - 1)`: the mask clears the three lowest bits of a `size_t`
unfoldable pub align_up : ℕ → ℕ
align_up n = add64 n 7 / 8 * 8

unfoldable pub header_to_payload : ℕ → ℕ
header_to_payload h = add64 h header_size

unfoldable pub payload_to_header : ℕ → ℕ
payload_to_header p = sub64 p header_size
