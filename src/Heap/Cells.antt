-- ===== src/Heap/Cells.antt =====
-- The abstract view of a heap: its blocks in order, each with a size and whether it is free. The
-- blocks lie end to end, so the address of a block is the start plus what lies before it.
use kernel_c.Prelude.{ℕ, ◌+◌, ◌≤◌, ◌<◌, ◌≡◌, Bool, List, [], ◌∷◌, ◌++◌, arith}
use kernel_c.Heap.{Header, Store, Heap, null, header_size}

pub record Cell : Type 0 where
  pub size : ℕ
  pub free : Bool

abbrev pub cell : ℕ → Bool → Cell
cell n b = record { size = n; free = b }

-- the bytes that the blocks take up, headers included
abbrev pub span : List Cell → ℕ
span [] = 0
span (c ∷ cs) = header_size + c.size + span cs

-- the address of the first block of a list that starts at `a`, or `stop` if there is none
abbrev pub first : ℕ → List Cell → ℕ → ℕ
first a [] stop = stop
first a (c ∷ cs) stop = a

-- the address of the last block, or `p` if there is none
abbrev pub last : ℕ → ℕ → List Cell → ℕ
last p a [] = p
last p a (c ∷ cs) = last a (a + (header_size + c.size)) cs

abbrev pub header : ℕ → Cell → ℕ → ℕ → Header
header magic c p n = record { magic = magic; size = c.size; free = c.free; prev = p; next = n }

-- In the store `m` the blocks `cs` stand end to end from `a` on and are linked both ways: `p` is
-- before the first, and the last leads on to `stop`.
abbrev pub Seg : ℕ → Store → ℕ → ℕ → List Cell → ℕ → Type 0
Seg magic m p a [] stop = Unit
Seg magic m p a (c ∷ cs) stop =
    (m a ≡ header magic c p (first (a + (header_size + c.size)) cs stop))
    × Seg magic m a (a + (header_size + c.size)) cs stop

-- A heap whose blocks are `cells`, from `heap_start` on. The linker script places everything above
-- 0x100000.
pub record IsHeap (s : Heap) (cells : List Cell) : Type 0 where
  pub above : 0x100000 ≤ s.heap_start
  pub in_range : s.heap_start + span cells < 18446744073709551616
  pub chain : Seg s.magic s.mem null s.heap_start cells null
  pub head_is : s.head ≡ first s.heap_start cells null
  pub tail_is : s.tail ≡ last null s.heap_start cells

pub span-append : (xs ys : List Cell) → span (xs ++ ys) ≡ span xs + span ys
span-append [] ys = omega arith
span-append (x ∷ xs) ys = omega (arith, span-append xs ys)
