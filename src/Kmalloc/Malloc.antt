-- ===== src/Kmalloc/Malloc.antt =====
-- `malloc` where some free block is large enough.
use kernel_c.Prelude.{
  ℕ, zero, suc, ◌+◌, ◌-◌, ◌≤◌, ◌<◌, ◌≡◌, ◌≢◌, sym, ap, true, false, some, List, ◌∷◌, ◌++◌, arith,
  length, if◌then◌else◌, ltb, ==_ne, Bool-cases, inl, inr,
}
use kernel_c.Heap.{Heap, header_size, align_up, header_to_payload}
use kernel_c.Heap.Cells.{Cell, cell, span, span-append, IsHeap}
use kernel_c.Heap.Focus.{address}
use kernel_c.Heap.Mark.{mark, mark-IsHeap}
use kernel_c.Kmalloc.{split_block, grow, take_fit, malloc}
use kernel_c.Kmalloc.Split.{split_cells, split_block-IsHeap}
use kernel_c.Kmalloc.Fit.{found, first_fit, found_parts, find_fit-first_fit}

-- what taking `n` bytes of the block `c` makes of it and of the blocks behind it
abbrev pub take_cells : Cell → ℕ → List Cell → List Cell
take_cells c n ys =
    if ltb c.size (n + 48)
    then cell c.size false ∷ ys
    else cell n false ∷ cell (c.size - n - header_size) true ∷ ys

split_block-heap_start : (s : Heap) (h n : ℕ) → (split_block s h n).heap_start ≡ s.heap_start
unfolding split_block
split_block-heap_start s h n = ground arith

split_block-bytes : (s : Heap) (h n : ℕ) → (split_block s h n).bytes ≡ s.bytes
unfolding split_block
split_block-bytes s h n = ground arith

mark_split :
    (t : Heap) (xs : List Cell) (c : Cell) (ys : List Cell) (n a : ℕ)
    → a ≡ address t xs
    → IsHeap t (xs ++ split_cells c n ys)
    → IsHeap (mark t a false) (xs ++ take_cells c n ys)
mark_split t xs c ys n a e is = rw e (elim (Bool-cases (ltb c.size (n + 48))) [
  | inl small ↦ rw small (mark-IsHeap t xs c ys false (rw small at is))
  | inr large ↦ rw large (mark-IsHeap t xs (cell n c.free) _ false (rw large at is))
])

-- a heap that a call made of `s`, with its blocks
pub record Took (s t : Heap) (cells : List Cell) : Type 0 where
  pub is_heap : IsHeap t cells
  pub same_start : t.heap_start ≡ s.heap_start
  pub same_bytes : t.bytes ≡ s.bytes

pub take_fit-Took :
    (s : Heap) (xs : List Cell) (c : Cell) (ys : List Cell) (n : ℕ)
    → IsHeap s (xs ++ c ∷ ys)
    → n ≤ c.size
    → (t : Heap) × (take_fit s (address s xs) n ≡ (address s xs + header_size, t))
      × Took s t (xs ++ take_cells c n ys)
unfolding take_fit header_to_payload
take_fit-Took s xs c ys n is le =
    let t = split_block s (address s xs) n in
    let same = split_block-heap_start s (address s xs) n in
    let pos : address s xs ≢ 0 = omega (arith, is.above) in
    let fits : address s xs + header_size < 18446744073709551616 =
      omega (arith, is.in_range, span-append xs (c ∷ ys)) in
    (
      mark t (address s xs) false,
      rw (==_ne (address s xs) 0 pos) (ap (λ a. (a, mark t (address s xs) false)) (omega arith)),
      record {
        is_heap =
            mark_split t xs c ys n (address s xs) (ap (λ b. b + span xs) (sym same))
              (split_block-IsHeap s xs c ys n is le);
        same_start = same;
        same_bytes = split_block-bytes s (address s xs) n;
      },
    )

grow_found :
    (k fuel : ℕ) (s : Heap) (n fit : ℕ) → 0 < k → fit ≢ 0 → grow k fuel s n fit ≡ some (fit, s)
unfolding grow
grow_found zero fuel s n fit pos ne = absurd (omega arith)
grow_found (suc k) fuel s n fit pos ne = rw (==_ne fit 0 ne)

-- Where a free block with room for the rounded size exists, `malloc` returns, with fuel for one
-- more round than there are blocks. It returns the payload of the first such block. That block is
-- now in use, cut to the rounded size if there is room for another header and 8 bytes; every other
-- block is as it was, the list is well-formed, and no payload byte is touched.
pub malloc_lem :
    (fuel : ℕ) (s : Heap) (cells : List Cell) (n : ℕ) (xs : List Cell) (c : Cell) (ys : List Cell)
    → IsHeap s cells
    → length cells < fuel
    → n ≢ 0
    → first_fit (align_up n) cells ≡ found xs c ys
    → (t : Heap) × (malloc fuel s n ≡ some (address s xs + header_size, t))
      × Took s t (xs ++ take_cells c (align_up n) ys)
unfolding malloc
malloc_lem fuel s cells n xs c ys is enough ne hit =
    let (parts, large, _) = found_parts (align_up n) cells xs c ys hit in
    let (t, ran, took) = take_fit-Took s xs c ys (align_up n) (rw parts at is) large in
    let pos : address s xs ≢ 0 = omega (arith, is.above) in
    (
      t,
      rw (
        ==_ne n 0 ne,
        find_fit-first_fit fuel s cells (align_up n) is enough,
        hit,
        grow_found fuel fuel s (align_up n) (address s xs) (omega arith) pos,
        ran,
      ),
      took,
    )
