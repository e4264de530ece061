-- ===== src/Kmalloc/Safety.antt =====
-- Memory safety of `malloc`: what it hands out lies in the heap and apart from every block in use.
use kernel_c.Prelude.{
  ℕ, ◌+◌, ◌*◌, ◌≤◌, ◌<◌, ◌≡◌, ◌≢◌, sym, ap, ◌∙◌, ◌/◌, true, false, some, ◌⊎◌, inl, inr, List, [],
  ◌∷◌, ◌++◌, arith, length,
}
use kernel_c.Heap.{Heap, header_size, align_up}
use kernel_c.Heap.Cells.{Cell, span, span-append, IsHeap}
use kernel_c.Heap.Focus.{address}
use kernel_c.Kmalloc.{malloc}
use kernel_c.Kmalloc.Malloc.{malloc_lem}
use kernel_c.Kmalloc.Fit.{found, first_fit, found_parts}

-- two blocks of one list, one free and one in use, do not overlap
pub apart :
    (xs : List Cell) (c : Cell) (ys us : List Cell) (d : Cell) (vs : List Cell)
    → xs ++ c ∷ ys ≡ us ++ d ∷ vs
    → c.free ≡ true
    → d.free ≡ false
    → (span us + (header_size + d.size) ≤ span xs) ⊎ (span xs + (header_size + c.size) ≤ span us)
apart [] c ys [] d vs e free used = let same : c ≡ d = cc in absurd (ground arith)
apart [] c ys (u ∷ us) d vs e free used = let same : c ≡ u = cc in inr (ground arith)
apart (x ∷ xs) c ys [] d vs e free used = let same : x ≡ d = cc in inl (ground arith)
apart (x ∷ xs) c ys (u ∷ us) d vs e free used =
    let same : x ≡ u = cc in
    let rest : xs ++ c ∷ ys ≡ us ++ d ∷ vs = cc in
    ground (arith, apart xs c ys us d vs rest free used)

-- The rounded size is a multiple of 8 and at least the size asked for, unless rounding wraps.
pub align_up_bounds :
    (n : ℕ)
    → n + 7 < 18446744073709551616
    → (n ≤ align_up n) × (align_up n < n + 8) × ((k : ℕ) × (align_up n ≡ 8 * k))
unfolding align_up
align_up_bounds n small = (omega arith, omega arith, ((n + 7) / 8, omega arith))

-- The `n` bytes at a pointer that `malloc n` returns, where some free block is large enough, lie
-- inside the heap and do not meet the header or the payload of any block in use before the call.
pub malloc_apart :
    (fuel : ℕ) (s : Heap) (cells : List Cell) (n : ℕ) (xs : List Cell) (c : Cell)
    (ys us : List Cell) (d : Cell) (vs : List Cell) (p : ℕ) (t : Heap)
    → IsHeap s cells
    → length cells < fuel
    → n ≢ 0
    → n + 7 < 18446744073709551616
    → first_fit (align_up n) cells ≡ found xs c ys
    → malloc fuel s n ≡ some (p, t)
    → cells ≡ us ++ d ∷ vs
    → d.free ≡ false
    → (s.heap_start < p)
      × (p + n ≤ s.heap_start + span cells)
      × ((address s us + (header_size + d.size) ≤ p) ⊎ (p + n ≤ address s us))
malloc_apart fuel s cells n xs c ys us d vs p t is enough ne small hit ran parts used =
    let (at, large, free) = found_parts (align_up n) cells xs c ys hit in
    let bounds = align_up_bounds n small in
    let (u, does, _) = malloc_lem fuel s cells n xs c ys is enough ne hit in
    let same : p ≡ address s xs + header_size = cc in
    rw same (
      omega arith,
      omega (arith, bounds, ap span at, span-append xs (c ∷ ys)),
      ground (arith, apart xs c ys us d vs (sym at ∙ parts) free used, bounds),
    )
