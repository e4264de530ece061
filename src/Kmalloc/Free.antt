-- ===== src/Kmalloc/Free.antt =====
-- `free`: the block of a pointer that `malloc` returned goes back to the list, and pointers that are
-- no such block, or are free already, change nothing.
use kernel_c.Prelude.{
  ℕ, ◌+◌, ◌<◌, ◌≡◌, ◌≢◌, refl, ap, ◌∙◌, true, false, ◌⊎◌, List, ◌∷◌, ◌++◌, arith, ==_ne, ==_self,
}
use kernel_c.Heap.{Heap, Header, null, header_size, payload_to_header}
use kernel_c.Heap.Cells.{Cell, cell, IsHeap}
use kernel_c.Heap.Focus.{address, focus-Seg, focus-range}
use kernel_c.Heap.Mark.{mark, mark-IsHeap}
use kernel_c.Kmalloc.{coalesce, free}
use kernel_c.Kmalloc.Coalesce.{coalesce_cells, coalesce-IsHeap}

payload_to_header-address :
    (a : ℕ) → a + header_size < 18446744073709551616 → payload_to_header (a + header_size) ≡ a
unfolding payload_to_header
payload_to_header-address a range = omega arith

free-coalesce :
    (s : Heap) (a : ℕ)
    → a + header_size < 18446744073709551616
    → (s.mem a).magic ≡ s.magic
    → (s.mem a).free ≡ false
    → free s (a + header_size) ≡ coalesce (mark s a true) a
unfolding free
free-coalesce s a range magic used = rw (
  payload_to_header-address a range,
  ==_ne (a + header_size) 0 (omega arith),
  magic,
  ==_self s.magic,
  used,
)

-- `free` of the payload of a block in use marks the block free and merges it with its free
-- neighbours. The list stays well-formed, and every other block is as it was.
pub free_lem :
    (s : Heap) (xs : List Cell) (c : Cell) (ys : List Cell)
    → IsHeap s (xs ++ c ∷ ys)
    → c.free ≡ false
    → IsHeap (free s (address s xs + header_size)) (coalesce_cells xs (cell c.size true) ys)
free_lem s xs c ys is used =
    let at = (focus-Seg s xs c ys is).0 in
    rw
      (free-coalesce s (address s xs) (omega (arith, focus-range s xs c ys is))
        (ap (λ (h : Header). h.magic) at) (ap (λ (h : Header). h.free) at ∙ used))
      (coalesce-IsHeap (mark s (address s xs) true) xs (cell c.size true) ys
        (mark-IsHeap s xs c ys true is) refl)

-- A second `free` of a block that is free, a `free` of `NULL`, and a `free` of a pointer with no
-- block's magic number in front of it leave the whole heap as it is.
pub free_ignored :
    (s : Heap) (p : ℕ)
    → (p ≡ null)
      ⊎ ((s.mem (payload_to_header p)).magic ≢ s.magic)
      ⊎ ((s.mem (payload_to_header p)).free ≡ true)
    → free s p ≡ s
unfolding free
free_ignored s p why = ground arith
