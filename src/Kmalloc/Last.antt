-- ===== src/Kmalloc/Last.antt =====
-- An allocation in a heap whose last block alone is free.
use kernel_c.Prelude.{
  ℕ, ◌+◌, ◌-◌, ◌≤◌, ◌<◌, ◌≡◌, ◌≢◌, refl, subst, List, [], ◌∷◌, ◌++◌, append_assoc, arith, true,
  false, some, length, length-append, le→not_ltb,
}
use kernel_c.Heap.{Heap, header_size, align_up}
use kernel_c.Heap.Cells.{Cell, cell, IsHeap}
use kernel_c.Heap.Focus.{address}
use kernel_c.Kmalloc.{malloc}
use kernel_c.Kmalloc.Fit.{found, first_fit}
use kernel_c.Kmalloc.Malloc.{take_cells, Took, malloc_lem}

unfoldable pub AllUsed : List Cell → Type 0
AllUsed [] = Unit
AllUsed (c ∷ cs) = (c.free ≡ false) × AllUsed cs

pub AllUsed-append : (xs ys : List Cell) → AllUsed xs → AllUsed ys → AllUsed (xs ++ ys)
unfolding AllUsed
AllUsed-append [] ys used more = more
AllUsed-append (x ∷ xs) ys used more = (used.0, AllUsed-append xs ys used.1 more)

first_fit_last :
    (used : List Cell) (n size : ℕ)
    → AllUsed used
    → size ≤ n
    → first_fit size (used ++ cell n true ∷ []) ≡ found used (cell n true) []
unfolding AllUsed first_fit
first_fit_last [] n size free room = ground arith
first_fit_last (c ∷ used) n size (in_use, free) room =
    rw (in_use, first_fit_last used n size free room) refl

take_cells_last :
    (n size : ℕ)
    → size + 48 ≤ n
    → take_cells (cell n true) size [] ≡ cell size false ∷ cell (n - size - header_size) true ∷ []
take_cells_last n size room = rw (le→not_ltb n (size + 48) room) refl

pub malloc_last :
    (fuel : ℕ) (s : Heap) (used : List Cell) (n size : ℕ)
    → IsHeap s (used ++ cell n true ∷ [])
    → AllUsed used
    → length used + 1 < fuel
    → size ≢ 0
    → align_up size ≡ size
    → size + 48 ≤ n
    → (t : Heap) × (malloc fuel s size ≡ some (address s used + header_size, t))
      × Took s t ((used ++ cell size false ∷ []) ++ cell (n - size - header_size) true ∷ [])
malloc_last fuel s used n size is free enough some_size aligned room =
    let (t, ran, took) =
      malloc_lem fuel s (used ++ cell n true ∷ []) size used (cell n true) [] is
        (omega (arith, enough, length-append used (cell n true ∷ []))) some_size
        (rw aligned (first_fit_last used n size free (omega (arith, room)))) in
    (
      t,
      ran,
      rw (append_assoc used (cell size false ∷ []) (cell (n - size - header_size) true ∷ [])) (
          subst (λ cs. Took s t (used ++ cs)) (take_cells_last n size room)
            (subst (λ m. Took s t (used ++ take_cells (cell n true) m [])) aligned took)),
    )
