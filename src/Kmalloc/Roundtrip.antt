-- ===== src/Kmalloc/Roundtrip.antt =====
-- A heap where no two free blocks are neighbours: `malloc` and `free` keep it so, and `free` undoes
-- `malloc`.
use kernel_c.Prelude.{
  ℕ, ◌+◌, ◌-◌, ◌≤◌, ◌<◌, ◌≡◌, ◌≢◌, refl, sym, ap, true, false, ◌&&◌, some, inl, inr, List, [], ◌∷◌,
  ◌++◌, arith, length, ltb, Bool-cases,
}
use kernel_c.Heap.{Heap, header_size, align_up}
use kernel_c.Heap.Cells.{Cell, cell, span, IsHeap}
use kernel_c.Heap.Focus.{address}
use kernel_c.Kmalloc.{malloc, free}
use kernel_c.Kmalloc.Fit.{found, first_fit, found_parts}
use kernel_c.Kmalloc.Malloc.{take_cells, malloc_lem}
use kernel_c.Kmalloc.Merge.{absorb_cells}
use kernel_c.Kmalloc.Coalesce.{coalesce_cells}
use kernel_c.Kmalloc.Free.{free_lem}

-- no two neighbours are both free
abbrev pub IsMerged : List Cell → Type 0
IsMerged [] = Unit
IsMerged (c ∷ []) = Unit
IsMerged (c ∷ d ∷ ds) = ((c.free && d.free) ≡ false) × IsMerged (d ∷ ds)

coalesce_cells-restores :
    (xs : List Cell) (d : Cell) (zs : List Cell) (c : Cell) (ys : List Cell)
    → absorb_cells d zs ≡ c ∷ ys
    → c.free ≡ true
    → IsMerged (xs ++ c ∷ ys)
    → coalesce_cells xs d zs ≡ xs ++ c ∷ ys
unfolding coalesce_cells
coalesce_cells-restores [] d zs c ys e free m = e
coalesce_cells-restores (b ∷ []) d zs c ys e free (m, _) =
    let used : b.free ≡ false = ground arith in rw e (simp used)
coalesce_cells-restores (b ∷ b' ∷ bs) d zs c ys e free (_, m) =
    ap (◌∷◌ b) (coalesce_cells-restores (b' ∷ bs) d zs c ys e free m)

IsMerged-suffix : (xs ys : List Cell) → IsMerged (xs ++ ys) → IsMerged ys
IsMerged-suffix [] ys m = m
IsMerged-suffix (x ∷ []) [] m = tt
IsMerged-suffix (x ∷ []) (y ∷ ys) m = m.1
IsMerged-suffix (x ∷ x' ∷ xs) ys m = IsMerged-suffix (x' ∷ xs) ys m.1

-- a free block of a merged heap takes in nothing
absorb_cells-IsMerged :
    (c : Cell) (ys : List Cell) → c.free ≡ true → IsMerged (c ∷ ys) → absorb_cells c ys ≡ c ∷ ys
absorb_cells-IsMerged c [] free m = refl
absorb_cells-IsMerged c (y ∷ ys) free (m, _) = let used : y.free ≡ false = ground arith in simp used

pub restored :
    (t : Heap) (xs : List Cell) (c : Cell) (ys : List Cell) (n a : ℕ)
    → IsMerged (xs ++ c ∷ ys)
    → c.free ≡ true
    → n ≤ c.size
    → IsHeap t (xs ++ take_cells c n ys)
    → a ≡ address t xs
    → IsHeap (free t (a + header_size)) (xs ++ c ∷ ys)
restored t xs c ys n a m is_free large is at = elim (Bool-cases (ltb c.size (n + 48))) [
  | inl small ↦
      let e : absorb_cells (cell c.size true) ys ≡ c ∷ ys =
        rw whole (absorb_cells-IsMerged c ys is_free (IsMerged-suffix xs (c ∷ ys) m)) in
      rw (at, ← coalesce_cells-restores xs (cell c.size true) ys c ys e is_free m)
        (free_lem t xs (cell c.size false) ys (simp small at is) refl)
  | inr room ↦
      let rest = cell (c.size - n - header_size) true ∷ ys in
      let e : absorb_cells (cell n true) rest ≡ c ∷ ys = ap (λ (d : Cell). d ∷ ys) (ground arith) in
      rw (at, ← coalesce_cells-restores xs (cell n true) rest c ys e is_free m)
        (free_lem t xs (cell n false) rest (simp room at is) refl)
]
  where
    whole : cell c.size true ≡ c
    whole = ground arith

-- Where `malloc` succeeds on a merged heap, `free` of what it returned brings every block back to
-- where it was.
pub free-malloc :
    (fuel : ℕ) (s : Heap) (cells : List Cell) (n : ℕ) (xs : List Cell) (c : Cell) (ys : List Cell)
    → IsHeap s cells
    → IsMerged cells
    → length cells < fuel
    → n ≢ 0
    → first_fit (align_up n) cells ≡ found xs c ys
    → (p : ℕ) × (t : Heap) × (malloc fuel s n ≡ some (p, t)) × IsHeap (free t p) cells
free-malloc fuel s cells n xs c ys is m enough ne hit =
    let (at, large, is_free) = found_parts (align_up n) cells xs c ys hit in
    let (t, ran, took) = malloc_lem fuel s cells n xs c ys is enough ne hit in
    (
      address s xs + header_size,
      t,
      ran,
      rw at (
          restored t xs c ys (align_up n) (address s xs) (rw at at m) is_free large took.is_heap
            (ap (λ a. a + span xs) (sym took.same_start))),
    )
