-- ===== src/Kmalloc/Coalesce.antt =====
-- `coalesce` on a well-formed list.
use kernel_c.Prelude.{
  ℕ, ◌+◌, ◌<◌, ◌≡◌, ◌≢◌, refl, ap, ◌∙◌, true, false, List, [], ◌∷◌, ◌++◌, append_assoc, arith,
  if◌then◌else◌, ==_ne, Bool-cases, inl, inr, ◌⊎◌,
}
use kernel_c.Heap.{Heap, Header, null, header_size}
use kernel_c.Heap.Cells.{Cell, cell, span-append, Seg, IsHeap}
use kernel_c.Heap.Focus.{address, before, focus-Seg, focus-range, focus-tail, refocus}
use kernel_c.Kmalloc.{absorb_next, absorb_into_prev, coalesce}
use kernel_c.Kmalloc.Merge.{
  absorb_cells, absorb_next-used, absorb_next-tail, absorb_next-after, absorb_next-below,
  absorb_next-last_is, absorb_into_prev-absorb_next,
}

-- the globals that merging leaves alone
absorb_next_fields :
    (s : Heap) (h : ℕ)
    → ((absorb_next s h).magic ≡ s.magic)
      × ((absorb_next s h).heap_start ≡ s.heap_start)
      × ((absorb_next s h).head ≡ s.head)
      × ((absorb_next s h).bytes ≡ s.bytes)
unfolding absorb_next
absorb_next_fields s h = ground arith

absorb_next_alone : (s : Heap) (h : ℕ) → (s.mem h).next ≡ null → absorb_next s h ≡ s
unfolding absorb_next
absorb_next_alone s h e = rw e

module _ (s : Heap) (xs : List Cell) (c d : Cell) (ds : List Cell)
    (is : IsHeap s (xs ++ c ∷ d ∷ ds)) where
  absorb_next_free :
      d.free ≡ true → IsHeap (absorb_next s (address s xs)) (xs ++ absorb_cells c (d ∷ ds))
  absorb_next_free free =
      let a = address s xs in
      let seg = focus-Seg s xs c (d ∷ ds) is in
      let range = focus-range s xs c (d ∷ ds) is in
      let low : 0 < a = omega (arith, is.above) in
      let fields = absorb_next_fields s a in
      let n = a + (header_size + c.size) in
      simp free (
        refocus s xs c (d ∷ ds) is (absorb_next s a) _ ds fields.0 fields.1 fields.2 (omega arith)
          (absorb_next-below s (before s xs) a c d low free ds range seg)
          (absorb_next-after s (before s xs) a c d low free ds range seg)
          (absorb_next-tail s a (before s xs) n _ c d (omega arith) (omega arith) seg.0 seg.1.0 free
            ∙ absorb_next-last_is s (before s xs) a c d low free ds
                (focus-tail s xs c (d ∷ ds) is)))

pub absorb_next-IsHeap :
    (s : Heap) (xs : List Cell) (c : Cell) (ys : List Cell)
    → IsHeap s (xs ++ c ∷ ys)
    → IsHeap (absorb_next s (address s xs)) (xs ++ absorb_cells c ys)
absorb_next-IsHeap s xs c [] is =
    rw (absorb_next_alone s (address s xs) (ap (λ (h : Header). h.next) (focus-Seg s xs c [] is).0))
      is
absorb_next-IsHeap s xs c (d ∷ ds) is = elim (Bool-cases d.free) [
  | inl free ↦ absorb_next_free s xs c d ds is free
  | inr used ↦
      let seg = focus-Seg s xs c (d ∷ ds) is in
      simp
        (
          used,
          absorb_next-used s (address s xs) (before s xs) (address s xs + (header_size + c.size)) _
              c d (omega (arith, is.above)) (omega arith) seg.0 seg.1.0 used,
        )
        is
]

absorb_into_prev-used :
    (s : Heap) (h p : ℕ)
    → (s.mem h).prev ≡ p
    → p ≢ null
    → (s.mem p).free ≡ false
    → absorb_into_prev s h ≡ s
unfolding absorb_into_prev
absorb_into_prev-used s h p e ne used = ground arith

absorb_into_prev_alone : (s : Heap) (h : ℕ) → (s.mem h).prev ≡ null → absorb_into_prev s h ≡ s
unfolding absorb_into_prev
absorb_into_prev_alone s h e = rw e

-- what lies behind `b` when the free block `c` has been offered to it
abbrev pub join_cells : Cell → Cell → List Cell → List Cell
join_cells b c ys = if b.free then cell (b.size + header_size + c.size) true ∷ ys else b ∷ c ∷ ys

module _ (s : Heap) (xs : List Cell) (b c : Cell) (ys : List Cell)
    (is : IsHeap s (xs ++ b ∷ c ∷ ys)) where
  absorb_into_prev-IsHeap :
      (h : ℕ)
      → c.free ≡ true
      → h ≡ address s xs + (header_size + b.size)
      → IsHeap (absorb_into_prev s h) (xs ++ join_cells b c ys)
  absorb_into_prev-IsHeap h free at = elim (Bool-cases b.free) [
    | inl free_b ↦
        simp (free_b, at, into free_b)
          (simp (free, free_b) at (absorb_next-IsHeap s xs b (c ∷ ys) is))
    | inr used ↦ simp (used, at, alone used) is
  ]
    where
      seg : Seg s.magic s.mem (before s xs) (address s xs) (b ∷ c ∷ ys) null
      seg = focus-Seg s xs b (c ∷ ys) is

      into :
          b.free ≡ true
          → absorb_into_prev s (address s xs + (header_size + b.size))
            ≡ absorb_next s (address s xs)
      into free_b =
          absorb_into_prev-absorb_next s (address s xs) (before s xs) _ _ b c (omega arith)
            (omega arith) seg.0 seg.1.0 free free_b (omega (arith, is.above))

      alone : b.free ≡ false → absorb_into_prev s (address s xs + (header_size + b.size)) ≡ s
      alone used =
          absorb_into_prev-used s _ (address s xs) (ap (λ (g : Header). g.prev) seg.1.0)
            (omega (arith, is.above)) (ap (λ (g : Header). g.free) seg.0 ∙ used)

abbrev pub join_list : Cell → List Cell → List Cell
join_list b [] = b ∷ []
join_list b (d ∷ ds) = join_cells b d ds

-- The blocks after `coalesce` on the free block `c` between `xs` and `ys`.
unfoldable pub coalesce_cells : List Cell → Cell → List Cell → List Cell
coalesce_cells [] c ys = absorb_cells c ys
coalesce_cells (b ∷ []) c ys = join_list b (absorb_cells c ys)
coalesce_cells (b ∷ b' ∷ bs) c ys = b ∷ coalesce_cells (b' ∷ bs) c ys

coalesce_cells-snoc :
    (zs : List Cell) (b c : Cell) (ys : List Cell)
    → coalesce_cells (zs ++ b ∷ []) c ys ≡ zs ++ join_list b (absorb_cells c ys)
unfolding coalesce_cells
coalesce_cells-snoc [] b c ys = refl
coalesce_cells-snoc (z ∷ []) b c ys = refl
coalesce_cells-snoc (z ∷ z' ∷ zs) b c ys = ap (◌∷◌ z) (coalesce_cells-snoc (z' ∷ zs) b c ys)

-- a list is empty, or has a last element
pub Snoc-cases :
    (xs : List Cell) → (xs ≡ []) ⊎ ((zs : List Cell) × (b : Cell) × (xs ≡ zs ++ b ∷ []))
Snoc-cases [] = inl refl
Snoc-cases (x ∷ xs) = elim (Snoc-cases xs) [
  | inl e ↦ inr ([], x, ap (◌∷◌ x) e)
  | inr (zs, b, e) ↦ inr (x ∷ zs, b, ap (◌∷◌ x) e)
]

absorb_cells-cons :
    (c : Cell) (ys : List Cell)
    → (d : Cell) × (ds : List Cell) × (absorb_cells c ys ≡ d ∷ ds) × (d.free ≡ c.free)
absorb_cells-cons c [] = (c, [], refl, refl)
absorb_cells-cons c (y ∷ ys) = elim (Bool-cases y.free) [
  | inl free ↦ (cell (c.size + header_size + y.size) c.free, ys, simp free, refl)
  | inr used ↦ (c, y ∷ ys, simp used, refl)
]

join_after :
    (t : Heap) (zs : List Cell) (b : Cell) (rest : List Cell) (h : ℕ)
    → ((d : Cell) × (ds : List Cell) × (rest ≡ d ∷ ds) × (d.free ≡ true))
    → IsHeap t (zs ++ b ∷ rest)
    → h ≡ address t zs + (header_size + b.size)
    → IsHeap (absorb_into_prev t h) (zs ++ join_list b rest)
join_after t zs b rest h (d, ds, e, free) is at =
    rw e (absorb_into_prev-IsHeap t zs b d ds (rw e at is) h free at)

coalesce-parts : (s : Heap) (h : ℕ) → h ≢ null → coalesce s h ≡ absorb_into_prev (absorb_next s h) h
unfolding coalesce
coalesce-parts s h ne = rw (==_ne h 0 ne)

stays_after :
    (t : Heap) (rest : List Cell) (h : ℕ)
    → ((d : Cell) × (ds : List Cell) × (rest ≡ d ∷ ds))
    → IsHeap t rest
    → h ≡ address t []
    → absorb_into_prev t h ≡ t
stays_after t rest h (d, ds, e) is at = rw at (
    absorb_into_prev_alone t (address t [])
      (ap (λ (g : Header). g.prev) (focus-Seg t [] d ds (rw e at is)).0))

coalesce-nil :
    (s : Heap) (c : Cell) (ys : List Cell)
    → IsHeap s (c ∷ ys)
    → IsHeap (coalesce s (address s [])) (absorb_cells c ys)
coalesce-nil s c ys is =
    let h = address s [] in
    let t = absorb_next s h in
    let (d, ds, e, _) = absorb_cells-cons c ys in
    let made = absorb_next-IsHeap s [] c ys is in
    rw
      (
        coalesce-parts s h (omega (arith, is.above)),
        stays_after t (absorb_cells c ys) h (d, ds, e) made
            (omega (arith, (absorb_next_fields s h).1)),
      )
      made

coalesce-snoc :
    (s : Heap) (zs : List Cell) (b c : Cell) (ys : List Cell)
    → IsHeap s ((zs ++ b ∷ []) ++ c ∷ ys)
    → c.free ≡ true
    → IsHeap (coalesce s (address s (zs ++ b ∷ []))) (zs ++ join_list b (absorb_cells c ys))
coalesce-snoc s zs b c ys is free =
    let xs = zs ++ b ∷ [] in
    let h = address s xs in
    let t = absorb_next s h in
    let (d, ds, e, same) = absorb_cells-cons c ys in
    rw (coalesce-parts s h (omega (arith, is.above))) (
      join_after t zs b (absorb_cells c ys) h (d, ds, e, same ∙ free)
        (rw (append_assoc zs (b ∷ []) (absorb_cells c ys)) at (absorb_next-IsHeap s xs c ys is))
        (omega (arith, span-append zs (b ∷ []), (absorb_next_fields s h).1)))

-- `coalesce` on a free block merges it with the next block if that is free, and then with the one
-- before if that is free. The list stays well-formed, and every other block is as it was.
pub coalesce-IsHeap :
    (s : Heap) (xs : List Cell) (c : Cell) (ys : List Cell)
    → IsHeap s (xs ++ c ∷ ys)
    → c.free ≡ true
    → IsHeap (coalesce s (address s xs)) (coalesce_cells xs c ys)
unfolding coalesce_cells
coalesce-IsHeap s xs c ys is free = elim (Snoc-cases xs) [
  | inl e ↦ rw e (coalesce-nil s c ys (rw e at is))
  | inr (zs, b, e) ↦
      rw (e, coalesce_cells-snoc zs b c ys) (coalesce-snoc s zs b c ys (rw e at is) free)
]
