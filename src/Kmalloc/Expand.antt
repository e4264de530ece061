-- ===== src/Kmalloc/Expand.antt =====
-- The edges of the heap: `malloc_init`, and what `malloc` does where no block is large enough.
use kernel_c.Prelude.{
  ℕ, zero, suc, ◌+◌, ◌-◌, ◌≤◌, ◌<◌, ◌≡◌, ◌≢◌, refl, sym, ap, ◌∙◌, true, false, some, List, [], ◌∷◌,
  ◌++◌, arith, length, ==_ne, le→not_ltb, add64, sub64, dec_lt,
}
use kernel_c.Heap.{Heap, null, header_size, align_up}
use kernel_c.Heap.Cells.{Cell, cell, span, last, IsHeap}
use kernel_c.Heap.Focus.{address}
use kernel_c.Kmalloc.{
  malloc_init, simple_morecore, append_block, heap_expand, grow, take_fit, malloc,
}
use kernel_c.Kmalloc.Fit.{none_fits, found, first_fit, find_fit-first_fit}
use kernel_c.Kmalloc.Malloc.{take_cells, Took, malloc_lem}

-- `malloc_init` makes the whole region one free block, and leaves `brk_ptr` at its end.
pub malloc_init-IsHeap :
    (s : Heap) (size : ℕ)
    → 0x100000 ≤ s.heap_start
    → header_size ≤ size
    → s.heap_start + size < 18446744073709551616
    → IsHeap (malloc_init s s.heap_start size) (cell (size - header_size) true ∷ [])
      × ((malloc_init s s.heap_start size).brk ≡ s.heap_start + size)
unfolding malloc_init
malloc_init-IsHeap s size low large range = ground arith

-- the block that an address of the heap falls into
block_at :
    (a : ℕ) (cells : List Cell) (p : ℕ)
    → a ≤ p
    → p < a + span cells
    → (us : List Cell) × (d : Cell) × (vs : List Cell) × (cells ≡ us ++ d ∷ vs)
      × (a + span us ≤ p)
      × (p < a + span us + (header_size + d.size))
block_at a [] p lo hi = absurd (omega arith)
block_at a (c ∷ cs) p lo hi = elim (dec_lt p (a + (header_size + c.size))) [
  | yes here ↦ ([], c, cs, refl, omega arith, omega arith)
  | no past ↦
      let (us, d, vs, e, x, y) =
        block_at (a + (header_size + c.size)) cs p (omega arith) (omega arith) in
      (c ∷ us, d, vs, ap (◌∷◌ c) e, omega arith, omega arith)
]

align_up_need :
    (n : ℕ)
    → n + 54 < 18446744073709551616
    → (align_up (align_up (add64 n header_size)) < n + 48)
      × (0 < align_up (align_up (add64 n header_size)))
unfolding align_up
align_up_need n small = omega arith

align_up_twice :
    (n : ℕ)
    → n + 54 < 18446744073709551616
    → align_up (align_up (add64 n header_size)) ≡ align_up (add64 n header_size)
unfolding align_up
align_up_twice n small = omega arith

align_up_large :
    (n : ℕ) → n + 54 < 18446744073709551616 → n + header_size ≤ align_up (add64 n header_size)
unfolding align_up
align_up_large n small = omega arith

simple_morecore_room :
    (s : Heap) (k : ℕ)
    → s.heap_start + align_up k ≤ s.brk
    → s.brk < 18446744073709551616
    → simple_morecore s k ≡ (s.brk - align_up k, record s { brk = s.brk - align_up k })
unfolding simple_morecore
simple_morecore_room s k room range =
    let e : sub64 s.brk (align_up k) ≡ s.brk - align_up k = omega arith in
    rw (e, le→not_ltb (s.brk - align_up k) s.heap_start (omega arith))

heap_expand_room :
    (s : Heap) (n k : ℕ)
    → k ≡ align_up (add64 n header_size)
    → 0 < s.heap_start
    → s.heap_start + align_up k ≤ s.brk
    → s.brk < 18446744073709551616
    → heap_expand s n
      ≡ (true, append_block (record s { brk = s.brk - align_up k }) (s.brk - align_up k) k)
unfolding heap_expand
heap_expand_room s n k e pos room range =
    rw (← e, simple_morecore_room s k room range, ==_ne (s.brk - align_up k) 0 (omega arith))

last_positive : (p a : ℕ) (cs : List Cell) → 0 < p → 0 < a → 0 < last p a cs
last_positive p a [] some_p some_a = some_p
last_positive p a (c ∷ cs) some_p some_a =
    last_positive a (a + (header_size + c.size)) cs some_a (omega arith)

last_some : (p a : ℕ) (cs : List Cell) → 0 < a → 0 < span cs → last p a cs ≢ null
last_some p a [] some_a room e = omega (arith, room)
last_some p a (c ∷ cs) some_a room e =
    omega (arith, e, last_positive a (a + (header_size + c.size)) cs some_a (omega arith))

-- a new last block of the list, free, of at least `n` bytes, right below the break that was
pub record Appended (s t : Heap) (n : ℕ) : Type 0 where
  pub at_break : t.brk ≡ t.tail
  pub free : (t.mem t.tail).free ≡ true
  pub its_prev : (t.mem t.tail).prev ≡ s.tail
  pub linked : (t.mem s.tail).next ≡ t.tail
  pub large : n ≤ (t.mem t.tail).size
  pub end : t.tail + (header_size + (t.mem t.tail).size) ≡ s.brk

append_block-Appended :
    (s : Heap) (n need b : ℕ)
    → s.tail ≢ null
    → n + header_size ≤ need
    → need < 18446744073709551616
    → b + need ≡ s.brk
    → Appended s (append_block (record s { brk = b }) b need) n
unfolding append_block
append_block-Appended s n need b some_tail fits range at = rw (==_ne s.tail 0 some_tail) (record {
  at_break = refl;
  free = ground arith;
  its_prev = ground arith;
  linked = ground arith;
  large = ground arith;
  end = ground arith;
})

heap_expand-Appended :
    (s : Heap) (n room : ℕ)
    → 0 < s.heap_start
    → s.tail ≢ null
    → s.brk ≡ s.heap_start + room
    → n + 54 < 18446744073709551616
    → n + 54 ≤ room
    → s.heap_start + room < 18446744073709551616
    → ((heap_expand s n).0 ≡ true)
      × Appended s (heap_expand s n).1 n
      × (s.heap_start ≤ (heap_expand s n).1.tail)
      × ((heap_expand s n).1.tail < s.heap_start + room)
unfolding append_block
heap_expand-Appended s n room pos some_tail top small fits range =
    let k = align_up (add64 n header_size) in
    let need = align_up_need n small in
    let aligned : align_up k ≡ k = align_up_twice n small in
    rw (heap_expand_room s n k refl pos (omega (arith, need)) (omega arith)) (
      refl,
      append_block-Appended s n k (s.brk - align_up k) some_tail (align_up_large n small)
          (omega (arith, need, aligned)) (omega (arith, need, aligned)),
      omega (arith, need),
      omega (arith, need),
    )

heap_expand_full :
    (s : Heap) (n : ℕ)
    → n + 7 < 18446744073709551616 - 54
    → align_up n + header_size ≤ s.brk
    → s.brk < s.heap_start + (align_up n + header_size)
    → s.brk < 18446744073709551616
    → heap_expand s (align_up n) ≡ (false, s)
unfolding heap_expand simple_morecore align_up
heap_expand_full s n small lo hi range = ground arith

align_up_wraps : (n : ℕ) → 18446744073709551609 ≤ n → n < 18446744073709551616 → align_up n ≡ 0
unfolding align_up
align_up_wraps n big range = omega arith

-- With `brk_ptr` at the end of the managed blocks, where `malloc_init` leaves it, the block that
-- `heap_expand` adds to the list, for a request that the managed blocks would have room for, lies inside
-- them: it is a new last block, free, of at least `n` bytes, linked behind the last one, and it starts
-- inside a block that was on the list already and ends at the end of them all.
pub heap_expand_overlaps :
    (s : Heap) (cells : List Cell) (n : ℕ)
    → IsHeap s cells
    → s.brk ≡ s.heap_start + span cells
    → n + 54 < 18446744073709551616
    → n + 54 ≤ span cells
    → ((heap_expand s n).0 ≡ true)
      × Appended s (heap_expand s n).1 n
      × ((us : List Cell) × (d : Cell) × (vs : List Cell) × (cells ≡ us ++ d ∷ vs)
          × (address s us ≤ (heap_expand s n).1.tail)
          × ((heap_expand s n).1.tail < address s us + (header_size + d.size)))
heap_expand_overlaps s cells n is top small room =
    let (ok, appended, lo, hi) =
      heap_expand-Appended s n (span cells) (omega (arith, is.above))
        (λ e.
          last_some null s.heap_start cells (omega (arith, is.above)) (omega (arith, room))
            (sym is.tail_is ∙ e))
        top small room is.in_range in
    (ok, appended, block_at s.heap_start cells _ lo hi)

grow_stops :
    (k fuel : ℕ) (s : Heap) (n : ℕ)
    → 0 < k
    → heap_expand s n ≡ (false, s)
    → grow k fuel s n null ≡ some (null, s)
unfolding grow
grow_stops zero fuel s n pos full = absurd (omega arith)
grow_stops (suc k) fuel s n pos full = rw full

-- Where no block is large enough and the region below `brk_ptr` is used up, `malloc` returns `NULL`
-- and changes nothing.
pub malloc-null :
    (fuel : ℕ) (s : Heap) (cells : List Cell) (n : ℕ)
    → IsHeap s cells
    → length cells < fuel
    → n ≢ 0
    → n + 61 < 18446744073709551616
    → first_fit (align_up n) cells ≡ none_fits
    → align_up n + header_size ≤ s.brk
    → s.brk < s.heap_start + (align_up n + header_size)
    → s.brk < 18446744073709551616
    → malloc fuel s n ≡ some (null, s)
unfolding malloc take_fit
malloc-null fuel s cells n is enough ne small miss lo hi range = rw (
  ==_ne n 0 ne,
  find_fit-first_fit fuel s cells (align_up n) is enough,
  miss,
  grow_stops fuel fuel s (align_up n) (omega arith)
      (heap_expand_full s n (omega arith) lo hi range),
)

-- Rounding up wraps for the last seven sizes: such a `malloc` returns the first free block, of any
-- size, cut to no bytes at all.
pub malloc_wraps :
    (fuel : ℕ) (s : Heap) (cells : List Cell) (n : ℕ) (xs : List Cell) (c : Cell) (ys : List Cell)
    → IsHeap s cells
    → length cells < fuel
    → 18446744073709551609 ≤ n
    → n < 18446744073709551616
    → first_fit 0 cells ≡ found xs c ys
    → (t : Heap) × (malloc fuel s n ≡ some (address s xs + header_size, t))
      × Took s t (xs ++ take_cells c 0 ys)
malloc_wraps fuel s cells n xs c ys is enough big range hit =
    let e : align_up n ≡ 0 = align_up_wraps n big range in
    rw e at (malloc_lem fuel s cells n xs c ys is enough (omega arith) (rw e hit))
