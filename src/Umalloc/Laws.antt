-- ===== src/Umalloc/Laws.antt =====
-- What `user_malloc` and `user_free` do to the list of blocks.
use kernel_c.Prelude.{
  ℕ, ◌+◌, ◌-◌, ◌≤◌, ◌<◌, ◌≡◌, ◌≢◌, refl, sym, ap, true, some, List, [], ◌∷◌, ◌++◌, arith, length,
  ==_ne,
}
use kernel_c.Heap.{Heap, null, header_size, align_up}
use kernel_c.Heap.Cells.{Cell, cell, span, IsHeap}
use kernel_c.Heap.Focus.{address}
use kernel_c.Kmalloc.{take_fit, free}
use kernel_c.Kmalloc.Fit.{found, none_fits, first_fit, found_parts, find_fit-first_fit}
use kernel_c.Kmalloc.Malloc.{take_cells, Took, take_fit-Took}
use kernel_c.Kmalloc.Roundtrip.{IsMerged, restored}
use kernel_c.Umalloc.{user_malloc_init, user_take, user_malloc, user_free}
use kernel_c.Umalloc.Same.{user_split_block_same, user_find_fit_same, user_free_same}

-- On a heap that was never used, the first call makes one free block of the whole of the programs'
-- memory.
pub user_malloc_init-IsHeap :
    (s : Heap)
    → s.head ≡ null
    → 0x100000 ≤ s.heap_start
    → s.heap_start + header_size ≤ s.managed_end
    → s.managed_end < 18446744073709551616
    → IsHeap (user_malloc_init s) (cell (s.managed_end - s.heap_start - header_size) true ∷ [])
unfolding user_malloc_init
user_malloc_init-IsHeap s unused above room range = simp unused (record {
  above = above;
  in_range = omega arith;
  chain = (ground arith, tt);
  head_is = refl;
  tail_is = refl;
})

user_take_same : (s : Heap) (fit n : ℕ) → fit ≢ null → user_take s fit n ≡ take_fit s fit n
unfolding user_take take_fit
user_take_same s fit n ne = rw (==_ne fit 0 ne, user_split_block_same s fit n ne) refl

module _ (fuel : ℕ) (s : Heap) (cells : List Cell) (n : ℕ) (is : IsHeap s cells)
    (enough : length cells < fuel) (ne : n ≢ 0) (set_up : s.head ≢ null) where
  ready : user_malloc_init s ≡ s
  unfolding user_malloc_init
  ready = rw (==_ne s.head 0 set_up) refl

  -- On a well-formed heap that is set up, where no free block has room for the rounded size of a
  -- request for some bytes, `user_malloc` returns NULL and leaves the heap as it was. Fuel for one
  -- more round than there are blocks is enough.
  pub user_malloc-null :
      first_fit (align_up n) cells ≡ none_fits → user_malloc fuel s n ≡ some (null, s)
  unfolding user_malloc user_take
  user_malloc-null miss =
      rw
        (
          ready,
          ==_ne n 0 ne,
          user_find_fit_same fuel s (align_up n),
          find_fit-first_fit fuel s cells (align_up n) is enough,
          miss,
        )
        refl

  module _ (xs : List Cell) (c : Cell) (ys : List Cell)
      (hit : first_fit (align_up n) cells ≡ found xs c ys) where
    -- On a well-formed heap that is set up, where a free block with room for the rounded size of a
    -- request for some bytes exists, `user_malloc` returns the payload of the first such block, with
    -- fuel for one more round than there are blocks. That block is now in use, cut if there is room for another header and 8
    -- bytes; every other block is as it was, the list is well-formed, and no payload byte changes.
    pub user_malloc_lem :
        (t : Heap) × (user_malloc fuel s n ≡ some (address s xs + header_size, t))
        × Took s t (xs ++ take_cells c (align_up n) ys)
    unfolding user_malloc
    user_malloc_lem =
        let (parts, large, _) = found_parts (align_up n) cells xs c ys hit in
        let (t, ran, took) = take_fit-Took s xs c ys (align_up n) (rw parts at is) large in
        let pos : address s xs ≢ 0 = omega (arith, is.above) in
        (
          t,
          rw
              (
                ready,
                ==_ne n 0 ne,
                user_find_fit_same fuel s (align_up n),
                find_fit-first_fit fuel s cells (align_up n) is enough,
                hit,
                user_take_same s (address s xs) (align_up n) pos,
                ran,
              )
              refl,
          took,
        )

    -- On a well-formed heap that is set up and has no two free neighbours, where a free block with room
    -- for the rounded size of a request for some bytes exists, `user_malloc` returns, and `user_free`
    -- of what it returned restores every block.
    pub user_free-malloc :
        IsMerged cells
        → (p : ℕ) × (t : Heap) × (user_malloc fuel s n ≡ some (p, t)) × IsHeap (user_free t p) cells
    user_free-malloc merged =
        let (parts, large, is_free) = found_parts (align_up n) cells xs c ys hit in
        let (t, ran, took) = user_malloc_lem in
        let back : IsHeap (free t (address s xs + header_size)) (xs ++ c ∷ ys) =
          restored t xs c ys (align_up n) (address s xs) (rw parts at merged) is_free large
            took.is_heap (ap (λ b. b + span xs) (sym took.same_start)) in
        (
          address s xs + header_size,
          t,
          ran,
          rw (user_free_same t (address s xs + header_size), parts) back,
        )
