-- ===== src/Kmalloc/InPlace.antt =====
-- `realloc` of a block with a free block behind it grows it where it is.
use kernel_c.Prelude.{
  ℕ, suc, ◌+◌, ◌≤◌, ◌<◌, ◌≡◌, ◌≢◌, refl, sym, ap, ◌∙◌, subst, true, false, some, List, ◌∷◌, ◌++◌,
  ==_ne, ==_self, arith, le→leb, lt→not_leb,
}
use kernel_c.Heap.{
  Store, Header, Heap, null, header_size, header_to_payload, set_next, align_up, payload_to_header,
}
use kernel_c.Heap.Cells.{Cell, cell, span, header, IsHeap}
use kernel_c.Heap.Frame.{last-bounds}
use kernel_c.Heap.Focus.{address, before, focus-Seg, focus-range, focus-tail}
use kernel_c.Kmalloc.{set_prev_if, absorb_next, take_fit}
use kernel_c.Kmalloc.Malloc.{take_cells, Took, take_fit-Took}
use kernel_c.Kmalloc.Coalesce.{absorb_next-IsHeap}
use kernel_c.Kmalloc.Realloc.{
  absorb_loop, sum_loop, close_up, extend, resize, realloc, grown, sum_loop-one, absorb_loop-one,
  grown-absorb_next,
}

extend-some :
    (fuel : ℕ) (s : Heap) (ptr h b n sum k : ℕ) (m : Store) (t : Heap)
    → payload_to_header ptr ≡ h
    → (s.mem h).next ≡ b
    → sum_loop fuel s.mem b (s.mem h).size n ≡ some sum
    → n ≤ sum
    → absorb_loop fuel s.mem h b n ≡ some (k, m)
    → close_up s h k m n ≡ t
    → extend fuel s ptr n ≡ some (ptr, t)
unfolding extend
extend-some fuel s ptr h b n sum k m t at next summed enough absorbed closed =
    rw (at, next, summed, le→leb n sum enough, absorbed) (ap (λ u. some (ptr, u)) closed)

realloc-extend :
    (fuel : ℕ) (s : Heap) (ptr h b new_size : ℕ)
    → ptr ≢ null
    → new_size ≢ 0
    → payload_to_header ptr ≡ h
    → (s.mem h).magic ≡ s.magic
    → (s.mem h).size < align_up new_size
    → (s.mem h).next ≡ b
    → b ≢ null
    → (s.mem b).free ≡ true
    → realloc fuel s ptr new_size ≡ extend fuel s ptr (align_up new_size)
unfolding realloc resize
realloc-extend fuel s ptr h b new_size some_ptr some_size at magic wants next some_b free =
    rw
      (
        ==_ne ptr 0 some_ptr,
        ==_ne new_size 0 some_size,
        at,
        magic,
        ==_self s.magic,
        lt→not_leb (align_up new_size) (s.mem h).size wants,
        next,
        ==_ne b 0 some_b,
        free,
      )
      refl

close_up-take_fit :
    (s : Heap) (h to n : ℕ) (m : Store) (u : Heap)
    → h ≢ null
    → record s { mem = set_prev_if (set_next m h to) to h } ≡ u
    → take_fit u h n ≡ (header_to_payload h, close_up s h to m n)
unfolding take_fit close_up
close_up-take_fit s h to n m u some_h e =
    ap (λ v. take_fit v h n) (sym e) ∙ rw (==_ne h 0 some_h) refl

module _ (fuel : ℕ) (s : Heap) (xs : List Cell) (c d e : Cell) (ys : List Cell) (new_size : ℕ)
    (is : IsHeap s (xs ++ c ∷ d ∷ e ∷ ys)) (free_d : d.free ≡ true)
    (wants : c.size < align_up new_size) (room : align_up new_size ≤ c.size + header_size + d.size)
    (some_size : new_size ≢ 0) where
  h : ℕ
  h = address s xs

  b : ℕ
  b = h + (header_size + c.size)

  k : ℕ
  k = b + (header_size + d.size)

  whole : Cell
  whole = cell (c.size + header_size + d.size) c.free

  range : h + span (c ∷ d ∷ e ∷ ys) < 18446744073709551616
  unfolding h
  range = focus-range s xs c (d ∷ e ∷ ys) is

  low : 0x100000 ≤ h
  unfolding h
  low = omega (arith, is.above)

  other_tail : s.tail ≢ b
  unfolding b k h
  other_tail z = omega (arith, sym z ∙ focus-tail s xs c (d ∷ e ∷ ys) is, last-bounds b k e ys)

  at : s.mem h ≡ header s.magic c (before s xs) b
  unfolding h b
  at = (focus-Seg s xs c (d ∷ e ∷ ys) is).0

  at_b : s.mem b ≡ header s.magic d h k
  unfolding h b k
  at_b = (focus-Seg s xs c (d ∷ e ∷ ys) is).1.0

  some_b : b ≢ null
  unfolding b
  some_b z = omega (arith, z)

  b_h : b ≢ h
  unfolding b
  b_h z = omega (arith, z)

  k_h : k ≢ h
  unfolding k b
  k_h z = omega (arith, z)

  k_b : k ≢ b
  unfolding k
  k_b z = omega (arith, z)

  small : c.size + header_size + d.size < 18446744073709551616
  small = omega (arith, range)

  larger : Store
  larger =
      grown s h (before s xs) b k (align_up new_size) c d at at_b some_b b_h k_h k_b free_d wants
        room small

  closed : Heap
  closed = close_up s h k larger (align_up new_size)

  joined : record s { mem = set_prev_if (set_next larger h k) k h } ≡ absorb_next s h
  unfolding larger
  joined =
      grown-absorb_next s h (before s xs) b k (align_up new_size) c d at at_b some_b b_h k_h k_b
        free_d wants room small other_tail

  whole-IsHeap : IsHeap (absorb_next s h) (xs ++ whole ∷ e ∷ ys)
  unfolding h whole
  whole-IsHeap = simp free_d at (absorb_next-IsHeap s xs c (d ∷ e ∷ ys) is)

  taken : Took (absorb_next s h) closed (xs ++ take_cells whole (align_up new_size) (e ∷ ys))
  unfolding closed whole h
  taken =
      let same : (absorb_next s h).heap_start ≡ s.heap_start =
        ap (λ (u : Heap). u.heap_start) (sym joined) in
      let (t, ran, took) =
        take_fit-Took (absorb_next s h) xs whole (e ∷ ys) (align_up new_size) whole-IsHeap room in
      let there : t ≡ closed =
        ap (λ (r : ℕ × Heap). r.1)
          (sym ran
            ∙ ap (λ v. take_fit (absorb_next s h) (v + span xs) (align_up new_size)) same
            ∙ close_up-take_fit s h k (align_up new_size) larger (absorb_next s h)
                (λ z. omega (arith, low, z)) joined) in
      subst (λ u. Took (absorb_next s h) u (xs ++ take_cells whole (align_up new_size) (e ∷ ys)))
        there took

  -- `realloc` of a block, for a rounded size that does not fit the block but fits it together with
  -- the free block behind it, where another block follows: it returns the same pointer, with fuel for
  -- two rounds. The block has taken in the free one and is cut to the rounded size if there is room for
  -- another header and 8 bytes; every other block is as it was, the list is well-formed, and no
  -- payload byte changes.
  pub realloc_in_place :
      (t : Heap) × (realloc (suc (suc fuel)) s (address s xs + header_size) new_size
        ≡ some (address s xs + header_size, t))
      × IsHeap t (
          xs
          ++ take_cells (cell (c.size + header_size + d.size) false) (align_up new_size) (e ∷ ys))
      × (t.bytes ≡ s.bytes)
  unfolding payload_to_header closed larger whole h
  realloc_in_place =
      let at_h : payload_to_header (h + header_size) ≡ h = omega (arith, range) in
      (
        closed,
        realloc-extend (suc (suc fuel)) s (h + header_size) h b new_size (λ z. omega (arith, z))
              some_size at_h (ap (λ (x : Header). x.magic) at)
              (omega (arith, wants, ap (λ (x : Header). x.size) at))
              (ap (λ (x : Header). x.next) at) some_b (ap (λ (x : Header). x.free) at_b ∙ free_d)
            ∙ extend-some (suc (suc fuel)) s (h + header_size) h b (align_up new_size)
                (c.size + header_size + d.size) k larger closed at_h
                (ap (λ (x : Header). x.next) at)
                (ap (λ v. sum_loop (suc (suc fuel)) s.mem b v (align_up new_size))
                    (ap (λ (x : Header). x.size) at)
                  ∙ sum_loop-one s h (before s xs) b k (align_up new_size) c d at at_b some_b b_h
                      k_h k_b free_d wants room small fuel)
                room
                (absorb_loop-one s h (before s xs) b k (align_up new_size) c d at at_b some_b b_h
                  k_h k_b free_d wants room small fuel)
                refl,
        taken.is_heap,
        taken.same_bytes ∙ ap (λ (u : Heap). u.bytes) (sym joined),
      )
