-- ===== src/Kmalloc/Merge.antt =====
-- The two halves of `coalesce`: a block takes in the free block behind it, and is taken in by the
-- free block before it. Both leave a well-formed list.
use kernel_c.Prelude.{
  ℕ, ◌+◌, ◌<◌, ◌≡◌, ◌≢◌, ap, ◌∙◌, true, false, List, [], ◌∷◌, arith, if◌then◌else◌, ==_ne, ◌==◌,
}
use kernel_c.Heap.{Heap, Header, null, header_size}
use kernel_c.Heap.Cells.{Cell, cell, span, header, last, Seg}
use kernel_c.Heap.Frame.{Seg-frame, last-bounds}
use kernel_c.Heap.Focus.{before}
use kernel_c.Kmalloc.{absorb_next, absorb_into_prev}

-- what a block and those behind it become when it takes in a free next block
abbrev pub absorb_cells : Cell → List Cell → List Cell
absorb_cells c [] = c ∷ []
absorb_cells c (d ∷ ds) =
    if d.free then cell (c.size + header_size + d.size) c.free ∷ ds else c ∷ d ∷ ds

module _ (s : Heap) (h p n k : ℕ) (c d : Cell) (ne : n ≢ null) (ne_h : n ≢ h)
    (at : s.mem h ≡ header s.magic c p n) (at_n : s.mem n ≡ header s.magic d h k) where
  pub absorb_next-used : d.free ≡ false → absorb_next s h ≡ s
  unfolding absorb_next
  absorb_next-used used = ground arith

  pub absorb_next-tail :
      d.free ≡ true → (absorb_next s h).tail ≡ (if s.tail == n then h else s.tail)
  unfolding absorb_next
  absorb_next-tail free = ground arith

  -- being taken in by the block before is the same as that block's taking in the next
  pub absorb_into_prev-absorb_next :
      d.free ≡ true → c.free ≡ true → h ≢ null → absorb_into_prev s n ≡ absorb_next s h
  unfolding absorb_next absorb_into_prev
  absorb_into_prev-absorb_next free before pos = ground arith

  module _ (free : d.free ≡ true) (k_h : k ≢ h) (k_n : k ≢ n) where
    absorb_next_self :
        c.size + header_size + d.size < 18446744073709551616
        → (absorb_next s h).mem h ≡ header s.magic (cell (c.size + header_size + d.size) c.free) p k
    unfolding absorb_next
    absorb_next_self small = ground arith

    absorb_next-next : k ≢ null → (absorb_next s h).mem k ≡ record (s.mem k) { prev = h }
    unfolding absorb_next
    absorb_next-next pos = ground arith

    absorb_next-other : (q : ℕ) → q ≢ h → q ≢ k → (absorb_next s h).mem q ≡ s.mem q
    unfolding absorb_next
    absorb_next-other q x y = ground arith

-- The suffix that starts at the block, for a free next block, by what lies behind that.
module _ (s : Heap) (p a : ℕ) (c d : Cell) (low : 0 < a) (free : d.free ≡ true) where
  absorb_next-last :
      a + span (c ∷ d ∷ []) < 18446744073709551616
      → Seg s.magic s.mem p a (c ∷ d ∷ []) null
      → Seg s.magic
          (absorb_next s a).mem
          p
          a
          (cell (c.size + header_size + d.size) c.free ∷ [])
          null
  absorb_next-last range (at, (at_n, _)) = (
    absorb_next_self s a p (a + (header_size + c.size)) 0 c d (omega arith) (omega arith) at at_n
        free (omega arith) (omega arith) (omega arith),
    tt,
  )

  absorb_next-Seg :
      (e : Cell) (es : List Cell)
      → a + span (c ∷ d ∷ e ∷ es) < 18446744073709551616
      → Seg s.magic s.mem p a (c ∷ d ∷ e ∷ es) null
      → Seg s.magic
          (absorb_next s a).mem
          p
          a
          (cell (c.size + header_size + d.size) c.free ∷ e ∷ es)
          null
  absorb_next-Seg e es range (at, (at_n, (at_k, seg))) =
      let n = a + (header_size + c.size) in
      let k = n + (header_size + d.size) in
      let end : a + (header_size + (c.size + header_size + d.size)) ≡ k = omega arith in
      let ne : n ≢ null = omega arith in
      let ne_h : n ≢ a = omega arith in
      let k_h : k ≢ a = omega arith in
      let k_n : k ≢ n = omega arith in
      rw end (
        absorb_next_self s a p n k c d ne ne_h at at_n free k_h k_n (omega arith),
        (
          absorb_next-next s a p n k c d ne ne_h at at_n free k_h k_n (omega arith)
              ∙ ap {A = Header} (λ h. record h { prev = a }) at_k,
          Seg-frame s.magic s.mem (absorb_next s a).mem _ _ es null
              (λ q lo hi.
                absorb_next-other s a p n k c d ne ne_h at at_n free k_h k_n q (omega arith)
                  (omega arith))
              seg,
        ),
      )

  pub absorb_next-after :
      (ds : List Cell)
      → a + span (c ∷ d ∷ ds) < 18446744073709551616
      → Seg s.magic s.mem p a (c ∷ d ∷ ds) null
      → Seg s.magic
          (absorb_next s a).mem
          p
          a
          (cell (c.size + header_size + d.size) c.free ∷ ds)
          null
  absorb_next-after [] = absorb_next-last
  absorb_next-after (e ∷ es) = absorb_next-Seg e es

  pub absorb_next-below :
      (ds : List Cell)
      → a + span (c ∷ d ∷ ds) < 18446744073709551616
      → Seg s.magic s.mem p a (c ∷ d ∷ ds) null
      → (q : ℕ) → q < a
      → (absorb_next s a).mem q ≡ s.mem q
  unfolding absorb_next
  absorb_next-below [] range (at, (at_n, _)) q lt = ground arith
  absorb_next-below (e ∷ es) range (at, (at_n, _)) q lt =
      let n = a + (header_size + c.size) in
      absorb_next-other s a p n (n + (header_size + d.size)) c d (omega arith) (omega arith) at at_n
        free (omega arith) (omega arith) q (omega arith) (omega arith)

  pub absorb_next-last_is :
      (ds : List Cell)
      → s.tail ≡ last p a (c ∷ d ∷ ds)
      → (if s.tail == a + (header_size + c.size) then a else s.tail)
        ≡ last p a (cell (c.size + header_size + d.size) c.free ∷ ds)
  absorb_next-last_is [] tail = ground arith
  absorb_next-last_is (e ∷ es) tail =
      let n = a + (header_size + c.size) in
      let k = n + (header_size + d.size) in
      let end : a + (header_size + (c.size + header_size + d.size)) ≡ k = omega arith in
      let far : s.tail ≢ n = omega (arith, tail, last-bounds n k e es) in
      rw (end, ==_ne s.tail n far) tail
