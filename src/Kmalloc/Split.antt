-- ===== src/Kmalloc/Split.antt =====
-- `split_block`: a block that is large enough becomes two, and the list stays a list.
use kernel_c.Prelude.{
  ℕ, ◌+◌, ◌-◌, ◌≤◌, ◌<◌, ◌≡◌, ◌≢◌, refl, ap, ◌∙◌, true, List, [], ◌∷◌, ◌++◌, arith, if◌then◌else◌,
  ltb, add64, le→not_ltb, ==_ne, ltb→lt, Bool-cases, inl, inr,
}
use kernel_c.Heap.{Heap, Header, null, header_size, header_to_payload}
use kernel_c.Heap.Cells.{Cell, cell, span, header, last, Seg, IsHeap}
use kernel_c.Heap.Frame.{Seg-frame, last-bounds}
use kernel_c.Heap.Focus.{address, before, focus-Seg, focus-range, focus-tail, refocus}
use kernel_c.Kmalloc.{split_at, split_block}

-- what splitting makes of the block `c` and the blocks behind it
abbrev pub split_cells : Cell → ℕ → List Cell → List Cell
split_cells c req ys =
    if ltb c.size (req + 48)
    then c ∷ ys
    else cell req c.free ∷ cell (c.size - req - header_size) true ∷ ys

module _ (s : Heap) (h req newh p n : ℕ) (c : Cell) (lt : h < newh) (room : req + 48 ≤ c.size)
    (small : c.size < 18446744073709551616) (at : s.mem h ≡ header s.magic c p n) (ne : n ≢ h)
    (ne' : n ≢ newh) where
  -- the store after a split, read at the block, at the new header, at the next one, and elsewhere
  split_at_self : (split_at s h req newh).mem h ≡ header s.magic (cell req c.free) p newh
  unfolding split_at
  split_at_self = ground arith

  split_at-new :
      (split_at s h req newh).mem newh ≡ header s.magic (cell (c.size - req - header_size) true) h n
  unfolding split_at
  split_at-new = ground arith

  split_at-next : n ≢ null → (split_at s h req newh).mem n ≡ record (s.mem n) { prev = newh }
  unfolding split_at
  split_at-next pos = ground arith

  split_at-other : (q : ℕ) → q ≢ h → q ≢ newh → q ≢ n → (split_at s h req newh).mem q ≡ s.mem q
  unfolding split_at
  split_at-other q x y z = ground arith

module _ (s : Heap) (p a req newh : ℕ) (c : Cell) (at_new : newh ≡ a + (header_size + req))
    (room : req + 48 ≤ c.size) where
  split_at-last :
      0 < a
      → a + span (c ∷ []) < 18446744073709551616
      → Seg s.magic s.mem p a (c ∷ []) null
      → Seg s.magic
          (split_at s a req newh).mem
          p
          a
          (cell req c.free ∷ cell (c.size - req - header_size) true ∷ [])
          null
  split_at-last pos range (at, _) = rw (← at_new) (
    split_at_self s a req newh p 0 c (omega arith) room (omega arith) at (omega arith)
        (omega arith),
    (
      split_at-new s a req newh p 0 c (omega arith) room (omega arith) at (omega arith)
          (omega arith),
      tt,
    ),
  )

  split_at-Seg :
      (y : Cell) (ys : List Cell)
      → 0 < a
      → a + span (c ∷ y ∷ ys) < 18446744073709551616
      → Seg s.magic s.mem p a (c ∷ y ∷ ys) null
      → Seg s.magic
          (split_at s a req newh).mem
          p
          a
          (cell req c.free ∷ cell (c.size - req - header_size) true ∷ y ∷ ys)
          null
  split_at-Seg y ys pos range (at, (at', seg)) =
      let b = a + (header_size + c.size) in
      let e : newh + (header_size + (c.size - req - header_size)) ≡ b = omega arith in
      let lt : a < newh = omega arith in
      let small : c.size < 18446744073709551616 = omega arith in
      let ne : b ≢ a = omega arith in
      let ne' : b ≢ newh = omega arith in
      rw (← at_new, e)
        (
          split_at_self s a req newh p b c lt room small at ne ne',
          (
            split_at-new s a req newh p b c lt room small at ne ne',
            (
              split_at-next s a req newh p b c lt room small at ne ne' (omega arith)
                  ∙ ap {A = Header} (λ h. record h { prev = newh }) at',
              Seg-frame s.magic s.mem (split_at s a req newh).mem _ _ ys null
                  (λ q lo hi.
                    split_at-other s a req newh p b c lt room small at ne ne' q (omega arith)
                      (omega arith) (omega arith))
                  seg,
            ),
          ),
        )

  -- nothing in front of the block changes
  split_at-below :
      (cs : List Cell)
      → 0 < a
      → a + span (c ∷ cs) < 18446744073709551616
      → Seg s.magic s.mem p a (c ∷ cs) null
      → (q : ℕ) → q < a
      → (split_at s a req newh).mem q ≡ s.mem q
  unfolding split_at
  split_at-below [] pos range seg q lt = ground arith
  split_at-below (y ∷ ys) pos range (at, _) q lt =
      split_at-other s a req newh p (a + (header_size + c.size)) c (omega arith) room (omega arith)
        at (omega arith) (omega arith) q (omega arith) (omega arith) (omega arith)

  split_at-tail :
      (cs : List Cell)
      → s.tail ≡ last p a (c ∷ cs)
      → (split_at s a req newh).tail
        ≡ last p a (cell req c.free ∷ cell (c.size - req - header_size) true ∷ cs)
  unfolding split_at
  split_at-tail [] tail = ground arith
  split_at-tail (y ∷ ys) tail =
      let b = a + (header_size + c.size) in
      let e : newh + (header_size + (c.size - req - header_size)) ≡ b = omega arith in
      rw (← at_new, e) (ground (arith, last-bounds a b y ys))

module _ (s : Heap) (a n req : ℕ) (low : 0x100000 ≤ a) (range : a + n < 18446744073709551616)
    (size_is : (s.mem a).size ≡ n) (le : req ≤ n) where
  split_block-small : n < req + 48 → split_block s a req ≡ s
  unfolding split_block
  split_block-small lt = ground arith

  split_block-large :
      req + 48 ≤ n → split_block s a req ≡ split_at s a req (a + (header_size + req))
  unfolding split_block header_to_payload
  split_block-large room =
      let e : add64 (header_to_payload a) req ≡ a + (header_size + req) = omega arith in
      rw (e, le→not_ltb (s.mem a).size (add64 req 48) (omega arith), ==_ne a 0 (omega arith))

split_at-after :
    (s : Heap) (p a req newh : ℕ) (c : Cell) (ys : List Cell)
    → newh ≡ a + (header_size + req)
    → req + 48 ≤ c.size
    → 0 < a
    → a + span (c ∷ ys) < 18446744073709551616
    → Seg s.magic s.mem p a (c ∷ ys) null
    → Seg s.magic
        (split_at s a req newh).mem
        p
        a
        (cell req c.free ∷ cell (c.size - req - header_size) true ∷ ys)
        null
split_at-after s p a req newh c [] e room = split_at-last s p a req newh c e room
split_at-after s p a req newh c (y ∷ ys) e room = split_at-Seg s p a req newh c e room y ys

-- `split_block` cuts a block that has room for `req` bytes, a header and 8 bytes more into a block
-- of `req` bytes and a free one, and leaves a smaller block as it is. Every other block stays.
pub split_block-IsHeap :
    (s : Heap) (xs : List Cell) (c : Cell) (ys : List Cell) (req : ℕ)
    → IsHeap s (xs ++ c ∷ ys)
    → req ≤ c.size
    → IsHeap (split_block s (address s xs) req) (xs ++ split_cells c req ys)
unfolding split_at
split_block-IsHeap s xs c ys req is le = elim (Bool-cases (ltb c.size (req + 48))) [
  | inl small ↦ rw (small, stays (ltb→lt _ _ small)) is
  | inr large ↦ rw (large, cut (ground arith)) (made (ground arith))
]
  where
    a : ℕ
    a = address s xs

    newh : ℕ
    newh = a + (header_size + req)

    seg : Seg s.magic s.mem (before s xs) a (c ∷ ys) null
    seg = focus-Seg s xs c ys is

    range : a + span (c ∷ ys) < 18446744073709551616
    range = focus-range s xs c ys is

    size_is : (s.mem a).size ≡ c.size
    size_is = ap (λ (h : Header). h.size) seg.0

    low : 0x100000 ≤ a
    low = omega (arith, is.above)

    stays : c.size < req + 48 → split_block s a req ≡ s
    stays = split_block-small s a c.size req low (omega (arith, range)) size_is le

    cut : req + 48 ≤ c.size → split_block s a req ≡ split_at s a req newh
    cut = split_block-large s a c.size req low (omega (arith, range)) size_is le

    made :
        req + 48 ≤ c.size
        → IsHeap
            (split_at s a req newh)
            (xs ++ cell req c.free ∷ cell (c.size - req - header_size) true ∷ ys)
    made room =
        refocus s xs c ys is (split_at s a req newh) (cell req c.free)
          (cell (c.size - req - header_size) true ∷ ys) refl refl refl (omega arith)
          (split_at-below s (before s xs) a req newh c refl room ys (omega (arith, low)) range seg)
          (split_at-after s (before s xs) a req newh c ys refl room (omega (arith, low)) range seg)
          (split_at-tail s (before s xs) a req newh c refl room ys (focus-tail s xs c ys is))
