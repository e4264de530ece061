-- ===== src/Heap/Mark.antt =====
-- Marking a block as free or used, `h->free = b`, changes that block and no other.
use kernel_c.Prelude.{ℕ, ◌<◌, ◌≡◌, refl, ◌⊎◌, inl, inr, Bool, List, ◌∷◌, ◌++◌, arith}
use kernel_c.Heap.{Store, Heap, null, set_free}
use kernel_c.Heap.Cells.{Cell, cell, header, IsHeap}
use kernel_c.Heap.Frame.{Seg-frame}
use kernel_c.Heap.Focus.{address, focus-Seg, focus-tail, refocus}

abbrev pub mark : Heap → ℕ → Bool → Heap
mark s h b = record s { mem = set_free s.mem h b }

mark-at :
    (g : ℕ) (m : Store) (a p n : ℕ) (c : Cell) (b : Bool)
    → m a ≡ header g c p n
    → set_free m a b a ≡ header g (cell c.size b) p n
mark-at g m a p n c b at = ground arith

mark-other : (m : Store) (a q : ℕ) (b : Bool) → q < a ⊎ a < q → set_free m a b q ≡ m q
mark-other m a q b far = ground arith

pub mark-IsHeap :
    (s : Heap) (xs : List Cell) (c : Cell) (ys : List Cell) (b : Bool)
    → IsHeap s (xs ++ c ∷ ys)
    → IsHeap (mark s (address s xs) b) (xs ++ cell c.size b ∷ ys)
mark-IsHeap s xs c ys b is =
    refocus s xs c ys is (mark s (address s xs) b) (cell c.size b) ys refl refl refl refl
      (λ q lt. mark-other s.mem (address s xs) q b (inl lt))
      (
        mark-at s.magic s.mem (address s xs) _ _ c b (focus-Seg s xs c ys is).0,
        Seg-frame s.magic s.mem _ _ _ ys null
            (λ q lo hi. mark-other s.mem (address s xs) q b (inr (omega arith)))
            (focus-Seg s xs c ys is).1,
      )
      (focus-tail s xs c ys is)
