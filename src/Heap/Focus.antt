-- ===== src/Heap/Focus.antt =====
-- Work on one block of a heap: its suffix is taken out, changed, and put back.
use kernel_c.Prelude.{ℕ, ◌+◌, ◌<◌, ◌≡◌, refl, sym, ◌∙◌, List, [], ◌∷◌, ◌++◌, arith}
use kernel_c.Heap.{Heap, null}
use kernel_c.Heap.Cells.{Cell, span, span-append, first, last, Seg, IsHeap}
use kernel_c.Heap.Frame.{last-append, Seg-frame, Seg-cut, Seg-paste}

-- the address of the block behind `xs`, and of the block before it
abbrev pub address : Heap → List Cell → ℕ
address s xs = s.heap_start + span xs

abbrev pub before : Heap → List Cell → ℕ
before s xs = last null s.heap_start xs

first-nonempty :
    (a : ℕ) (xs : List Cell) (c d : Cell) (cs ds : List Cell) (stop : ℕ)
    → first a (xs ++ c ∷ cs) stop ≡ first a (xs ++ d ∷ ds) stop
first-nonempty a [] c d cs ds stop = refl
first-nonempty a (x ∷ xs) c d cs ds stop = refl

module _ (s : Heap) (xs : List Cell) (c : Cell) (cs : List Cell)
    (is : IsHeap s (xs ++ c ∷ cs)) where
  pub focus-Seg : Seg s.magic s.mem (before s xs) (address s xs) (c ∷ cs) null
  focus-Seg = (Seg-cut s.magic s.mem null s.heap_start xs (c ∷ cs) null is.chain).1

  pub focus-range : address s xs + span (c ∷ cs) < 18446744073709551616
  focus-range = omega (arith, is.in_range, span-append xs (c ∷ cs))

  pub focus-tail : s.tail ≡ last (before s xs) (address s xs) (c ∷ cs)
  focus-tail = is.tail_is ∙ last-append null s.heap_start xs (c ∷ cs)

  -- A heap whose blocks from `c` on were replaced by others that take up the same room, and where
  -- nothing before them has changed.
  pub refocus :
      (t : Heap) (d : Cell) (ds : List Cell)
      → t.magic ≡ s.magic
      → t.heap_start ≡ s.heap_start
      → t.head ≡ s.head
      → span (d ∷ ds) ≡ span (c ∷ cs)
      → ((q : ℕ) → q < address s xs → t.mem q ≡ s.mem q)
      → Seg s.magic t.mem (before s xs) (address s xs) (d ∷ ds) null
      → t.tail ≡ last (before s xs) (address s xs) (d ∷ ds)
      → IsHeap t (xs ++ d ∷ ds)
  refocus t d ds same_magic same_start same_head room below seg tail = record {
    above = rw same_start is.above;
    in_range =
        rw same_start
          (omega (arith, is.in_range, span-append xs (c ∷ cs), span-append xs (d ∷ ds)));
    chain =
        rw (same_magic, same_start)
          (Seg-paste s.magic t.mem null s.heap_start xs (d ∷ ds) null
            (Seg-frame s.magic s.mem t.mem null s.heap_start xs _ (λ q lo hi. below q hi)
              (Seg-cut s.magic s.mem null s.heap_start xs (c ∷ cs) null is.chain).0)
            seg);
    head_is =
        rw same_start (same_head ∙ is.head_is ∙ first-nonempty s.heap_start xs c d cs ds null);
    tail_is = rw same_start (tail ∙ sym (last-append null s.heap_start xs (d ∷ ds)));
  }
