-- ===== src/Heap/Frame.antt =====
-- Cutting a linked segment in two, joining two, and what a write elsewhere leaves alone.
use kernel_c.Prelude.{ℕ, ◌+◌, ◌≤◌, ◌<◌, ◌≡◌, refl, ◌∙◌, ap, List, [], ◌∷◌, ◌++◌, arith}
use kernel_c.Heap.{Store, header_size}
use kernel_c.Heap.Cells.{Cell, span, first, last, Seg}

pub first-append :
    (a : ℕ) (xs ys : List Cell) (stop : ℕ)
    → first a (xs ++ ys) stop ≡ first a xs (first (a + span xs) ys stop)
first-append a [] [] stop = refl
first-append a [] (y ∷ ys) stop = omega arith
first-append a (x ∷ xs) ys stop = refl

pub last-append :
    (p a : ℕ) (xs ys : List Cell) → last p a (xs ++ ys) ≡ last (last p a xs) (a + span xs) ys
last-append p a [] ys = ap (λ b. last p b ys) (omega arith)
last-append p a (x ∷ xs) ys =
    last-append a (a + (header_size + x.size)) xs ys
    ∙ ap (λ b. last (last a (a + (header_size + x.size)) xs) b ys) (omega arith)

-- the last block of a list lies in it
pub last-bounds :
    (p a : ℕ) (c : Cell) (cs : List Cell)
    → (a ≤ last p a (c ∷ cs)) × (last p a (c ∷ cs) < a + span (c ∷ cs))
last-bounds p a c [] = omega arith
last-bounds p a c (d ∷ ds) = omega (arith, last-bounds a (a + (header_size + c.size)) d ds)

-- a segment depends on the store at its own addresses only
pub Seg-frame :
    (g : ℕ) (m n : Store) (p a : ℕ) (cs : List Cell) (stop : ℕ)
    → ((q : ℕ) → a ≤ q → q < a + span cs → n q ≡ m q)
    → Seg g m p a cs stop
    → Seg g n p a cs stop
Seg-frame g m n p a [] stop same s = tt
Seg-frame g m n p a (c ∷ cs) stop same s = (
  same a (omega arith) (omega arith) ∙ s.0,
  Seg-frame g m n a (a + (header_size + c.size)) cs stop
      (λ q lo hi. same q (omega arith) (omega arith)) s.1,
)

pub Seg-cut :
    (g : ℕ) (m : Store) (p a : ℕ) (xs ys : List Cell) (stop : ℕ)
    → Seg g m p a (xs ++ ys) stop
    → Seg g m p a xs (first (a + span xs) ys stop) × Seg g m (last p a xs) (a + span xs) ys stop
Seg-cut g m p a [] ys stop s = let e : a + 0 ≡ a = omega arith in rw e (tt, s)
Seg-cut g m p a (x ∷ xs) ys stop s =
    let b = a + (header_size + x.size) in
    let e : a + (header_size + x.size + span xs) ≡ b + span xs = omega arith in
    let rest = Seg-cut g m a b xs ys stop s.1 in
    rw e ((rw (first-append b xs ys stop) at s.0, rest.0), rest.1)

pub Seg-paste :
    (g : ℕ) (m : Store) (p a : ℕ) (xs ys : List Cell) (stop : ℕ)
    → Seg g m p a xs (first (a + span xs) ys stop)
    → Seg g m (last p a xs) (a + span xs) ys stop
    → Seg g m p a (xs ++ ys) stop
Seg-paste g m p a [] ys stop s t = let e : a + 0 ≡ a = omega arith in rw e at t
Seg-paste g m p a (x ∷ xs) ys stop s t =
    let b = a + (header_size + x.size) in
    let e : a + (header_size + x.size + span xs) ≡ b + span xs = omega arith in
    rw (first-append b xs ys stop, ← e)
      (s.0, Seg-paste g m a b xs ys stop (rw e at s.1) (rw e at t))
