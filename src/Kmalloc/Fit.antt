-- ===== src/Kmalloc/Fit.antt =====
-- `find_fit`: the search along the list is the search for the first free block that is large enough.
use kernel_c.Prelude.{
  ℕ, zero, suc, ◌+◌, ◌≤◌, ◌<◌, ◌≡◌, ◌≢◌, ◌↔◌, refl, ◌∙◌, ap, Bool, true, false, ◌&&◌, some, List,
  [], ◌∷◌, ◌++◌, arith, length, if◌then◌else◌, leb, Bool-cases, inl, inr, ==_ne,
}
use kernel_c.Heap.{Store, Heap, null, header_size}
use kernel_c.Heap.Cells.{Cell, span, first, Seg, IsHeap}
use kernel_c.Kmalloc.{find_fit_loop, find_fit}

-- what `find_fit` looks for
abbrev pub fits : ℕ → Cell → Bool
fits n c = c.free && leb n c.size

-- the first block that fits, with those before and behind it
pub data Fit : Type 0 where
  none_fits : Fit
  found : List Cell → Cell → List Cell → Fit

abbrev pub found_behind : Cell → Fit → Fit
found_behind c none_fits = none_fits
found_behind c (found xs d ys) = found (c ∷ xs) d ys

unfoldable pub first_fit : ℕ → List Cell → Fit
first_fit n [] = none_fits
first_fit n (c ∷ cs) = if fits n c then found [] c cs else found_behind c (first_fit n cs)

-- the address that stands for a search result, in a heap that starts at `a`
abbrev pub fit_address : ℕ → Fit → ℕ
fit_address a none_fits = null
fit_address a (found xs d ys) = a + span xs

fit_address-found_behind :
    (a : ℕ) (c : Cell) (f : Fit)
    → fit_address (a + (header_size + c.size)) f ≡ fit_address a (found_behind c f)
fit_address-found_behind a c none_fits = refl
fit_address-found_behind a c (found xs d ys) = omega arith

find_fit_loop-first_fit :
    (k g : ℕ) (m : Store) (p a : ℕ) (cs : List Cell) (n : ℕ)
    → length cs < k
    → a ≢ 0
    → Seg g m p a cs null
    → find_fit_loop k m (first a cs null) n ≡ some (fit_address a (first_fit n cs))
unfolding find_fit_loop first_fit
find_fit_loop-first_fit zero g m p a cs n fuel pos seg = absurd (omega arith)
find_fit_loop-first_fit (suc k) g m p a [] n fuel pos seg = refl
find_fit_loop-first_fit (suc k) g m p a (c ∷ cs) n fuel pos (at, seg) =
    rw (==_ne a 0 pos, at)
      (elim (Bool-cases (fits n c)) [
        | inl hit ↦ rw hit (ap some (omega arith))
        | inr miss ↦ rw miss (
            find_fit_loop-first_fit k g m a (a + (header_size + c.size)) cs n (omega arith)
              (omega arith) seg
            ∙ ap some (fit_address-found_behind a c (first_fit n cs)))
      ])

-- The search ends, and finds the address of the first free block with at least `n` bytes, or `NULL`
-- if there is none.
pub find_fit-first_fit :
    (fuel : ℕ) (s : Heap) (cells : List Cell) (n : ℕ)
    → IsHeap s cells
    → length cells < fuel
    → find_fit fuel s n ≡ some (fit_address s.heap_start (first_fit n cells))
unfolding find_fit
find_fit-first_fit fuel s cells n is enough = rw is.head_is (
    find_fit_loop-first_fit fuel s.magic s.mem null s.heap_start cells n enough
      (omega (arith, is.above)) is.chain)

abbrev pub AllMiss : ℕ → List Cell → Type 0
AllMiss n [] = Unit
AllMiss n (c ∷ cs) = (fits n c ≡ false) × AllMiss n cs

-- What a search says of the blocks.
pub data IsFirstFit (n : ℕ) (cells : List Cell) : Fit → Type 0 where
  misses : AllMiss n cells → IsFirstFit n cells none_fits
  hits :
      {xs : List Cell} {c : Cell} {ys : List Cell}
      → cells ≡ xs ++ c ∷ ys
      → AllMiss n xs
      → c.free ≡ true
      → n ≤ c.size
      → IsFirstFit n cells (found xs c ys)

IsFirstFit-behind :
    (n : ℕ) (c : Cell) (cs : List Cell) (f : Fit)
    → fits n c ≡ false
    → IsFirstFit n cs f
    → IsFirstFit n (c ∷ cs) (found_behind c f)
IsFirstFit-behind n c cs f miss (misses all) = misses (miss, all)
IsFirstFit-behind n c cs f miss (hits parts all free large) =
    hits (ap (◌∷◌ c) parts) (miss, all) free large

-- The block found is free, has at least `n` bytes, and no block before it has both.
pub first_fit-IsFirstFit : (n : ℕ) (cells : List Cell) → IsFirstFit n cells (first_fit n cells)
unfolding first_fit
first_fit-IsFirstFit n [] = misses tt
first_fit-IsFirstFit n (c ∷ cs) = elim (Bool-cases (fits n c)) [
  | inl hit ↦ rw hit (hits refl tt (ground arith) (ground arith))
  | inr miss ↦ rw miss (IsFirstFit-behind n c cs _ miss (first_fit-IsFirstFit n cs))
]

hits_parts :
    {n : ℕ} {cells xs : List Cell} {c : Cell} {ys : List Cell}
    → IsFirstFit n cells (found xs c ys)
    → (cells ≡ xs ++ c ∷ ys) × (n ≤ c.size) × (c.free ≡ true)
hits_parts (hits parts all free large) = (parts, large, free)

pub found_parts :
    (n : ℕ) (cells xs : List Cell) (c : Cell) (ys : List Cell)
    → first_fit n cells ≡ found xs c ys
    → (cells ≡ xs ++ c ∷ ys) × (n ≤ c.size) × (c.free ≡ true)
found_parts n cells xs c ys e = hits_parts (rw e at (first_fit-IsFirstFit n cells))

-- The search fails exactly if no block fits.
pub first_fit-AllMiss :
    (n : ℕ) (cells : List Cell) → (first_fit n cells ≡ none_fits) ↔ AllMiss n cells
unfolding first_fit
first_fit-AllMiss n [] = (λ _. tt, λ _. refl)
first_fit-AllMiss n (c ∷ cs) = elim (Bool-cases (fits n c)) [
  | inl hit ↦ (λ e. cc, λ m. cc)
  | inr miss ↦
      let (there, back) = first_fit-AllMiss n cs in
      (λ e. (miss, there (behind _ (rw miss at e))), λ m. rw (miss, back m.1))
]
  where
    behind : (f : Fit) → found_behind c f ≡ none_fits → f ≡ none_fits
    behind none_fits e = refl
    behind (found xs d ys) e = cc
