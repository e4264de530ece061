-- ===== src/Prelude/Lists.antt =====
-- C arrays as lists with native lengths and indices. A write out of range changes nothing: each
-- component proves that its writes are in range.
use Prim.Native.Nat.{ℕ, zero, suc, ◌+◌, ◌<◌}
use mathlib.Core.Path.{◌≡◌, refl, ap, sym}
use mathlib.Core.Logic.{◌≢◌, ◌↔◌}
use mathlib.Core.List.{List, [], ◌∷◌, ◌++◌}
use native.Mathlib.Omega.{arith}

module _ {ℓ} {A : Type ℓ} where
  abbrev pub length : List A → ℕ
  length [] = 0
  length (x ∷ xs) = suc (length xs)

  abbrev pub get_or : List A → ℕ → A → A
  get_or [] i d = d
  get_or (x ∷ xs) zero d = x
  get_or (x ∷ xs) (suc i) d = get_or xs i d

  abbrev pub set : List A → ℕ → A → List A
  set [] i v = []
  set (x ∷ xs) zero v = v ∷ xs
  set (x ∷ xs) (suc i) v = x ∷ set xs i v

  abbrev pub replicate : ℕ → A → List A
  replicate zero a = []
  replicate (suc n) a = a ∷ replicate n a

module _ {ℓ} {A : Type ℓ} where
  pub length-append : (xs ys : List A) → length (xs ++ ys) ≡ length xs + length ys
  length-append [] ys = omega arith
  length-append (x ∷ xs) ys = omega (arith, length-append xs ys)

  pub length-set : (xs : List A) (i : ℕ) (v : A) → length (set xs i v) ≡ length xs
  length-set [] i v = refl
  length-set (x ∷ xs) zero v = refl
  length-set (x ∷ xs) (suc i) v = ap suc (length-set xs i v)

  pub length-replicate : (n : ℕ) (a : A) → length (replicate n a) ≡ n
  length-replicate zero a = refl
  length-replicate (suc n) a = ap suc (length-replicate n a)

  pub get_or-set_self :
      (xs : List A) (i : ℕ) (v d : A) → i < length xs → get_or (set xs i v) i d ≡ v
  get_or-set_self [] i v d h = absurd (omega arith)
  get_or-set_self (x ∷ xs) zero v d h = refl
  get_or-set_self (x ∷ xs) (suc i) v d h = get_or-set_self xs i v d (omega arith)

  pub get_or-set_ne :
      (xs : List A) (i j : ℕ) (v d : A) → i ≢ j → get_or (set xs i v) j d ≡ get_or xs j d
  get_or-set_ne [] i j v d h = refl
  get_or-set_ne (x ∷ xs) zero zero v d h = absurd (h refl)
  get_or-set_ne (x ∷ xs) zero (suc j) v d h = refl
  get_or-set_ne (x ∷ xs) (suc i) zero v d h = refl
  get_or-set_ne (x ∷ xs) (suc i) (suc j) v d h = get_or-set_ne xs i j v d (λ e. h (ap suc e))

-- Lists of addresses or indices in which nothing comes twice.
abbrev pub Apart : ℕ → List ℕ → Type 0
Apart c [] = Unit
Apart c (d ∷ ds) = (c ≢ d) × Apart c ds

abbrev pub AllApart : List ℕ → Type 0
AllApart [] = Unit
AllApart (c ∷ cs) = Apart c cs × AllApart cs

-- no element of the one list is in the other
abbrev pub Disjoint : List ℕ → List ℕ → Type 0
Disjoint [] ds = Unit
Disjoint (c ∷ cs) ds = Apart c ds × Disjoint cs ds

pub Apart-append : (c : ℕ) (xs ys : List ℕ) → Apart c (xs ++ ys) ↔ (Apart c xs × Apart c ys)
Apart-append c [] ys = (λ p. (tt, p), λ p. p.1)
Apart-append c (x ∷ xs) ys =
    let ih = Apart-append c xs ys in
    (λ p. ((p.0, (ih.0 p.1).0), (ih.0 p.1).1), λ p. (p.0.0, ih.1 (p.0.1, p.1)))

pub AllApart-append :
    (xs ys : List ℕ) → AllApart (xs ++ ys) ↔ (AllApart xs × AllApart ys × Disjoint xs ys)
AllApart-append [] ys = (λ p. (tt, p, tt), λ p. p.1)
AllApart-append (x ∷ xs) ys =
    let ih = AllApart-append xs ys in
    let at = Apart-append x xs ys in
    (
      λ p. (((at.0 p.0).0, (ih.0 p.1).0), (ih.0 p.1).1, ((at.0 p.0).1, (ih.0 p.1).2)),
      λ p. (at.1 (p.0.0, p.2.0), ih.1 (p.0.1, p.1, p.2.1)),
    )

Disjoint-nil : (xs : List ℕ) → Disjoint xs []
Disjoint-nil [] = tt
Disjoint-nil (x ∷ xs) = (tt, Disjoint-nil xs)

Disjoint-cons :
    (xs : List ℕ) (d : ℕ) (ds : List ℕ) → Apart d xs → Disjoint xs ds → Disjoint xs (d ∷ ds)
Disjoint-cons [] d ds p q = tt
Disjoint-cons (x ∷ xs) d ds p q = ((λ e. p.0 (sym e), q.0), Disjoint-cons xs d ds p.1 q.1)

pub Disjoint-sym : (xs ys : List ℕ) → Disjoint xs ys → Disjoint ys xs
Disjoint-sym [] ys p = Disjoint-nil ys
Disjoint-sym (x ∷ xs) ys p = Disjoint-cons ys x xs p.0 (Disjoint-sym xs ys p.1)

pub AllApart-swap : (xs ys : List ℕ) → AllApart (xs ++ ys) → AllApart (ys ++ xs)
AllApart-swap xs ys p =
    let (p_xs, p_ys, cross) = (AllApart-append xs ys).0 p in
    (AllApart-append ys xs).1 (p_ys, p_xs, Disjoint-sym xs ys cross)
