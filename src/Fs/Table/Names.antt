-- ===== src/Fs/Table/Names.antt =====
-- The comparison of names against the names that the table stores, which are cut at 63 characters.
use kernel_c.Prelude.{
  ℕ, zero, suc, ◌≤◌, ◌≡◌, ◌↔◌, refl, arith, true, List, [], ◌∷◌, length, ==_self,
}
use kernel_c.Fs.{take}
use kernel_c.Fs.Table.{nameeq, name_max}

nameeq-prefix :
    (n : ℕ) (name : List ℕ) → (nameeq (take n name) name (suc n) ≡ true) ↔ (length name ≤ n)
unfolding nameeq
nameeq-prefix zero [] = (λ _. omega arith, λ _. refl)
nameeq-prefix zero (c ∷ name) = (λ e. absurd cc, λ le. absurd (omega (arith, le)))
nameeq-prefix (suc n) [] = (λ _. omega arith, λ _. refl)
nameeq-prefix (suc n) (c ∷ name) =
    let rest = nameeq-prefix n name in
    (
      λ e. omega (arith, rest.0 (rw (==_self c) at e)),
      λ le. rw (==_self c) (rest.1 (omega (arith, le))),
    )

-- The name that an entry stores compares equal to the name it was made with exactly if that name has
-- at most 63 characters.
pub nameeq-take :
    (name : List ℕ) → (nameeq (take 63 name) name name_max ≡ true) ↔ (length name ≤ 63)
nameeq-take name = nameeq-prefix 63 name
