-- ===== src/CString/Tests.antt =====
-- The string functions on a small memory.
use kernel_c.Prelude.{
  ℕ, ◌+◌, ◌≤◌, ◌<◌, ◌≡◌, ◌↔◌, ◌⊎◌, inr, refl, some, List, [], ◌∷◌, arith, ℤ, pos, u8, if◌then◌else◌,
  ◌==◌,
}
use kernel_c.CString.{Bytes, memcpy, memset, strlen, strcmp}
use kernel_c.CString.Strings.{IsString, strlen_lem, strcmp_lem}
use kernel_c.CString.Copies.{memcpy_lem, memset_lem}

-- "hi" at 100 and "ho" at 200
abbrev words : Bytes
words a =
    if a == 100
    then 104
    else if a == 101
    then 105
    else if a == 200
    then 104
    else if a == 201
    then 111
    else 0

hi_IsString : IsString words 100 (104 ∷ 105 ∷ [])
unfolding IsString
hi_IsString = (refl, (λ e. omega (arith, e)), (refl, (λ e. omega (arith, e)), refl))

ho_IsString : IsString words 200 (104 ∷ 111 ∷ [])
unfolding IsString
ho_IsString = (refl, (λ e. omega (arith, e)), (refl, (λ e. omega (arith, e)), refl))

strlen_hi : strlen 3 words 100 ≡ some 2
strlen_hi = strlen_lem 3 words 100 (104 ∷ 105 ∷ []) hi_IsString (omega arith)

strcmp_lem_run :
    (d : ℤ) × (strcmp 3 words 100 200 ≡ some d)
    × ((d ≡ pos 0) ↔ (◌≡◌ {A = List ℕ} (104 ∷ 105 ∷ []) (104 ∷ 111 ∷ [])))
strcmp_lem_run =
    strcmp_lem 3 words 100 200 (104 ∷ 105 ∷ []) (104 ∷ 111 ∷ []) hi_IsString ho_IsString
      (omega arith)

memcpy_lem_run :
    ((j : ℕ) → j < 3 → memcpy words 200 100 3 (200 + j) ≡ words (100 + j))
    × ((q : ℕ) → (q < 200) ⊎ (203 ≤ q) → memcpy words 200 100 3 q ≡ words q)
memcpy_lem_run = memcpy_lem words 200 100 3 (inr (omega arith))

memset_spaces :
    ((j : ℕ) → j < 4 → memset words 100 32 4 (100 + j) ≡ u8 32)
    × ((q : ℕ) → (q < 100) ⊎ (104 ≤ q) → memset words 100 32 4 q ≡ words q)
memset_spaces = memset_lem words 100 32 4
