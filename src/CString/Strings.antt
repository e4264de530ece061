-- ===== src/CString/Strings.antt =====
-- `strlen` and `strcmp` on C strings in memory.
use kernel_c.Prelude.{
  ℕ, zero, suc, ◌+◌, ◌<◌, ◌≡◌, ◌≢◌, ◌↔◌, refl, ap, ◌∙◌, sym, arith, some, List, [], ◌∷◌, length, ℤ,
  pos, ◌==◌, not, ◌&&◌, ==_ne, ==_self, false, ℕ_discrete,
}
use kernel_c.CString.{Bytes, strlen_loop, strlen, strcmp_loop, strcmp, byte_diff}

-- From `s` on, the memory holds the characters of the list and then a NUL.
unfoldable pub IsString : Bytes → ℕ → List ℕ → Type 0
IsString m s [] = m s ≡ 0
IsString m s (c ∷ cs) = (m s ≡ c) × (c ≢ 0) × IsString m (s + 1) cs

strlen_loop_lem :
    (k : ℕ) (m : Bytes) (s len : ℕ) (cs : List ℕ)
    → IsString m s cs
    → length cs < k
    → strlen_loop k m s len ≡ some (len + length cs)
unfolding strlen_loop IsString
strlen_loop_lem zero m s len cs is room = absurd (omega arith)
strlen_loop_lem (suc k) m s len [] is room = rw is (ap some (omega arith))
strlen_loop_lem (suc k) m s len (c ∷ cs) is room =
    let rest = strlen_loop_lem k m (s + 1) (len + 1) cs is.2 (omega arith) in
    rw (==_ne (m s) 0 (λ e. is.1 (sym is.0 ∙ e)), rest) (ap some (omega arith))

-- `strlen` of a string returns the number of its characters, with one more round of fuel than that.
pub strlen_lem :
    (fuel : ℕ) (m : Bytes) (s : ℕ) (cs : List ℕ)
    → IsString m s cs
    → length cs < fuel
    → strlen fuel m s ≡ some (length cs)
unfolding strlen
strlen_lem fuel m s cs is room = strlen_loop_lem fuel m s 0 cs is room ∙ ap some (omega arith)

byte_diff_zero : (a b : ℕ) → (byte_diff a b ≡ pos 0) ↔ (a ≡ b)
byte_diff_zero a b = (ground arith, ground arith)

stops :
    (k : ℕ) (m : Bytes) (a b : ℕ) (p q : ℕ)
    → m a ≡ p
    → m b ≡ q
    → (not (p == 0) && (p == q)) ≡ false
    → strcmp_loop (suc k) m a b ≡ some (byte_diff p q)
unfolding strcmp_loop
stops k m a b p q ea eb stop = rw (ea, eb, stop) refl

goes_on :
    (k : ℕ) (m : Bytes) (a b : ℕ) (p : ℕ)
    → m a ≡ p
    → m b ≡ p
    → p ≢ 0
    → strcmp_loop (suc k) m a b ≡ strcmp_loop k m (a + 1) (b + 1)
unfolding strcmp_loop
goes_on k m a b p ea eb ne = rw (ea, eb, ==_ne p 0 ne, ==_self p) refl

strcmp_loop_lem :
    (k : ℕ) (m : Bytes) (a b : ℕ) (xs ys : List ℕ)
    → IsString m a xs
    → IsString m b ys
    → length xs < k
    → (d : ℤ) × (strcmp_loop k m a b ≡ some d) × ((d ≡ pos 0) ↔ (xs ≡ ys))
unfolding IsString
strcmp_loop_lem zero m a b xs ys is_a is_b room = absurd (omega arith)
strcmp_loop_lem (suc k) m a b [] [] is_a is_b room =
    (pos 0, stops k m a b 0 0 is_a is_b refl, (λ _. refl, λ _. refl))
strcmp_loop_lem (suc k) m a b [] (d ∷ ys) is_a is_b room = (
  byte_diff 0 d,
  stops k m a b 0 d is_a is_b.0 refl,
  (λ e. absurd (is_b.1 (sym ((byte_diff_zero 0 d).0 e))), λ e. absurd cc),
)
strcmp_loop_lem (suc k) m a b (c ∷ xs) [] is_a is_b room = (
  byte_diff c 0,
  stops k m a b c 0 is_a.0 is_b (ground arith),
  (λ e. absurd (is_a.1 ((byte_diff_zero c 0).0 e)), λ e. absurd cc),
)
strcmp_loop_lem (suc k) m a b (c ∷ xs) (d ∷ ys) is_a is_b room = elim (ℕ_discrete c d) [
  | yes e ↦
      let (r, ran, iff) = strcmp_loop_lem k m (a + 1) (b + 1) xs ys is_a.2 is_b.2 (omega arith) in
      (
        r,
        goes_on k m a b c is_a.0 (is_b.0 ∙ sym e) is_a.1 ∙ ran,
        (λ z. let rest : xs ≡ ys = iff.0 z in cc, λ z. iff.1 cc),
      )
  | no ne ↦ (
    byte_diff c d,
    stops k m a b c d is_a.0 is_b.0 (ground arith),
    (λ z. absurd (ne ((byte_diff_zero c d).0 z)), λ z. absurd (ne cc)),
  )
]

-- `strcmp` of two strings returns, with a round of fuel more than the first has characters, and its
-- result is 0 exactly if the strings have the same characters.
pub strcmp_lem :
    (fuel : ℕ) (m : Bytes) (a b : ℕ) (xs ys : List ℕ)
    → IsString m a xs
    → IsString m b ys
    → length xs < fuel
    → (d : ℤ) × (strcmp fuel m a b ≡ some d) × ((d ≡ pos 0) ↔ (xs ≡ ys))
unfolding strcmp
strcmp_lem fuel m a b xs ys is_a is_b room = strcmp_loop_lem fuel m a b xs ys is_a is_b room
