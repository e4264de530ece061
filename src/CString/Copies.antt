-- ===== src/CString/Copies.antt =====
-- `memcpy` and `memset`: which bytes they write, and that they write no other.
use kernel_c.Prelude.{
  ℕ, zero, suc, ◌+◌, ◌≤◌, ◌<◌, ◌≡◌, ◌⊎◌, inl, refl, ap, ◌∙◌, arith, u8, if◌then◌else◌, ◌==◌,
}
use kernel_c.CString.{Bytes, poke, memcpy_loop, memcpy, memset_loop, memset}

memcpy_loop-other :
    (k i : ℕ) (m : Bytes) (dst src q : ℕ)
    → (q < dst + i) ⊎ (dst + i + k ≤ q)
    → memcpy_loop k i m dst src q ≡ m q
unfolding memcpy_loop
memcpy_loop-other zero i m dst src q far = refl
memcpy_loop-other (suc k) i m dst src q far =
    memcpy_loop-other k (i + 1) (poke m (dst + i) (m (src + i))) dst src q (ground arith)
    ∙ ground arith

memcpy_loop_lem :
    (k i : ℕ) (m : Bytes) (dst src j : ℕ)
    → (dst + i + k ≤ src + i) ⊎ (src + i + k ≤ dst + i)
    → j < k
    → memcpy_loop k i m dst src (dst + i + j) ≡ m (src + i + j)
unfolding memcpy_loop
memcpy_loop_lem zero i m dst src j apart lt = absurd (omega arith)
memcpy_loop_lem (suc k) i m dst src zero apart lt =
    memcpy_loop-other k (i + 1) (poke m (dst + i) (m (src + i))) dst src (dst + i + 0)
      (inl (omega arith))
    ∙ ground arith
memcpy_loop_lem (suc k) i m dst src (suc j) apart lt =
    let m' : Bytes = poke m (dst + i) (m (src + i)) in
    let rest : memcpy_loop k (i + 1) m' dst src (dst + (i + 1) + j) ≡ m' (src + (i + 1) + j) =
      memcpy_loop_lem k (i + 1) m' dst src j (ground arith) (omega arith) in
    ap (memcpy_loop k (i + 1) m' dst src) (omega arith)
    ∙ rest
    ∙ untouched (src + (i + 1) + j) (src + i + suc j) (omega arith) (ground arith)
  where
    untouched :
        (q r : ℕ)
        → q ≡ r
        → (q < dst + i) ⊎ (dst + i < q)
        → (if q == dst + i then m (src + i) else m q) ≡ m r
    untouched q r e far = ground arith

-- Where the two runs of `n` bytes do not overlap, `memcpy` makes the run at `dst` equal to the run at
-- `src` and changes no other byte.
pub memcpy_lem :
    (m : Bytes) (dst src n : ℕ)
    → (dst + n ≤ src) ⊎ (src + n ≤ dst)
    → ((j : ℕ) → j < n → memcpy m dst src n (dst + j) ≡ m (src + j))
      × ((q : ℕ) → (q < dst) ⊎ (dst + n ≤ q) → memcpy m dst src n q ≡ m q)
unfolding memcpy
memcpy_lem m dst src n apart = (
  λ j lt.
      ap (memcpy_loop n 0 m dst src) (omega arith)
      ∙ memcpy_loop_lem n 0 m dst src j (ground arith) lt
      ∙ ap m (omega arith),
  λ q far. memcpy_loop-other n 0 m dst src q (ground arith),
)

memset_loop-other :
    (k i : ℕ) (m : Bytes) (s c q : ℕ)
    → (q < s + i) ⊎ (s + i + k ≤ q)
    → memset_loop k i m s c q ≡ m q
unfolding memset_loop
memset_loop-other zero i m s c q far = refl
memset_loop-other (suc k) i m s c q far =
    memset_loop-other k (i + 1) (poke m (s + i) (u8 c)) s c q (ground arith) ∙ ground arith

memset_loop_lem :
    (k i : ℕ) (m : Bytes) (s c j : ℕ) → j < k → memset_loop k i m s c (s + i + j) ≡ u8 c
unfolding memset_loop
memset_loop_lem zero i m s c j lt = absurd (omega arith)
memset_loop_lem (suc k) i m s c zero lt =
    memset_loop-other k (i + 1) (poke m (s + i) (u8 c)) s c (s + i + 0) (inl (omega arith))
    ∙ ground arith
memset_loop_lem (suc k) i m s c (suc j) lt =
    ap (memset_loop k (i + 1) (poke m (s + i) (u8 c)) s c) (omega arith)
    ∙ memset_loop_lem k (i + 1) (poke m (s + i) (u8 c)) s c j (omega arith)

-- `memset` makes every byte of the run the low byte of `c` and changes no other byte.
pub memset_lem :
    (m : Bytes) (s c n : ℕ)
    → ((j : ℕ) → j < n → memset m s c n (s + j) ≡ u8 c)
      × ((q : ℕ) → (q < s) ⊎ (s + n ≤ q) → memset m s c n q ≡ m q)
unfolding memset
memset_lem m s c n = (
  λ j lt. ap (memset_loop n 0 m s c) (omega arith) ∙ memset_loop_lem n 0 m s c j lt,
  λ q far. memset_loop-other n 0 m s c q (ground arith),
)
