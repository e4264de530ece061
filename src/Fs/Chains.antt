-- ===== src/Fs/Chains.antt =====
-- Finding a free cluster, and freeing a chain of clusters.
use kernel_c.Prelude.{
  Apart, ℕ, zero, suc, ◌+◌, ◌≤◌, ◌<◌, ◌≡◌, ◌≢◌, ◌⊎◌, inl, inr, refl, arith, false, some, List, [],
  ◌∷◌, length, if◌then◌else◌, ◌==◌, leb, ltb, Bool-cases, ==_ne, ◌||◌, ℕ_discrete,
}
use kernel_c.Fs.{
  Fat, fat_entries, end_of_chain, set_fat, alloc_loop, take_cluster, alloc_cluster, free_loop,
  free_cluster_chain,
}

alloc_loop_lem :
    (k : ℕ) (fat : Fat) (i : ℕ)
    → ((alloc_loop k fat i ≡ 0) × ((j : ℕ) → i ≤ j → j < i + k → fat j ≢ 0))
      ⊎ ((i ≤ alloc_loop k fat i)
          × (alloc_loop k fat i < i + k)
          × (fat (alloc_loop k fat i) ≡ 0)
          × ((j : ℕ) → i ≤ j → j < alloc_loop k fat i → fat j ≢ 0))
unfolding alloc_loop
alloc_loop_lem zero fat i = inl (refl, λ j lo hi. absurd (omega arith))
alloc_loop_lem (suc k) fat i = elim (Bool-cases (fat i == 0)) [
  | inl e ↦ rw e (inr (omega arith, omega arith, ground arith, λ j lo hi. absurd (omega arith)))
  | inr ne ↦ rw ne elim (alloc_loop_lem k fat (i + 1)) [
    | inl full ↦ inl (
      full.0,
      λ j lo hi z. elim (Bool-cases (j == i)) [
        | inl e ↦ ground arith
        | inr d ↦ full.1 j (ground arith) (omega arith) z
      ],
    )
    | inr found ↦ inr (
      omega (arith, found.0),
      omega (arith, found.1),
      found.2,
      λ j lo hi z. elim (Bool-cases (j == i)) [
        | inl e ↦ ground arith
        | inr d ↦ found.3 j (ground arith) hi z
      ],
    )
  ]
]

-- `alloc_cluster` returns the first free cluster and marks it as the end of a chain; it returns 0 and
-- changes nothing where the table has no free cluster from 2 on.
pub alloc_cluster_lem :
    (fat : Fat)
    → ((alloc_cluster fat ≡ (0, fat)) × ((j : ℕ) → 2 ≤ j → j < fat_entries → fat j ≢ 0))
      ⊎ ((i : ℕ) × (alloc_cluster fat ≡ (i, set_fat fat i end_of_chain))
          × (2 ≤ i)
          × (i < fat_entries)
          × (fat i ≡ 0)
          × ((j : ℕ) → 2 ≤ j → j < i → fat j ≢ 0))
unfolding alloc_cluster
alloc_cluster_lem fat = elim (alloc_loop_lem 16382 fat 2) [
  | inl full ↦ inl (none_left (alloc_loop 16382 fat 2) full.0, full.1)
  | inr found ↦ inr (
    alloc_loop 16382 fat 2,
    taken (alloc_loop 16382 fat 2) found.0,
    found.0,
    found.1,
    found.2,
    found.3,
  )
]
  where
    none_left : (i : ℕ) → i ≡ 0 → take_cluster fat i ≡ (0, fat)
    none_left i e = rw e refl

    taken : (i : ℕ) → 2 ≤ i → take_cluster fat i ≡ (i, set_fat fat i end_of_chain)
    taken i le = rw (==_ne i 0 (λ e. omega (arith, le, e))) refl

-- From `cur` on, the table links the clusters of the list, and the last of them ends the chain; no
-- cluster comes twice.
unfoldable pub IsChain : Fat → ℕ → List ℕ → Type 0
IsChain fat cur [] = (2 ≤ cur) × (cur < fat_entries) × (fat cur ≡ end_of_chain)
IsChain fat cur (d ∷ ds) =
    (2 ≤ cur) × (cur < fat_entries) × (fat cur ≡ d) × Apart cur (d ∷ ds) × IsChain fat d ds

-- the table with the entries of a list of clusters set to 0
pub cleared : Fat → List ℕ → Fat
cleared fat [] = fat
cleared fat (c ∷ cs) = cleared (set_fat fat c 0) cs

IsChain-set_fat :
    (fat : Fat) (c v cur : ℕ) (ds : List ℕ)
    → Apart c (cur ∷ ds)
    → IsChain fat cur ds
    → IsChain (set_fat fat c v) cur ds
unfolding IsChain
IsChain-set_fat fat c v cur [] apart chain = (chain.0, chain.1, ground arith)
IsChain-set_fat fat c v cur (d ∷ ds) apart chain =
    (chain.0, chain.1, ground arith, chain.3, IsChain-set_fat fat c v d ds apart.1 chain.4)

pub IsChain-bounds :
    (fat : Fat) (cur : ℕ) (ds : List ℕ) → IsChain fat cur ds → (2 ≤ cur) × (cur < fat_entries)
unfolding IsChain
IsChain-bounds fat cur [] chain = (chain.0, chain.1)
IsChain-bounds fat cur (d ∷ ds) chain = (chain.0, chain.1)

free_loop_lem :
    (k : ℕ) (fat : Fat) (cur : ℕ) (ds : List ℕ)
    → length ds < k
    → IsChain fat cur ds
    → free_loop k fat cur ≡ some (cleared fat (cur ∷ ds))
unfolding free_loop cleared IsChain
free_loop_lem zero fat cur ds room chain = absurd (omega arith)
free_loop_lem (suc k) fat cur [] room chain = ground arith
free_loop_lem (suc k) fat cur (d ∷ ds) room chain =
    let in_table : (2 ≤ d) × (d < fat_entries) = IsChain-bounds fat d ds chain.4 in
    let rest : free_loop k (set_fat fat cur 0) d ≡ some (cleared (set_fat fat cur 0) (d ∷ ds)) =
      free_loop_lem k (set_fat fat cur 0) d ds (omega arith)
        (IsChain-set_fat fat cur 0 d ds chain.3 chain.4) in
    ground arith

-- Freeing a chain sets exactly the entries of its clusters to 0, with fuel for each of them.
pub free_cluster_chain_lem :
    (fuel : ℕ) (fat : Fat) (first : ℕ) (rest : List ℕ)
    → length rest < fuel
    → IsChain fat first rest
    → free_cluster_chain fuel fat first ≡ some (cleared fat (first ∷ rest))
unfolding free_cluster_chain
free_cluster_chain_lem fuel fat first rest room chain =
    let in_table : (2 ≤ first) × (first < fat_entries) = IsChain-bounds fat first rest chain in
    let freed : free_loop fuel fat first ≡ some (cleared fat (first ∷ rest)) =
      free_loop_lem fuel fat first rest room chain in
    ground arith

-- the entries below `n` that are in use
used_count : Fat → ℕ → ℕ
used_count fat zero = 0
used_count fat (suc n) = (if fat n == 0 then 0 else 1) + used_count fat n

used_count_le : (fat : Fat) (n : ℕ) → used_count fat n ≤ n
unfolding used_count
used_count_le fat zero = omega arith
used_count_le fat (suc n) = let rest = used_count_le fat n in ground arith

used_count-above :
    (fat : Fat) (cur n : ℕ) → n ≤ cur → used_count (set_fat fat cur 0) n ≡ used_count fat n
unfolding used_count
used_count-above fat cur zero le = refl
used_count-above fat cur (suc n) le =
    let rest = used_count-above fat cur n (omega arith) in ground arith

used_count-set_fat :
    (fat : Fat) (cur n : ℕ)
    → cur < n
    → fat cur ≢ 0
    → used_count (set_fat fat cur 0) n + 1 ≡ used_count fat n
unfolding used_count
used_count-set_fat fat cur zero lt used = absurd (omega arith)
used_count-set_fat fat cur (suc n) lt used = elim (ℕ_discrete cur n) [
  | yes e ↦ let above = used_count-above fat cur n (omega (arith, e)) in ground arith
  | no ne ↦ let rest = used_count-set_fat fat cur n (omega arith) used in ground arith
]

free_loop_ends :
    (k n : ℕ) (fat : Fat) (cur : ℕ)
    → n ≡ fat_entries
    → used_count fat n < k
    → (f : Fat) × (free_loop k fat cur ≡ some f)
unfolding free_loop
free_loop_ends zero n fat cur size room = absurd (omega arith)
free_loop_ends (suc k) n fat cur size room =
    elim (Bool-cases (cur == 0 || leb fat_entries cur || fat cur == 0)) [
      | inl stop ↦ (fat, rw stop refl)
      | inr go ↦ elim (Bool-cases (fat cur == end_of_chain)) [
        | inl last ↦ (set_fat fat cur 0, rw (go, last) refl)
        | inr onward ↦
            let drop : used_count (set_fat fat cur 0) n + 1 ≡ used_count fat n =
              used_count-set_fat fat cur n (in_table go) (in_use go) in
            let (f, ran) = free_loop_ends k n (set_fat fat cur 0) (fat cur) size (omega arith) in
            (f, rw (go, onward) ran)
      ]
    ]
  where
    in_table : (cur == 0 || leb fat_entries cur || fat cur == 0) ≡ false → cur < n
    in_table go = ground arith

    in_use : (cur == 0 || leb fat_entries cur || fat cur == 0) ≡ false → fat cur ≢ 0
    in_use go = ground arith

-- Freeing a chain ends on every table, also one that links clusters in a circle: 16385 rounds are
-- enough.
pub free_cluster_chain_ends :
    (fuel : ℕ) (fat : Fat) (first : ℕ)
    → fat_entries < fuel
    → (f : Fat) × (free_cluster_chain fuel fat first ≡ some f)
unfolding free_cluster_chain
free_cluster_chain_ends fuel fat first room =
    elim (Bool-cases (ltb first 2 || leb fat_entries first)) [
      | inl out ↦ (fat, rw out refl)
      | inr inside ↦
          let (f, ran) =
            free_loop_ends fuel fat_entries fat first refl
              (omega (arith, room, used_count_le fat fat_entries)) in
          (f, rw inside ran)
    ]
