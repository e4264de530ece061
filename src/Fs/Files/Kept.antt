-- ===== src/Fs/Files/Kept.antt =====
-- The files that a volume keeps while another is written.
use kernel_c.Prelude.{
  ℕ, zero, suc, ◌-◌, lt→not_leb, ◌+◌, ◌≤◌, ◌<◌, ◌≡◌, ◌≢◌, ◌⊎◌, inl, inr, refl, arith, true, List,
  [], ◌∷◌, le→not_ltb, Option-cases,
}
use kernel_c.Fs.{fat_entries, end_of_chain, cluster_size, fs_read}
use kernel_c.Fs.Table.{Volume}
use kernel_c.Fs.{read_loop, read_bytes, get_cluster, Fat, Disk}
use kernel_c.Fs.Chains.{IsChain, IsChain-bounds}
use kernel_c.Fs.Bytes.{read_bytes-same}
use Prim.Native.Nat.{min}

-- what the volume keeps while a file is added
pub record Keeps (v w : Volume) : Type 0 where
  pub entries_kept : (j : ℕ) → (v.entries j).used ≡ true → w.entries j ≡ v.entries j
  pub fat_kept : (q : ℕ) → v.fat q ≢ 0 → w.fat q ≡ v.fat q
  pub disk_kept :
      (q a : ℕ)
      → 2 ≤ q
      → q < fat_entries
      → v.fat q ≢ 0
      → get_cluster q ≤ a
      → a < get_cluster q + cluster_size
      → w.disk a ≡ v.disk a

read_loop_step :
    (k : ℕ) (f g : Fat) (d e : Disk) (cur left : ℕ)
    → g cur ≡ f cur
    → read_bytes e (get_cluster cur) (min left cluster_size)
      ≡ read_bytes d (get_cluster cur) (min left cluster_size)
    → (f cur ≡ end_of_chain)
      ⊎ (read_loop k g e (f cur) (left - min left cluster_size)
          ≡ read_loop k f d (f cur) (left - min left cluster_size))
    → read_loop (suc k) g e cur left ≡ read_loop (suc k) f d cur left
unfolding read_loop
read_loop_step k f g d e cur left link chunk (inl last) = rw (link, chunk, last) refl
read_loop_step k f g d e cur left link chunk (inr rest) =
    elim (Option-cases (read_loop k f d (f cur) (left - min left cluster_size))) [
      | inl e ↦ rw (link, rest, e, chunk) refl
      | inr (bytes, e) ↦ rw (link, rest, e, chunk) refl
    ]

chunk-kept :
    (v w : Volume) (cur left : ℕ)
    → Keeps v w
    → 2 ≤ cur
    → cur < fat_entries
    → v.fat cur ≢ 0
    → read_bytes w.disk (get_cluster cur) (min left cluster_size)
      ≡ read_bytes v.disk (get_cluster cur) (min left cluster_size)
chunk-kept v w cur left keeps lo hi busy =
    read_bytes-same w.disk v.disk (get_cluster cur) (min left cluster_size)
      (λ a from to. keeps.disk_kept cur a lo hi busy from (omega (arith, to)))

read_loop-kept :
    (k : ℕ) (v w : Volume) (cur left : ℕ) (cs : List ℕ)
    → Keeps v w
    → IsChain v.fat cur cs
    → read_loop k w.fat w.disk cur left ≡ read_loop k v.fat v.disk cur left
unfolding IsChain read_loop
read_loop-kept zero v w cur left cs keeps chain = refl
read_loop-kept (suc k) v w cur left [] keeps (lo, hi, last) =
    let busy : v.fat cur ≢ 0 = λ z. omega (arith, z, last) in
    read_loop_step k v.fat w.fat v.disk w.disk cur left (keeps.fat_kept cur busy)
      (chunk-kept v w cur left keeps lo hi busy) (inl last)
read_loop-kept (suc k) v w cur left (c ∷ cs) keeps (lo, hi, link, _, chain) =
    let busy : v.fat cur ≢ 0 = λ z. omega (arith, z, link, (IsChain-bounds v.fat c cs chain).0) in
    read_loop_step k v.fat w.fat v.disk w.disk cur left (keeps.fat_kept cur busy)
      (chunk-kept v w cur left keeps lo hi busy)
      (inr (rw link (read_loop-kept k v w c (left - min left cluster_size) cs keeps chain)))

-- a read of a file whose clusters are a chain gives what it gave
pub Keeps-reads :
    (v w : Volume)
    → Keeps v w
    → (fuel first size : ℕ) (cs : List ℕ) → IsChain v.fat first cs
    → fs_read fuel w.fat w.disk first size ≡ fs_read fuel v.fat v.disk first size
unfolding fs_read
Keeps-reads v w keeps fuel first size cs chain =
    let (lo, hi) = IsChain-bounds v.fat first cs chain in
    rw (le→not_ltb first 2 lo, lt→not_leb fat_entries first hi)
      (read_loop-kept fuel v w first size cs keeps chain)
