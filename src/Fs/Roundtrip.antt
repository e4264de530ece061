-- ===== src/Fs/Roundtrip.antt =====
-- `fs_write` and then `fs_read`: what a write stores along a chain is what a read finds there.
mod Rounds
mod Stored
use kernel_c.Prelude.{
  ℕ, zero, suc, ◌+◌, ◌-◌, ◌*◌, ◌≤◌, ◌<◌, ◌≡◌, ◌≢◌, ◌⊎◌, inl, inr, refl, ap, ◌∙◌, sym, arith, some,
  List, [], ◌∷◌, ◌++◌, length, if◌then◌else◌, ◌==◌, ==_self, ==_ne, lt→not_leb, le→not_ltb, dec_lt,
}
use Prim.Native.Nat.{min}
use kernel_c.Fs.{
  Fat, Disk, Written, wrote, fat_entries, end_of_chain, cluster_size, set_fat, get_cluster,
  alloc_cluster, read_bytes, write_bytes, take, drop, read_loop, fs_read, write_loop, fs_write,
}
use kernel_c.Fs.Bytes.{
  write_bytes-other, read_bytes-same, read-write_bytes, length-take, length-drop,
  get_cluster_bounds,
}
use kernel_c.Fs.Chains.{alloc_cluster_lem}
use Rounds.{
  chunk_apart, length-take_le, take-length-take, take_add, read_loop_last, read_loop_next,
  write_loop_last, write_loop_full, write_loop_linked,
}
use Stored.{Stores, read_chunk, stopped, stopped-Stores, linked-Stores}

-- the loop ends, and what it leaves
WriteEnds : ℕ → Fat → Disk → ℕ → List ℕ → ℕ → Type 0
WriteEnds k fat disk cur bytes w =
    (s : Written) × (write_loop k fat disk cur bytes w ≡ some s) × Stores k fat disk cur bytes w s

WriteEnds-linked :
    (k : ℕ) (fat : Fat) (disk : Disk) (cur : ℕ) (bytes : List ℕ) (w : ℕ)
    → 2 ≤ cur
    → cur < fat_entries
    → fat cur ≡ end_of_chain
    → cluster_size < length bytes
    → (nc : ℕ) → alloc_cluster fat ≡ (nc, set_fat fat nc end_of_chain)
    → 2 ≤ nc
    → nc < fat_entries
    → fat nc ≡ 0
    → WriteEnds k
        (set_fat (set_fat fat nc end_of_chain) cur nc)
        (write_bytes disk (get_cluster cur) (take cluster_size bytes))
        nc
        (drop cluster_size bytes)
        (w + length (take cluster_size bytes))
    → WriteEnds (suc k) fat disk cur bytes w
unfolding WriteEnds stopped
WriteEnds-linked k fat disk cur bytes w lo hi at_end long nc taken nlo nhi free rest = (
  rest.0,
  write_loop_linked k fat disk cur bytes w (omega arith)
        (λ e. omega (arith, e, length-drop cluster_size bytes)) at_end nc nlo taken
      ∙ rest.1,
  linked-Stores k fat disk cur bytes w lo hi at_end (omega arith) nc rest.0 nlo nhi free long
      rest.2,
)

write_loop-ends :
    (k : ℕ) (fat : Fat) (disk : Disk) (cur : ℕ) (bytes : List ℕ) (w : ℕ)
    → 2 ≤ cur
    → cur < fat_entries
    → fat cur ≡ end_of_chain
    → 0 < length bytes
    → length bytes ≤ k * cluster_size
    → WriteEnds k fat disk cur bytes w
unfolding WriteEnds stopped
write_loop-ends zero fat disk cur bytes w lo hi at_end some_left room = absurd (omega arith)
write_loop-ends (suc k) fat disk cur bytes w lo hi at_end some_left room =
    elim (dec_lt cluster_size (length bytes)) [
      | no short ↦ (
        stopped k fat disk cur bytes w lo hi at_end some_left,
        write_loop_last k fat disk cur bytes w some_left
            (omega (arith, length-drop cluster_size bytes)),
        stopped-Stores k fat disk cur bytes w lo hi at_end some_left (inl (omega arith)),
      )
      | yes long ↦ elim (alloc_cluster_lem fat) [
        | inl full ↦ (
          stopped k fat disk cur bytes w lo hi at_end some_left,
          write_loop_full k fat disk cur bytes w some_left
              (λ e. omega (arith, e, length-drop cluster_size bytes)) at_end full.0,
          stopped-Stores k fat disk cur bytes w lo hi at_end some_left (inr full.1),
        )
        | inr found ↦
            let nc : ℕ = found.0 in
            WriteEnds-linked k fat disk cur bytes w lo hi at_end long nc found.1 found.2 found.3
              found.4
              (write_loop-ends k (set_fat (set_fat fat nc end_of_chain) cur nc)
                (write_bytes disk (get_cluster cur) (take cluster_size bytes)) nc
                (drop cluster_size bytes) (w + length (take cluster_size bytes)) found.2 found.3
                (new_end nc found.4) (omega (arith, long, length-drop cluster_size bytes))
                (omega (arith, length-drop cluster_size bytes, room)))
      ]
    ]
  where
    new_end : (nc : ℕ) → fat nc ≡ 0 → set_fat (set_fat fat nc end_of_chain) cur nc nc ≡ end_of_chain
    new_end nc free =
        rw (==_ne nc cur (λ e. omega (arith, ap fat e, free, at_end)), ==_self nc) refl

-- A write of at least one byte to a chain of one cluster stores the first `count` bytes and `fs_read` reads exactly these back;
-- it stores all of them unless the table is full afterwards. Every other cluster in use keeps its
-- link and its bytes. Fuel for one round per cluster is enough.
pub fs_read-write :
    (fuel : ℕ) (fat : Fat) (disk : Disk) (first : ℕ) (bytes : List ℕ)
    → 2 ≤ first
    → first < fat_entries
    → fat first ≡ end_of_chain
    → 0 < length bytes
    → length bytes ≤ fuel * cluster_size
    → (s : Written) × (fs_write fuel fat disk first bytes ≡ some s)
      × (fs_read fuel s.fat s.disk first s.count ≡ some (take s.count bytes))
      × ((s.count ≡ length bytes) ⊎ ((j : ℕ) → 2 ≤ j → j < fat_entries → s.fat j ≢ 0))
      × ((q : ℕ) → q ≢ first → fat q ≢ 0 → s.fat q ≡ fat q)
      × ((q a : ℕ)
          → 2 ≤ q
          → q < fat_entries
          → q ≢ first
          → fat q ≢ 0
          → get_cluster q ≤ a
          → a < get_cluster q + cluster_size
          → s.disk a ≡ disk a)
unfolding fs_write fs_read WriteEnds
fs_read-write fuel fat disk first bytes lo hi at_end some_left room =
    rw (le→not_ltb first 2 lo, lt→not_leb fat_entries first hi)
      let stored : WriteEnds fuel fat disk first bytes 0 =
          write_loop-ends fuel fat disk first bytes 0 lo hi at_end some_left room in
        let count : stored.0.count ≡ stored.2.n = omega (arith, stored.2.count_is) in
        (
          stored.0,
          stored.1,
          rw count stored.2.readable,
          elim stored.2.complete [ inl all ↦ inl (count ∙ all) | inr full ↦ inr full ],
          stored.2.fat_kept,
          stored.2.disk_kept,
        )
