-- ===== src/Fs/Roundtrip/Rounds.antt =====
-- One round of `fs_read`'s and of `fs_write`'s loop.
use kernel_c.Prelude.{
  ℕ, zero, suc, ◌+◌, ◌-◌, ◌*◌, ◌≤◌, ◌<◌, ◌≡◌, ◌≢◌, ◌⊎◌, refl, ap, sym, arith, some, List, [], ◌∷◌,
  ◌++◌, length, ==_ne, lt→not_leb,
}
use Prim.Native.Nat.{min}
use kernel_c.Fs.{
  Fat, Disk, wrote, fat_entries, end_of_chain, cluster_size, set_fat, get_cluster, alloc_cluster,
  read_bytes, write_bytes, take, drop, read_loop, write_loop,
}
use kernel_c.Fs.Bytes.{write_bytes-other, length-take, get_cluster_bounds}

-- the write of one chunk changes only its cluster
pub chunk_apart :
    (disk : Disk) (cur : ℕ) (chunk : List ℕ) (q a : ℕ)
    → 2 ≤ cur
    → cur < fat_entries
    → 2 ≤ q
    → q < fat_entries
    → q ≢ cur
    → length chunk ≤ cluster_size
    → get_cluster q ≤ a
    → a < get_cluster q + cluster_size
    → write_bytes disk (get_cluster cur) chunk a ≡ disk a
chunk_apart disk cur chunk q a lo hi qlo qhi ne short from to =
    let apart : (65 * 512 ≤ get_cluster cur)
        × (get_cluster cur + cluster_size ≤ 64 * 1024 * 1024)
        × ((get_cluster cur + cluster_size ≤ get_cluster q)
            ⊎ (get_cluster q + cluster_size ≤ get_cluster cur)) =
      get_cluster_bounds cur q lo hi qlo (λ e. ne (sym e)) in
    write_bytes-other disk (get_cluster cur) chunk a (ground arith)

pub length-take_le : (n : ℕ) (bytes : List ℕ) → length (take n bytes) ≤ n
length-take_le n bytes = omega (arith, length-take n bytes)

pub take-length-take : (n : ℕ) (bytes : List ℕ) → take (length (take n bytes)) bytes ≡ take n bytes
take-length-take zero bytes = refl
take-length-take (suc n) [] = refl
take-length-take (suc n) (b ∷ bytes) = ap (◌∷◌ b) (take-length-take n bytes)

pub take_add :
    (m d k : ℕ) (bytes : List ℕ) → k ≡ m + d → take k bytes ≡ take m bytes ++ take d (drop m bytes)
take_add zero d k bytes e = ap (λ i. take i bytes) (omega (arith, e))
take_add (suc m) d zero bytes e = absurd (omega (arith, e))
take_add (suc m) zero (suc k) [] e = refl
take_add (suc m) (suc d) (suc k) [] e = refl
take_add (suc m) d (suc k) (b ∷ bytes) e = ap (◌∷◌ b) (take_add m d k bytes (omega (arith, e)))

pub read_loop_last :
    (k : ℕ) (f : Fat) (d : Disk) (cur n : ℕ)
    → 2 ≤ cur
    → cur < fat_entries
    → f cur ≡ end_of_chain
    → 0 < n
    → read_loop (suc k) f d cur n ≡ some (read_bytes d (get_cluster cur) (min n cluster_size))
unfolding read_loop
read_loop_last k f d cur n lo hi last some_left =
    rw
      (
        last,
        ==_ne cur 0 (λ e. omega (arith, lo, e)),
        lt→not_leb fat_entries cur hi,
        ==_ne n 0 (λ e. omega (arith, some_left, e)),
      )
      refl

pub read_loop_next :
    (k : ℕ) (f : Fat) (d : Disk) (cur n : ℕ) (bytes : List ℕ)
    → 2 ≤ cur
    → cur < fat_entries
    → f cur ≢ end_of_chain
    → 0 < n
    → read_loop k f d (f cur) (n - min n cluster_size) ≡ some bytes
    → read_loop (suc k) f d cur n
      ≡ some (read_bytes d (get_cluster cur) (min n cluster_size) ++ bytes)
unfolding read_loop
read_loop_next k f d cur n bytes lo hi more some_left rest =
    rw
      (
        rest,
        ==_ne (f cur) end_of_chain more,
        ==_ne cur 0 (λ e. omega (arith, lo, e)),
        lt→not_leb fat_entries cur hi,
        ==_ne n 0 (λ e. omega (arith, some_left, e)),
      )
      refl

pub write_loop_last :
    (k : ℕ) (fat : Fat) (disk : Disk) (cur : ℕ) (bytes : List ℕ) (w : ℕ)
    → 0 < length bytes
    → length (drop cluster_size bytes) ≡ 0
    → write_loop (suc k) fat disk cur bytes w
      ≡ some (
          wrote
            (set_fat fat cur end_of_chain)
            (write_bytes disk (get_cluster cur) (take cluster_size bytes))
            (w + length (take cluster_size bytes)))
unfolding write_loop
write_loop_last k fat disk cur bytes w some_left last =
    rw (last, ==_ne (length bytes) 0 (λ e. omega (arith, some_left, e))) refl

module _ (k : ℕ) (fat : Fat) (disk : Disk) (cur : ℕ) (bytes : List ℕ) (w : ℕ)
    (some_left : 0 < length bytes) (more : length (drop cluster_size bytes) ≢ 0)
    (at_end : fat cur ≡ end_of_chain) where
  pub write_loop_full :
      alloc_cluster fat ≡ (0, fat)
      → write_loop (suc k) fat disk cur bytes w
        ≡ some (
            wrote
              (set_fat fat cur end_of_chain)
              (write_bytes disk (get_cluster cur) (take cluster_size bytes))
              (w + length (take cluster_size bytes)))
  unfolding write_loop
  write_loop_full full =
      rw
        (
          full,
          at_end,
          ==_ne (length bytes) 0 (λ e. omega (arith, some_left, e)),
          ==_ne (length (drop cluster_size bytes)) 0 more,
        )
        refl

  pub write_loop_linked :
      (nc : ℕ)
      → 2 ≤ nc
      → alloc_cluster fat ≡ (nc, set_fat fat nc end_of_chain)
      → write_loop (suc k) fat disk cur bytes w
        ≡ write_loop k
            (set_fat (set_fat fat nc end_of_chain) cur nc)
            (write_bytes disk (get_cluster cur) (take cluster_size bytes))
            nc
            (drop cluster_size bytes)
            (w + length (take cluster_size bytes))
  unfolding write_loop
  write_loop_linked nc lo taken =
      rw
        (
          taken,
          at_end,
          ==_ne (length bytes) 0 (λ e. omega (arith, some_left, e)),
          ==_ne (length (drop cluster_size bytes)) 0 more,
          ==_ne nc 0 (λ e. omega (arith, lo, e)),
        )
        refl
