-- ===== src/Fs/Bytes.antt =====
-- Reading and writing runs of bytes on the disk.
use kernel_c.Prelude.{
  ℕ, zero, suc, ◌+◌, ◌-◌, ◌*◌, ◌≤◌, ◌<◌, ◌≡◌, ◌≢◌, ◌⊎◌, inl, refl, ap, ◌∙◌, arith, List, [], ◌∷◌,
  ◌++◌, length, if◌then◌else◌, ◌==◌,
}
use Prim.Native.Nat.{min}
use kernel_c.Fs.{Disk, get_cluster, fat_entries, cluster_size, read_bytes, write_bytes, take, drop}

-- a write changes nothing outside its run
pub write_bytes-other :
    (disk : Disk) (at : ℕ) (bytes : List ℕ) (q : ℕ)
    → (q < at) ⊎ (at + length bytes ≤ q)
    → write_bytes disk at bytes q ≡ disk q
write_bytes-other disk at [] q far = refl
write_bytes-other disk at (b ∷ bs) q far =
    write_bytes-other (λ a. if a == at then b else disk a) (at + 1) bs q (ground arith)
    ∙ ground arith

pub read_bytes-same :
    (d e : Disk) (at n : ℕ)
    → ((q : ℕ) → at ≤ q → q < at + n → d q ≡ e q)
    → read_bytes d at n ≡ read_bytes e at n
read_bytes-same d e at zero same = refl
read_bytes-same d e at (suc n) same = cc (
  same at (omega arith) (omega arith),
  read_bytes-same d e (at + 1) n (λ q lo hi. same q (omega arith) (omega arith)),
)

-- what was written is read back
pub read-write_bytes :
    (disk : Disk) (at : ℕ) (bytes : List ℕ)
    → read_bytes (write_bytes disk at bytes) at (length bytes) ≡ bytes
read-write_bytes disk at [] = refl
read-write_bytes disk at (b ∷ bs) = cc (
  write_bytes-other (λ a. if a == at then b else disk a) (at + 1) bs at (inl (omega arith)) ∙ here,
  read-write_bytes (λ a. if a == at then b else disk a) (at + 1) bs,
)
  where
    here : (if at == at then b else disk at) ≡ b
    here = ground arith

pub take-append-drop : (n : ℕ) (bytes : List ℕ) → take n bytes ++ drop n bytes ≡ bytes
take-append-drop zero bytes = refl
take-append-drop (suc n) [] = refl
take-append-drop (suc n) (b ∷ bytes) = ap (◌∷◌ b) (take-append-drop n bytes)

pub length-take : (n : ℕ) (bytes : List ℕ) → length (take n bytes) ≡ min (length bytes) n
length-take zero bytes = omega arith
length-take (suc n) [] = omega arith
length-take (suc n) (b ∷ bytes) = omega (arith, length-take n bytes)

pub length-drop : (n : ℕ) (bytes : List ℕ) → length (drop n bytes) ≡ length bytes - n
length-drop zero bytes = omega arith
length-drop (suc n) [] = omega arith
length-drop (suc n) (b ∷ bytes) = omega (arith, length-drop n bytes)

-- Every cluster of the table lies inside the 64 MiB of the RAM disk, behind the reserved sectors, and
-- the bytes of two clusters do not meet.
pub get_cluster_bounds :
    (c d : ℕ)
    → 2 ≤ c
    → c < fat_entries
    → 2 ≤ d
    → c ≢ d
    → (65 * 512 ≤ get_cluster c)
      × (get_cluster c + cluster_size ≤ 64 * 1024 * 1024)
      × ((get_cluster c + cluster_size ≤ get_cluster d)
          ⊎ (get_cluster d + cluster_size ≤ get_cluster c))
unfolding get_cluster
get_cluster_bounds c d lo hi lo' ne = ground arith
