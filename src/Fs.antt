-- ===== src/Fs.antt =====
-- fat16/fs.c over the RAM disk of ramdisk/ramdisk.c: the file allocation table and the cluster chains.
-- The table and the disk are maps from indices and offsets; the table's 16384 entries are those below
-- `fat_entries`. A loop along a chain takes fuel, and `none` means that the fuel ran out.
pub mod Bytes
pub mod Chains
pub mod Roundtrip
pub mod Table
pub mod Files
mod Tests
use kernel_c.Prelude.{
  ℕ, zero, suc, ◌+◌, ◌-◌, ◌*◌, ◌<◌, Bool, true, false, not, ◌&&◌, ◌||◌, Option, none, some, List,
  [], ◌∷◌, ◌++◌, if◌then◌else◌, ◌==◌, ltb, leb, length,
}
use Prim.Native.Nat.{min}

abbrev pub fat_entries : ℕ
fat_entries = 16384

abbrev pub end_of_chain : ℕ
end_of_chain = 0xFFFF

abbrev pub cluster_size : ℕ
cluster_size = 512

abbrev pub Fat : Type 0
Fat = ℕ → ℕ

-- the bytes of the RAM disk, from `ramdisk_base()` on
abbrev pub Disk : Type 0
Disk = ℕ → ℕ

abbrev pub set_fat : Fat → ℕ → ℕ → Fat
set_fat fat i v j = if j == i then v else fat j

-- The offset of a cluster: one reserved sector and two tables of 32 sectors come first.
unfoldable pub get_cluster : ℕ → ℕ
get_cluster cluster = (1 + 2 * 32) * 512 + cluster * 1 * 512 - 2 * 1 * 512

-- `for (i = 2; i < FAT_ENTRIES; i++)`, by the rounds left; 0 if no entry is free
pub alloc_loop : ℕ → Fat → ℕ → ℕ
alloc_loop zero fat i = 0
alloc_loop (suc k) fat i = let rest = alloc_loop k fat (i + 1) in if fat i == 0 then i else rest

-- the loop's result: the entry that it marks before it returns
abbrev pub take_cluster : Fat → ℕ → ℕ × Fat
take_cluster fat i = if i == 0 then (0, fat) else (i, set_fat fat i end_of_chain)

unfoldable pub alloc_cluster : Fat → ℕ × Fat
unfolding alloc_loop
alloc_cluster fat = take_cluster fat (alloc_loop 16382 fat 2)

pub free_loop : ℕ → Fat → ℕ → Option Fat
free_loop zero fat cur = none
free_loop (suc k) fat cur =
    let next = fat cur in
    let rest = free_loop k (set_fat fat cur 0) next in
    if cur == 0 || leb fat_entries cur || fat cur == 0
    then some fat
    else if next == end_of_chain
    then some (set_fat fat cur 0)
    else rest

unfoldable pub free_cluster_chain : ℕ → Fat → ℕ → Option Fat
unfolding free_loop
free_cluster_chain fuel fat first =
    if ltb first 2 || leb fat_entries first then some fat else free_loop fuel fat first

-- `memcpy` from the disk, and to it
abbrev pub read_bytes : Disk → ℕ → ℕ → List ℕ
read_bytes disk at zero = []
read_bytes disk at (suc n) = disk at ∷ read_bytes disk (at + 1) n

abbrev pub write_bytes : Disk → ℕ → List ℕ → Disk
write_bytes disk at [] = disk
write_bytes disk at (b ∷ bs) = write_bytes (λ a. if a == at then b else disk a) (at + 1) bs

-- `size - read` bytes are left to read at `cur`; the result is what goes to `out + read`
pub read_loop : ℕ → Fat → Disk → ℕ → ℕ → Option (List ℕ)
read_loop zero fat disk cur left = none
read_loop (suc k) fat disk cur left =
    let to_copy = min left cluster_size in
    let chunk = read_bytes disk (get_cluster cur) to_copy in
    let rest = read_loop k fat disk (fat cur) (left - to_copy) in
    if cur == 0 || leb fat_entries cur || left == 0
    then some []
    else if fat cur == end_of_chain
    then some chunk
    else elim rest [ none ↦ none | some bytes ↦ some (chunk ++ bytes) ]

unfoldable pub fs_read : ℕ → Fat → Disk → ℕ → ℕ → Option (List ℕ)
unfolding read_loop
fs_read fuel fat disk first size =
    if ltb first 2 || leb fat_entries first then some [] else read_loop fuel fat disk first size

-- what a write leaves: the table, the disk, and the number of bytes written
pub record Written : Type 0 where
  pub fat : Fat
  pub disk : Disk
  pub count : ℕ

abbrev pub wrote : Fat → Disk → ℕ → Written
wrote f d n = record { fat = f; disk = d; count = n }

abbrev pub take : ℕ → List ℕ → List ℕ
take zero bytes = []
take (suc n) [] = []
take (suc n) (b ∷ bytes) = b ∷ take n bytes

abbrev pub drop : ℕ → List ℕ → List ℕ
drop zero bytes = bytes
drop (suc n) [] = []
drop (suc n) (b ∷ bytes) = drop n bytes

-- `bytes` is `data + written`, and `written` the bytes before it
pub write_loop : ℕ → Fat → Disk → ℕ → List ℕ → ℕ → Option Written
write_loop zero fat disk cur bytes written = none
write_loop (suc k) fat disk cur bytes written =
    let chunk = take cluster_size bytes in
    let more = drop cluster_size bytes in
    let disk' = write_bytes disk (get_cluster cur) chunk in
    let written' = written + length chunk in
    let (nc, fat') = alloc_cluster fat in
    let linked = write_loop k (set_fat fat' cur nc) disk' nc more written' in
    let onward = write_loop k fat disk' (fat cur) more written' in
    let stop : Fat → Option Written = λ f. some (wrote f disk' written') in
    if length bytes == 0
    then some (wrote fat disk written)
    else if length more == 0
    then stop (set_fat fat cur end_of_chain)
    else if not (fat cur == end_of_chain)
    then onward
    else if nc == 0
    then stop (set_fat fat cur end_of_chain)
    else linked

unfoldable pub fs_write : ℕ → Fat → Disk → ℕ → List ℕ → Option Written
unfolding write_loop
fs_write fuel fat disk first bytes =
    if ltb first 2 || leb fat_entries first
    then some (wrote fat disk 0)
    else write_loop fuel fat disk first bytes 0
