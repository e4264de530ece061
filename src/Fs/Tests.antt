-- ===== src/Fs/Tests.antt =====
-- Runs of the file system on small tables, and the theorems at concrete inputs.
use kernel_c.Prelude.{
  ℕ, ◌+◌, ◌*◌, ◌≤◌, ◌<◌, ◌≡◌, ◌≢◌, ◌⊎◌, refl, arith, List, [], ◌∷◌, length, some, replicate,
  if◌then◌else◌, ◌==◌, ℤ, pos, negsuc, none, true, false, ◌↔◌,
}
use kernel_c.Fs.{
  Fat, Disk, Written, fat_entries, end_of_chain, cluster_size, set_fat, get_cluster, alloc_cluster,
  free_cluster_chain, take, fs_read, fs_write,
}
use kernel_c.Fs.Bytes.{get_cluster_bounds}
use kernel_c.Fs.Chains.{
  IsChain, cleared, alloc_cluster_lem, free_cluster_chain_lem, free_cluster_chain_ends,
}
use kernel_c.Fs.Roundtrip.{fs_read-write}
use kernel_c.Fs.Table.{
  Volume, find_free_entry, fs_init, fs_mkdir, fs_rmdir, fs_remove_entry, put, new_entry, nameeq,
  name_max, inner_index,
}
use kernel_c.Fs.Table.Tree.{IsTree}
use kernel_c.Fs.Table.Steps.{
  fs_init-IsTree, fs_mkdir-IsTree, fs_rmdir-IsTree, fs_remove_entry-IsTree, Removed,
}
use kernel_c.Fs.Table.Names.{nameeq-take}
use kernel_c.Fs.Files.{fs_create_file, fs_find_in_dir, fs_write_file_in_dir, fs_read_file_in_dir}
use kernel_c.Fs.Files.Writing.{fs_write_file_in_dir-IsTree}
use kernel_c.Fs.Files.Named.{Added, fs_read_file_in_dir-write}
use kernel_c.Fs.Files.Overwrite.{fs_read_file_in_dir-overwrite}
use kernel_c.Fs.Files.Upkeep.{fs_create_file-IsTree}

-- a file in cluster 2, and a file in the clusters 3 and 5
abbrev two_files : Fat
two_files =
    λ j. if j == 2 then end_of_chain else if j == 3 then 5 else if j == 5 then end_of_chain else 0

abbrev blank : Disk
blank = λ a. 0

abbrev six_hundred : List ℕ
six_hundred = replicate 600 7

two_files-IsChain : IsChain two_files 3 (5 ∷ [])
unfolding IsChain
two_files-IsChain = (
  omega arith,
  omega arith,
  refl,
  ((λ e. omega (arith, e)), tt),
  (omega arith, omega arith, refl),
)

first_free_cluster :
    ((alloc_cluster two_files ≡ (0, two_files))
      × ((j : ℕ) → 2 ≤ j → j < fat_entries → two_files j ≢ 0))
    ⊎ ((i : ℕ) × (alloc_cluster two_files ≡ (i, set_fat two_files i end_of_chain))
        × (2 ≤ i)
        × (i < fat_entries)
        × (two_files i ≡ 0)
        × ((j : ℕ) → 2 ≤ j → j < i → two_files j ≢ 0))
first_free_cluster = alloc_cluster_lem two_files

free_cluster_chain_lem_run :
    free_cluster_chain 2 two_files 3 ≡ some (cleared two_files (3 ∷ 5 ∷ []))
free_cluster_chain_lem_run =
    free_cluster_chain_lem 2 two_files 3 (5 ∷ []) (omega arith) two_files-IsChain

clusters_apart :
    (65 * 512 ≤ get_cluster 3)
    × (get_cluster 3 + cluster_size ≤ 64 * 1024 * 1024)
    × ((get_cluster 3 + cluster_size ≤ get_cluster 2)
        ⊎ (get_cluster 2 + cluster_size ≤ get_cluster 3))
clusters_apart =
    get_cluster_bounds 3 2 (omega arith) (omega arith) (omega arith) (λ e. omega (arith, e))

fs_read-write_example :
    (s : Written) × (fs_write 2 two_files blank 2 six_hundred ≡ some s)
    × (fs_read 2 s.fat s.disk 2 s.count ≡ some (take s.count six_hundred))
    × ((s.count ≡ length six_hundred) ⊎ ((j : ℕ) → 2 ≤ j → j < fat_entries → s.fat j ≢ 0))
    × ((q : ℕ) → q ≢ 2 → two_files q ≢ 0 → s.fat q ≡ two_files q)
    × ((q a : ℕ)
        → 2 ≤ q
        → q < fat_entries
        → q ≢ 2
        → two_files q ≢ 0
        → get_cluster q ≤ a
        → a < get_cluster q + cluster_size
        → s.disk a ≡ blank a)
fs_read-write_example =
    fs_read-write 2 two_files blank 2 six_hundred (omega arith) (omega arith) refl (omega arith)
      (omega arith)

empty_volume :
    IsTree (fs_init blank).entries × ((i : ℕ) → 0 < i → ((fs_init blank).entries i).used ≡ false)
empty_volume = fs_init-IsTree blank

-- a volume with the directory "a" in the root
abbrev one_dir : Volume
one_dir = (fs_mkdir (fs_init blank) (some (97 ∷ [])) (pos 0)).1

one_dir-IsTree : IsTree one_dir.entries
one_dir-IsTree = fs_mkdir-IsTree (fs_init blank) (some (97 ∷ [])) (pos 0) (fs_init-IsTree blank).0

fs_mkdir-IsTree_example : IsTree (fs_mkdir (fs_init blank) (some (97 ∷ [])) (pos 0)).1.entries
fs_mkdir-IsTree_example =
    fs_mkdir-IsTree (fs_init blank) (some (97 ∷ [])) (pos 0) (fs_init-IsTree blank).0

fs_rmdir-IsTree_run : IsTree (fs_rmdir one_dir (pos 1)).1.entries
fs_rmdir-IsTree_run = fs_rmdir-IsTree one_dir (pos 1) one_dir-IsTree

fs_remove_entry-IsTree_example :
    (r : ℤ × Volume) × (fs_remove_entry 16385 one_dir (pos 1) ≡ some r)
    × IsTree r.1.entries
    × (((c : ℕ) × (r ≡ (negsuc c, one_dir)))
        ⊎ ((i : ℕ) × (inner_index (pos 1) ≡ some i) × (r.0 ≡ pos 0) × Removed 16385 one_dir r.1 i))
fs_remove_entry-IsTree_example =
    fs_remove_entry-IsTree 16385 one_dir (pos 1) (omega arith) one_dir-IsTree

nameeq-take_run :
    (nameeq (take 63 six_hundred) six_hundred name_max ≡ true) ↔ (length six_hundred ≤ 63)
nameeq-take_run = nameeq-take six_hundred

-- two clusters that link to each other
abbrev circle : Fat
circle = λ j. if j == 2 then 3 else if j == 3 then 2 else 0

free_cluster_chain_ends_example : (f : Fat) × (free_cluster_chain 16385 circle 2 ≡ some f)
free_cluster_chain_ends_example = free_cluster_chain_ends 16385 circle 2 (omega arith)

fs_create_file-IsTree_run :
    (r : ℤ × Volume) × (fs_create_file one_dir (some (98 ∷ [])) (some (99 ∷ [])) (pos 1) ≡ some r)
    × IsTree r.1.entries
fs_create_file-IsTree_run =
    fs_create_file-IsTree one_dir (some (98 ∷ [])) (99 ∷ []) (pos 1) one_dir-IsTree

not_there : fs_find_in_dir one_dir.entries (some (98 ∷ [])) (some (99 ∷ [])) (pos 1) ≡ none
unfolding fs_find_in_dir fs_mkdir fs_init find_free_entry
not_there = refl

fs_read_file_in_dir-write_example :
    (r : ℤ) × (w : Volume) × (fs_write_file_in_dir 1 one_dir
        (some (98 ∷ []))
        (some (99 ∷ []))
        (pos 1)
        (7 ∷ 8 ∷ [])
      ≡ some (r, w))
    × (((r ≡ pos 0) × Added 1 one_dir w 1 (98 ∷ []) (99 ∷ []) (7 ∷ 8 ∷ []))
        ⊎ ((r ≡ negsuc 5) × ((i : ℕ) → 2 ≤ i → i < fat_entries → w.fat i ≢ 0)))
    × ((i : ℕ) → (one_dir.entries i).used ≡ true → w.entries i ≡ one_dir.entries i)
    × ((k first size : ℕ) (cs : List ℕ)
        → IsChain one_dir.fat first cs
        → fs_read k w.fat w.disk first size ≡ fs_read k one_dir.fat one_dir.disk first size)
unfolding fs_mkdir fs_init find_free_entry
fs_read_file_in_dir-write_example =
    fs_read_file_in_dir-write 1 one_dir 1 (98 ∷ []) (99 ∷ []) (7 ∷ 8 ∷ []) (omega arith) refl
      (omega arith) (omega arith) not_there 2 (omega arith) (omega arith) refl 2 (omega arith)
      (omega arith) refl (omega arith) (omega arith) (omega arith)

-- the directory "a" with an empty file "b" in it
abbrev one_file : Volume
one_file = record one_dir {
  entries = put one_dir.entries 2 (new_entry (98 ∷ []) (99 ∷ []) 1 false 2);
  fat = λ j. if j == 2 then end_of_chain else 0;
}

there : fs_find_in_dir one_file.entries (some (98 ∷ [])) (some (99 ∷ [])) (pos 1) ≡ some 2
unfolding fs_find_in_dir fs_mkdir fs_init find_free_entry
there = refl

fs_read_file_in_dir-overwrite_example :
    (r : ℤ) × (w : Volume) × (fs_write_file_in_dir 16385 one_file
        (some (98 ∷ []))
        (some (99 ∷ []))
        (pos 1)
        (7 ∷ 8 ∷ [])
      ≡ some (r, w))
    × (((r ≡ pos 0)
          × ((bufsize : ℕ)
              → 2 ≤ bufsize
              → fs_read_file_in_dir 16385 w (some (98 ∷ [])) (some (99 ∷ [])) (pos 1) bufsize
                ≡ some (pos 0, 7 ∷ 8 ∷ [])))
        ⊎ (((r ≡ negsuc 5) ⊎ (r ≡ negsuc 4)) × ((i : ℕ) → 2 ≤ i → i < fat_entries → w.fat i ≢ 0)))
unfolding fs_mkdir fs_init find_free_entry
fs_read_file_in_dir-overwrite_example =
    fs_read_file_in_dir-overwrite 16385 one_file 1 2 (98 ∷ []) (99 ∷ []) (7 ∷ 8 ∷ []) (omega arith)
      (omega arith) refl there (omega arith) (omega arith) (omega arith)

fs_write_file_in_dir-IsTree_example :
    (r : ℤ × Volume) × (fs_write_file_in_dir 16385 one_dir
        (some (98 ∷ []))
        (some (99 ∷ []))
        (pos 1)
        six_hundred
      ≡ some r)
    × IsTree r.1.entries
fs_write_file_in_dir-IsTree_example =
    fs_write_file_in_dir-IsTree 16385 one_dir (some (98 ∷ [])) (99 ∷ []) (pos 1) six_hundred
      (omega arith) (omega arith) one_dir-IsTree
