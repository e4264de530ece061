-- ===== src/Fs/Files.antt =====
-- The operations of fat16/fs.c on files by name: find, list, create, write and read.
pub mod Upkeep
pub mod Search
mod Made
mod Kept
pub mod Named
pub mod Overwrite
mod Ends
pub mod Writing
use kernel_c.Prelude.{
  ℕ, zero, suc, ◌+◌, ◌-◌, Bool, true, false, not, ◌&&◌, ◌||◌, Option, none, some, ◌>>=◌, List, [],
  ◌∷◌, ◌++◌, length, if◌then◌else◌, ◌==◌, ltb, leb, ℤ, pos, negsuc, u32,
}
use kernel_c.Fs.{
  Fat, Disk, set_fat, end_of_chain, alloc_cluster, free_cluster_chain, fs_read, fs_write,
}
use kernel_c.Fs.Table.{
  Entry, Entries, Volume, max_entries, name_max, put, first_entry, find_free_entry, is_child,
  nameeq, entry_index, new_entry,
}

abbrev pub or_empty : Option (List ℕ) → List ℕ
or_empty none = []
or_empty (some s) = s

abbrev pub nonempty : List ℕ → Bool
nonempty [] = false
nonempty (c ∷ s) = true

-- the entry that `fs_find_in_dir` looks for
abbrev pub matches : Entries → List ℕ → List ℕ → ℕ → ℕ → Bool
matches es name ext p i =
    is_child es p i
    && (if (es i).is_dir
        then not (nonempty ext) && nameeq (es i).name name name_max
        else nameeq (es i).name name name_max && nameeq (es i).ext ext name_max)

-- `none` is -1; the entry that goes to `out` is the one at the index
unfoldable pub fs_find_in_dir : Entries → Option (List ℕ) → Option (List ℕ) → ℤ → Option ℕ
unfolding first_entry nameeq
fs_find_in_dir es none ext parent = none
fs_find_in_dir es (some name) ext parent =
    entry_index parent >>= λ p. first_entry (matches es name (or_empty ext) p) max_entries 0

-- the copy in the list: a directory whose name has room gets a `/`
abbrev pub listed : Entry → Entry
listed e = if e.is_dir && ltb (length e.name) 63 then record e { name = e.name ++ 47 ∷ [] } else e

-- `room` is `max_files - count`
pub list_loop : ℕ → Entries → ℕ → ℕ → ℕ → List Entry
list_loop zero es p i room = []
list_loop (suc k) es p i room =
    let skip = list_loop k es p (i + 1) room in
    let taken = list_loop k es p (i + 1) (room - 1) in
    if room == 0 then [] else if is_child es p i then listed (es i) ∷ taken else skip

unfoldable pub fs_get_all_in_dir : Entries → ℤ → ℤ → List Entry
unfolding list_loop
fs_get_all_in_dir es (pos max_files) parent = elim (entry_index parent) [
  | none ↦ []
  | some p ↦ list_loop max_entries es p 0 max_files
]
fs_get_all_in_dir es (negsuc n) parent = []

abbrev pub same_file : Entries → List ℕ → ℕ → ℕ → Bool
same_file es name p i = is_child es p i && not (es i).is_dir && nameeq (es i).name name name_max

-- the search for a duplicate; `none` where it reads `ext` and that is NULL
pub duplicate : Entries → List ℕ → Option (List ℕ) → ℕ → Option Bool
unfolding first_entry nameeq
duplicate es name none p = elim (first_entry (same_file es name p) max_entries 0) [
  | none ↦ some false
  | some i ↦ none
]
duplicate es name (some x) p =
    elim (first_entry (λ i. same_file es name p i && nameeq (es i).ext x name_max) max_entries 0) [
      | none ↦ some false
      | some i ↦ some true
    ]

-- what `fs_create_file` does once there is no duplicate; `*out_cluster` is the entry's `first_cluster`
pub make_file : Volume → List ℕ → List ℕ → ℕ → ℤ × Volume
make_file v name ext p =
    let (c, f) = alloc_cluster v.fat in
    elim (find_free_entry v.entries) [
      | none ↦ (negsuc 3, v)
      | some idx ↦ if c == 0 then (negsuc 4, record v { fat = f }) else (
        pos idx,
        record v {
          entries = put v.entries idx (new_entry name ext p false c);
          fat = set_fat f c end_of_chain;
        },
      )
    ]

pub create_in : Volume → List ℕ → Option (List ℕ) → ℕ → Option (ℤ × Volume)
unfolding duplicate make_file
create_in v name ext p =
    if not ((v.entries p).used && (v.entries p).is_dir)
    then some (negsuc 1, v)
    else elim (duplicate v.entries name ext p) [
      | none ↦ none
      | some dup ↦ if dup then some (negsuc 2, v) else some (make_file v name (or_empty ext) p)
    ]

unfoldable pub fs_create_file : Volume → Option (List ℕ) → Option (List ℕ) → ℤ → Option (ℤ × Volume)
unfolding create_in
fs_create_file v none ext parent = some (negsuc 0, v)
fs_create_file v (some name) ext parent = elim (entry_index parent) [
  | none ↦ some (negsuc 0, v)
  | some p ↦ create_in v name ext p
]

abbrev pub set_file_size : Volume → ℕ → ℕ → Volume
set_file_size v i n = record v { entries = put v.entries i (record (v.entries i) { size = n }) }

-- the end of `fs_write_file_in_dir`, from `if (size == 0)` on
pub write_contents : ℕ → Volume → ℕ → List ℕ → Option (ℤ × Volume)
write_contents fuel v idx content =
    let first = (v.entries idx).first_cluster in
    let v0 = set_file_size v idx 0 in
    let all : Option (ℤ × Volume) = elim (fs_write fuel v.fat v.disk first content) [
      | none ↦ none
      | some w ↦
          let v' = set_file_size (record v { fat = w.fat; disk = w.disk }) idx (u32 w.count) in
          some (if w.count == length content then pos 0 else negsuc 5, v')
    ] in
    if length content == 0
    then some (pos 0, record v0 { fat = set_fat v.fat first end_of_chain })
    else all

-- the result of the call of `alloc_cluster` for a file that exists
pub start_over : ℕ → Volume → ℕ → List ℕ → ℕ × Fat → Option (ℤ × Volume)
unfolding write_contents
start_over fuel v idx content (c, f) =
    let es = put v.entries idx (record (v.entries idx) { first_cluster = c }) in
    let rest =
      write_contents fuel (record v { entries = es; fat = set_fat f c end_of_chain }) idx content in
    if c == 0 then some (negsuc 4, record v { fat = f }) else rest

-- the file exists: its chain is freed and it starts over at a new cluster
pub overwrite : ℕ → Volume → ℕ → List ℕ → Option (ℤ × Volume)
unfolding start_over
overwrite fuel v idx content = free_cluster_chain fuel v.fat (v.entries idx).first_cluster >>= λ f.
    start_over fuel v idx content (alloc_cluster f)

-- the result of the call of `fs_create_file`
pub write_created : ℕ → List ℕ → ℤ × Volume → Option (ℤ × Volume)
unfolding write_contents
write_created fuel content (pos idx, v) = write_contents fuel v idx content
write_created fuel content (negsuc e, v) = some (negsuc 3, v)

pub write_named : ℕ → Volume → List ℕ → Option (List ℕ) → ℕ → List ℕ → Option (ℤ × Volume)
unfolding overwrite write_created
write_named fuel v name ext p content =
    let create =
      (fs_create_file v (some name) ext (pos p) >>= λ made. write_created fuel content made) in
    if not ((v.entries p).used && (v.entries p).is_dir)
    then some (negsuc 2, v)
    else elim (fs_find_in_dir v.entries (some name) ext (pos p)) [
      | none ↦ create
      | some idx ↦ overwrite fuel v idx content
    ]

unfoldable pub fs_write_file_in_dir :
    ℕ → Volume → Option (List ℕ) → Option (List ℕ) → ℤ → List ℕ → Option (ℤ × Volume)
unfolding write_named
fs_write_file_in_dir fuel v none ext parent content = some (negsuc 0, v)
fs_write_file_in_dir fuel v (some name) ext parent content = elim (entry_index parent) [
  | none ↦ some (negsuc 1, v)
  | some p ↦ write_named fuel v name ext p content
]

-- the result and the bytes in `buf`, whose number goes to `*out_size`
unfoldable pub fs_read_file_in_dir :
    ℕ → Volume → Option (List ℕ) → Option (List ℕ) → ℤ → ℕ → Option (ℤ × List ℕ)
fs_read_file_in_dir fuel v name ext parent bufsize =
    elim (fs_find_in_dir v.entries name ext parent) [
      | none ↦ some (negsuc 0, [])
      | some idx ↦
          if ltb bufsize (v.entries idx).size
          then some (negsuc 1, [])
          else elim (fs_read fuel v.fat v.disk (v.entries idx).first_cluster (v.entries idx).size) [
            | none ↦ none
            | some bytes ↦ some (pos 0, bytes)
          ]
    ]
