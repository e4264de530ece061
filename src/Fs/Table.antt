-- ===== src/Fs/Table.antt =====
-- The table of entries of fat16/fs.c, a tree by parent indices, and the operations by name. A C string
-- is the list of its bytes up to the NUL, and a pointer that may be NULL is an `Option`. A result is
-- the code's `int` with the new state; `none` stands for a read through a NULL `ext`, or for a
-- loop along a chain that ran out of fuel.
pub mod Tree
pub mod Steps
pub mod Names
use kernel_c.Prelude.{
  ℕ, zero, suc, ◌+◌, ◌-◌, Bool, true, false, not, ◌&&◌, ◌||◌, Option, none, some, ◌>>=◌, List, [],
  ◌∷◌, ◌++◌, length, if◌then◌else◌, ◌==◌, ltb, leb, ℤ, pos, negsuc,
}
use kernel_c.Fs.{
  Fat, Disk, take, set_fat, end_of_chain, alloc_cluster, free_cluster_chain, fs_read, fs_write,
}

abbrev pub max_entries : ℕ
max_entries = 512

abbrev pub name_max : ℕ
name_max = 64

-- `parent` is an `int16_t`: the root's -1 is 0xFFFF, which is no index
pub record Entry : Type 0 where
  pub name : List ℕ
  pub ext : List ℕ
  pub parent : ℕ
  pub first_cluster : ℕ
  pub size : ℕ
  pub used : Bool
  pub is_dir : Bool

abbrev pub Entries : Type 0
Entries = ℕ → Entry

-- the file's globals and the RAM disk
pub record Volume : Type 0 where
  pub entries : Entries
  pub fat : Fat
  pub disk : Disk

abbrev pub zeroed : Entry
zeroed = record {
  name = [];
  ext = [];
  parent = 0;
  first_cluster = 0;
  size = 0;
  used = false;
  is_dir = false;
}

abbrev pub put : Entries → ℕ → Entry → Entries
put es i e j = if j == i then e else es j

abbrev pub root : Entry
root = record zeroed { name = 47 ∷ []; parent = 0xFFFF; used = true; is_dir = true }

unfoldable pub fs_init : Disk → Volume
fs_init d = record { entries = put (λ i. zeroed) 0 root; fat = λ i. 0; disk = d }

-- `for (; i < FS_MAX_ENTRIES; ++i)` that returns the first index with a property, by the rounds left
unfoldable pub first_entry : (ℕ → Bool) → ℕ → ℕ → Option ℕ
first_entry test zero i = none
first_entry test (suc k) i =
    let rest = first_entry test k (i + 1) in if test i then some i else rest

unfoldable pub find_free_entry : Entries → Option ℕ
unfolding first_entry
find_free_entry es = first_entry (λ i. not (es i).used) 511 1

abbrev pub is_child : Entries → ℕ → ℕ → Bool
is_child es p i = (es i).used && ((es i).parent == p)

unfoldable pub has_children : Entries → ℕ → Bool
unfolding first_entry
has_children es idx =
    if leb max_entries idx
    then false
    else elim (first_entry (is_child es idx) max_entries 0) [ none ↦ false | some i ↦ true ]

-- the comparison of at most `n` characters
unfoldable pub nameeq : List ℕ → List ℕ → ℕ → Bool
nameeq a b zero = true
nameeq [] [] (suc n) = true
nameeq [] (d ∷ b) (suc n) = false
nameeq (c ∷ a) [] (suc n) = false
nameeq (c ∷ a) (d ∷ b) (suc n) = let rest = nameeq a b n in if c == d then rest else false

-- an `int` that is an index of the table
abbrev pub entry_index : ℤ → Option ℕ
entry_index (pos n) = if ltb n max_entries then some n else none
entry_index (negsuc n) = none

-- what the two functions that make an entry write: `strncpy` stops at 63 characters
abbrev pub new_entry : List ℕ → List ℕ → ℕ → Bool → ℕ → Entry
new_entry n x p dir c = record {
  name = take 63 n;
  ext = take 63 x;
  parent = p;
  first_cluster = c;
  size = 0;
  used = true;
  is_dir = dir;
}

abbrev pub same_dir : Entries → List ℕ → ℕ → ℕ → Bool
same_dir es name p i = is_child es p i && (es i).is_dir && nameeq (es i).name name name_max

-- `fs_mkdir` behind its first test
pub mkdir_in : Volume → List ℕ → ℕ → ℤ × Volume
unfolding first_entry nameeq
mkdir_in v name p =
    let make : ℤ × Volume = elim (find_free_entry v.entries) [
      | none ↦ (negsuc 3, v)
      | some idx ↦ (pos idx, record v { entries = put v.entries idx (new_entry name [] p true 0) })
    ] in
    if not ((v.entries p).used && (v.entries p).is_dir)
    then (negsuc 1, v)
    else elim (first_entry (same_dir v.entries name p) max_entries 0) [
      | none ↦ make
      | some i ↦ (negsuc 2, v)
    ]

unfoldable pub fs_mkdir : Volume → Option (List ℕ) → ℤ → ℤ × Volume
unfolding mkdir_in
fs_mkdir v none parent = (negsuc 0, v)
fs_mkdir v (some name) parent = elim (entry_index parent) [
  | none ↦ (negsuc 0, v)
  | some p ↦ mkdir_in v name p
]

abbrev pub set_used : Entries → ℕ → Bool → Entries
set_used es i b = put es i (record (es i) { used = b })

-- `fs_rmdir` behind its first test
pub rmdir_at : Volume → ℕ → ℤ × Volume
rmdir_at v i =
    if not ((v.entries i).used && (v.entries i).is_dir)
    then (negsuc 1, v)
    else if has_children v.entries i
    then (negsuc 2, v)
    else (pos 0, record v { entries = set_used v.entries i false })

-- `idx <= 0 || idx >= FS_MAX_ENTRIES`
abbrev pub inner_index : ℤ → Option ℕ
inner_index i = entry_index i >>= λ n. if n == 0 then none else some n

unfoldable pub fs_rmdir : Volume → ℤ → ℤ × Volume
unfolding rmdir_at
fs_rmdir v dir_idx = elim (inner_index dir_idx) [ none ↦ (negsuc 0, v) | some i ↦ rmdir_at v i ]

-- `fs_remove_entry` behind its first test
pub remove_at : ℕ → Volume → ℕ → Option (ℤ × Volume)
remove_at fuel v i =
    let gone = set_used v.entries i false in
    let remove_file : Option (ℤ × Volume) =
      elim (free_cluster_chain fuel v.fat (v.entries i).first_cluster) [
        | none ↦ none
        | some f ↦ some (pos 0, record v { fat = f; entries = gone })
      ] in
    if not (v.entries i).used
    then some (negsuc 1, v)
    else if not (v.entries i).is_dir
    then remove_file
    else if has_children v.entries i
    then some (negsuc 2, v)
    else some (pos 0, record v { entries = gone })

unfoldable pub fs_remove_entry : ℕ → Volume → ℤ → Option (ℤ × Volume)
unfolding remove_at
fs_remove_entry fuel v idx = elim (inner_index idx) [
  | none ↦ some (negsuc 0, v)
  | some i ↦ remove_at fuel v i
]
