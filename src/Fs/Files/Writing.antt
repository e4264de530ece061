-- ===== src/Fs/Files/Writing.antt =====
-- `fs_write_file_in_dir` always returns, and keeps the tree.
use kernel_c.Prelude.{
  ℕ, ◌*◌, ◌≤◌, ◌<◌, ◌≡◌, inl, inr, refl, sym, ◌∙◌, subst, arith, false, ◌&&◌, Option, none, some, ℤ,
  pos, negsuc, List, length, ltb, ==_self, Bool-cases, Option-cases,
}
use kernel_c.Fs.{fat_entries, cluster_size}
use kernel_c.Fs.Chains.{alloc_cluster_lem}
use kernel_c.Fs.Table.{Volume, max_entries, put, find_free_entry, new_entry}
use kernel_c.Fs.Table.Tree.{IsTree}
use kernel_c.Fs.Files.{
  fs_find_in_dir, make_file, create_in, fs_create_file, write_created, write_named,
  fs_write_file_in_dir,
}
use kernel_c.Fs.Files.Upkeep.{duplicate_ends, fs_create_file-IsTree}
use kernel_c.Fs.Files.Search.{entry_index-below}
use kernel_c.Fs.Files.Made.{make_file_fresh}
use kernel_c.Fs.Files.Ends.{IsStart, Ends, write_contents-Ends, overwrite-Ends}

-- a file that was created starts with one cluster
IsCreated : ℤ × Volume → Type 0
IsCreated (pos i, w) = IsStart w i
IsCreated (negsuc e, w) = Unit

make_file-IsCreated : (v : Volume) (name ext : List ℕ) (p : ℕ) → IsCreated (make_file v name ext p)
unfolding make_file IsCreated
make_file-IsCreated v name ext p = elim (Option-cases (find_free_entry v.entries)) [
  | inl full ↦ rw (make_file, full) tt
  | inr (i, found) ↦ elim (alloc_cluster_lem v.fat) [
    | inl (full, _) ↦ rw (make_file, found, full) tt
    | inr (c, got, lo, hi, _, _) ↦ rw (make_file_fresh v name ext p i c found got lo) (
        let cluster : (put v.entries i (new_entry name ext p false c) i).first_cluster ≡ c =
          rw (==_self i) refl in
        record { lo = rw cluster lo; hi = rw cluster hi; at_end = rw (cluster, ==_self c) refl })
  ]
]

create_in-IsCreated :
    (v : Volume) (name ext : List ℕ) (p : ℕ) (r : ℤ × Volume)
    → create_in v name (some ext) p ≡ some r
    → IsCreated r
unfolding create_in IsCreated
create_in-IsCreated v name ext p r e =
    let (dup, searched) = duplicate_ends v.entries name ext p in
    elim (Bool-cases ((v.entries p).used && (v.entries p).is_dir)) [
      | inr wrong ↦ here (negsuc 1, v) tt (rw (create_in, wrong) at e)
      | inl dir ↦ elim (Bool-cases dup) [
        | inl again ↦ here (negsuc 2, v) tt (rw (create_in, dir, searched, again) at e)
        | inr new ↦
            here (make_file v name ext p) (make_file-IsCreated v name ext p)
              (rw (create_in, dir, searched, new) at e)
      ]
    ]
  where
    here : (q : ℤ × Volume) → IsCreated q → some q ≡ some r → IsCreated r
    here q is same = let s : q ≡ r = cc in subst IsCreated s is

created_in :
    (v : Volume) (name ext : List ℕ) (p : ℕ)
    → p < max_entries
    → fs_create_file v (some name) (some ext) (pos p) ≡ create_in v name (some ext) p
unfolding fs_create_file
created_in v name ext p below = rw (fs_create_file, entry_index-below p below) refl

write_created-Ends :
    (fuel : ℕ) (content : List ℕ) (r : ℤ × Volume)
    → length content ≤ fuel * cluster_size
    → IsCreated r
    → IsTree r.1.entries
    → Ends (write_created fuel content r)
unfolding write_created IsCreated Ends
write_created-Ends fuel content (pos i, w) room start is =
    write_contents-Ends fuel w i content room start is
write_created-Ends fuel content (negsuc e, w) room start is = ((negsuc 3, w), refl, is)

write_named-Ends :
    (fuel : ℕ) (v : Volume) (name ext : List ℕ) (p : ℕ) (content : List ℕ)
    → fat_entries < fuel
    → length content ≤ fuel * cluster_size
    → p < max_entries
    → IsTree v.entries
    → Ends (write_named fuel v name (some ext) p content)
unfolding write_named Ends
write_named-Ends fuel v name ext p content enough room below is =
    elim (Bool-cases ((v.entries p).used && (v.entries p).is_dir)) [
      | inr wrong ↦ ((negsuc 2, v), rw (write_named, wrong) refl, is)
      | inl dir ↦ elim (Option-cases (fs_find_in_dir v.entries (some name) (some ext) (pos p))) [
        | inr (idx, found) ↦
            let (r, ran, tree) = overwrite-Ends fuel v idx content enough room is in
            (r, rw (write_named, dir, found) ran, tree)
        | inl missing ↦
            let (q, made, tree) = fs_create_file-IsTree v (some name) ext (pos p) is in
            let (r, ran, tree') =
              write_created-Ends fuel content q room
                (create_in-IsCreated v name ext p q (sym (created_in v name ext p below) ∙ made))
                tree in
            (r, rw (write_named, dir, missing, made) ran, tree')
      ]
    ]

-- `fs_write_file_in_dir` with an extension that is not NULL always returns, and keeps the tree, whatever
-- it is called with and whatever it returns. Fuel of 16385 rounds, and of one for each 512 bytes, is
-- enough.
pub fs_write_file_in_dir-IsTree :
    (fuel : ℕ) (v : Volume) (name : Option (List ℕ)) (ext : List ℕ) (parent : ℤ) (content : List ℕ)
    → fat_entries < fuel
    → length content ≤ fuel * cluster_size
    → IsTree v.entries
    → (r : ℤ × Volume) × (fs_write_file_in_dir fuel v name (some ext) parent content ≡ some r)
      × IsTree r.1.entries
unfolding fs_write_file_in_dir Ends
fs_write_file_in_dir-IsTree fuel v none ext parent content enough room is =
    ((negsuc 0, v), refl, is)
fs_write_file_in_dir-IsTree fuel v (some name) ext (negsuc n) content enough room is =
    ((negsuc 1, v), refl, is)
fs_write_file_in_dir-IsTree fuel v (some name) ext (pos p) content enough room is =
    elim (Bool-cases (ltb p max_entries)) [
      | inr out ↦ ((negsuc 1, v), rw (fs_write_file_in_dir, out) refl, is)
      | inl below ↦
          let (r, ran, tree) =
            write_named-Ends fuel v name ext p content enough room (ground arith) is in
          (r, rw (fs_write_file_in_dir, below) ran, tree)
    ]
