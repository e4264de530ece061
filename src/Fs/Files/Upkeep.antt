-- ===== src/Fs/Files/Upkeep.antt =====
-- Creating a file keeps the tree.
use kernel_c.Prelude.{
  ℕ, ◌<◌, ◌≡◌, inl, inr, refl, arith, Bool, true, false, ◌&&◌, Option, none, some, ◌==◌, ℤ, pos,
  negsuc, List, ltb, Bool-cases, Option-cases,
}
use kernel_c.Fs.{alloc_cluster}
use kernel_c.Fs.Table.{
  Volume, Entries, max_entries, name_max, first_entry, nameeq, find_free_entry, new_entry,
}
use kernel_c.Fs.Table.Tree.{IsTree, IsTree-new, find_free_entry_lem}
use kernel_c.Fs.Table.Steps.{both}
use kernel_c.Fs.Files.{same_file, duplicate, make_file, create_in, fs_create_file}

pub duplicate_ends :
    (es : Entries) (name ext : List ℕ) (p : ℕ)
    → (dup : Bool) × (duplicate es name (some ext) p ≡ some dup)
unfolding duplicate
duplicate_ends es name ext p =
    elim (Option-cases
      (first_entry (λ i. same_file es name p i && nameeq (es i).ext ext name_max) max_entries 0)) [
        | inl e ↦ (false, rw (duplicate, e) refl)
        | inr (i, e) ↦ (true, rw (duplicate, e) refl)
      ]

make_file-IsTree :
    (v : Volume) (name ext : List ℕ) (p : ℕ)
    → IsTree v.entries
    → p < max_entries
    → (v.entries p).used ≡ true
    → (v.entries p).is_dir ≡ true
    → IsTree (make_file v name ext p).1.entries
unfolding make_file
make_file-IsTree v name ext p is below used dir = elim (Option-cases (find_free_entry v.entries)) [
  | inl full ↦ rw (make_file, full) is
  | inr (idx, found) ↦
      let (lo, _, unused) = find_free_entry_lem v.entries idx found in
      rw (make_file, found)
        (elim (Bool-cases ((alloc_cluster v.fat).0 == 0)) [
          | inl out ↦ rw out is
          | inr got ↦ rw got (
              IsTree-new v.entries idx p (new_entry name ext p false (alloc_cluster v.fat).0) is lo
                unused below used dir refl)
        ])
]

create_in-IsTree :
    (v : Volume) (name ext : List ℕ) (p : ℕ)
    → IsTree v.entries
    → p < max_entries
    → (r : ℤ × Volume) × (create_in v name (some ext) p ≡ some r) × IsTree r.1.entries
unfolding create_in
create_in-IsTree v name ext p is below =
    let (dup, searched) = duplicate_ends v.entries name ext p in
    elim (Bool-cases ((v.entries p).used && (v.entries p).is_dir)) [
      | inr wrong ↦ ((negsuc 1, v), rw (create_in, wrong) refl, is)
      | inl dir ↦ elim (Bool-cases dup) [
        | inl again ↦ ((negsuc 2, v), rw (create_in, dir, searched, again) refl, is)
        | inr new ↦ (
          make_file v name ext p,
          rw (create_in, dir, searched, new) refl,
          make_file-IsTree v name ext p is below
              (both (v.entries p).used (v.entries p).is_dir dir).0
              (both (v.entries p).used (v.entries p).is_dir dir).1,
        )
      ]
    ]

-- `fs_create_file` with an extension that is not NULL always returns, and keeps the tree whatever it
-- returns.
pub fs_create_file-IsTree :
    (v : Volume) (name : Option (List ℕ)) (ext : List ℕ) (parent : ℤ)
    → IsTree v.entries
    → (r : ℤ × Volume) × (fs_create_file v name (some ext) parent ≡ some r) × IsTree r.1.entries
unfolding fs_create_file
fs_create_file-IsTree v none ext parent is = ((negsuc 0, v), refl, is)
fs_create_file-IsTree v (some name) ext (negsuc n) is = ((negsuc 0, v), refl, is)
fs_create_file-IsTree v (some name) ext (pos n) is = elim (Bool-cases (ltb n max_entries)) [
  | inl below ↦
      let (r, ran, tree) = create_in-IsTree v name ext n is (ground arith) in
      (r, rw (fs_create_file, below) ran, tree)
  | inr out ↦ ((negsuc 0, v), rw (fs_create_file, out) refl, is)
]
