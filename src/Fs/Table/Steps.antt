-- ===== src/Fs/Table/Steps.antt =====
-- `fs_init`, `fs_mkdir`, `fs_rmdir` and `fs_remove_entry` keep the tree.
use kernel_c.Prelude.{
  ℕ, zero, suc, ◌<◌, ◌≡◌, ◌⊎◌, inl, inr, refl, ap, arith, Bool, true, false, ◌&&◌, Option, none,
  some, ℤ, pos, negsuc, List, [], ltb, Bool-cases, Option-cases, ◌≢◌, if◌then◌else◌, ==_ne, ==_self,
}
use kernel_c.Fs.{Disk, fat_entries, free_cluster_chain}
use kernel_c.Fs.Chains.{free_cluster_chain_ends}
use kernel_c.Fs.Table.{
  Entries, Volume, max_entries, set_used, first_entry, find_free_entry, has_children, same_dir,
  new_entry, mkdir_in, fs_mkdir, rmdir_at, fs_rmdir, remove_at, fs_remove_entry, inner_index,
  fs_init,
}
use kernel_c.Fs.Table.Tree.{IsTree, IsTree-new, IsTree-gone, find_free_entry_lem, has_children_lem}

-- After `fs_init` the table is a tree, whose only entry is the root.
pub fs_init-IsTree :
    (d : Disk)
    → IsTree (fs_init d).entries × ((i : ℕ) → 0 < i → ((fs_init d).entries i).used ≡ false)
unfolding fs_init
fs_init-IsTree d = (
  record {
    root_used = refl;
    root_dir = refl;
    root_parent = refl;
    parent_below = λ i lo hi u. absurd (ground arith);
    parent_used = λ i lo hi u. absurd (ground arith);
    parent_dir = λ i lo hi u. absurd (ground arith);
    depth = λ i. 0;
    parent_above = λ i lo hi u. absurd (ground arith);
  },
  λ i lo. ground arith,
)

pub both : (a b : Bool) → (a && b) ≡ true → (a ≡ true) × (b ≡ true)
both true true e = (refl, refl)
both true false e = absurd cc
both false b e = absurd cc

mkdir_in-IsTree :
    (v : Volume) (name : List ℕ) (p : ℕ)
    → IsTree v.entries
    → p < max_entries
    → IsTree (mkdir_in v name p).1.entries
unfolding mkdir_in
mkdir_in-IsTree v name p is below = elim (Bool-cases ((v.entries p).used && (v.entries p).is_dir)) [
  | inr wrong ↦ rw wrong is
  | inl dir ↦ rw dir elim (Option-cases (first_entry (same_dir v.entries name p) max_entries 0)) [
    | inr (i, e) ↦ rw e is
    | inl e ↦ rw e elim (Option-cases (find_free_entry v.entries)) [
      | inl full ↦ rw full is
      | inr (idx, found) ↦
          let (lo, _, unused) = find_free_entry_lem v.entries idx found in
          rw found (
            IsTree-new v.entries idx p (new_entry name [] p true 0) is lo unused below
              (both (v.entries p).used (v.entries p).is_dir dir).0
              (both (v.entries p).used (v.entries p).is_dir dir).1 refl)
    ]
  ]
]

-- `fs_mkdir` keeps the tree, whatever it is called with and whatever it returns.
pub fs_mkdir-IsTree :
    (v : Volume) (name : Option (List ℕ)) (parent : ℤ)
    → IsTree v.entries
    → IsTree (fs_mkdir v name parent).1.entries
unfolding fs_mkdir
fs_mkdir-IsTree v none parent is = is
fs_mkdir-IsTree v (some name) (negsuc n) is = is
fs_mkdir-IsTree v (some name) (pos n) is = elim (Bool-cases (ltb n max_entries)) [
  | inl below ↦ rw (fs_mkdir, below) (mkdir_in-IsTree v name n is (ground arith))
  | inr out ↦ rw (fs_mkdir, out) is
]

IsTree-without :
    (es : Entries) (i : ℕ)
    → IsTree es
    → 0 < i
    → i < max_entries
    → (has_children es i ≡ false) ⊎ ((es i).is_dir ≡ false)
    → IsTree (set_used es i false)
IsTree-without es i is lo hi (inl childless) =
    IsTree-gone es i is lo (λ j _ jhi u. has_children_lem es i hi childless j jhi u)
IsTree-without es i is lo hi (inr file) =
    IsTree-gone es i is lo
      (λ j jlo jhi u z. cc (is.parent_dir j jlo jhi u, ap (λ k. (es k).is_dir) z, file))

rmdir_at-IsTree :
    (v : Volume) (i : ℕ)
    → IsTree v.entries
    → 0 < i
    → i < max_entries
    → IsTree (rmdir_at v i).1.entries
unfolding rmdir_at
rmdir_at-IsTree v i is lo hi = elim (Bool-cases ((v.entries i).used && (v.entries i).is_dir)) [
  | inr wrong ↦ rw wrong is
  | inl dir ↦ rw dir elim (Bool-cases (has_children v.entries i)) [
    | inl full ↦ rw full is
    | inr childless ↦ rw childless (IsTree-without v.entries i is lo hi (inl childless))
  ]
]

pub inner_index_bounds :
    (z : ℤ)
    → (inner_index z ≡ none) ⊎ ((i : ℕ) × (inner_index z ≡ some i) × (0 < i) × (i < max_entries))
inner_index_bounds (negsuc n) = inl refl
inner_index_bounds (pos zero) = inl refl
inner_index_bounds (pos (suc n)) = elim (Bool-cases (ltb (suc n) max_entries)) [
  | inl below ↦ inr (suc n, ground arith, omega arith, ground arith)
  | inr out ↦ inl (rw out refl)
]

-- `fs_rmdir` keeps the tree, whatever it is called with and whatever it returns.
pub fs_rmdir-IsTree :
    (v : Volume) (dir_idx : ℤ) → IsTree v.entries → IsTree (fs_rmdir v dir_idx).1.entries
unfolding fs_rmdir
fs_rmdir-IsTree v dir_idx is = elim (inner_index_bounds dir_idx) [
  | inl out ↦ rw (fs_rmdir, out) is
  | inr (i, e, lo, hi) ↦ rw (fs_rmdir, e) (rmdir_at-IsTree v i is lo hi)
]

-- an entry that was removed, with its chain of clusters if it was a file
pub record Removed (fuel : ℕ) (v w : Volume) (i : ℕ) : Type 0 where
  pub was_used : (v.entries i).used ≡ true
  pub gone : (w.entries i).used ≡ false
  pub others : (j : ℕ) → j ≢ i → w.entries j ≡ v.entries j
  pub childless :
      (v.entries i).is_dir ≡ true
      → (j : ℕ) → j < max_entries
      → (v.entries j).used ≡ true
      → (v.entries j).parent ≢ i
  pub chain :
      (if (v.entries i).is_dir
        then some v.fat
        else free_cluster_chain fuel v.fat (v.entries i).first_cluster)
      ≡ some w.fat
  pub same_disk : w.disk ≡ v.disk

-- a failure that changes nothing, or the removal
abbrev pub Outcome : ℕ → Volume → ℕ → ℤ × Volume → Type 0
Outcome fuel v i r = ((c : ℕ) × (r ≡ (negsuc c, v))) ⊎ ((r.0 ≡ pos 0) × Removed fuel v r.1 i)

set_used-others : (es : Entries) (i j : ℕ) → j ≢ i → set_used es i false j ≡ es j
set_used-others es i j ne = rw (==_ne j i ne) refl

remove_at-IsTree :
    (fuel : ℕ) (v : Volume) (i : ℕ)
    → fat_entries < fuel
    → IsTree v.entries
    → 0 < i
    → i < max_entries
    → (r : ℤ × Volume) × (remove_at fuel v i ≡ some r) × IsTree r.1.entries × Outcome fuel v i r
unfolding remove_at
remove_at-IsTree fuel v i room is lo hi =
    let (f, freed) = free_cluster_chain_ends fuel v.fat (v.entries i).first_cluster room in
    elim (Bool-cases (v.entries i).used) [
      | inr unused ↦ ((negsuc 1, v), simp unused refl, is, inl (1, refl))
      | inl used ↦ elim (Bool-cases (v.entries i).is_dir) [
        | inr file ↦ (
          (pos 0, record v { fat = f; entries = set_used v.entries i false }),
          simp (used, file, freed) refl,
          IsTree-without v.entries i is lo hi (inr file),
          inr (
            refl,
            record {
              was_used = used;
              gone = rw (==_self i) refl;
              others = set_used-others v.entries i;
              childless = λ d. absurd (cc (d, file));
              chain = rw file freed;
              same_disk = refl;
            },
          ),
        )
        | inl dir ↦ elim (Bool-cases (has_children v.entries i)) [
          | inl full ↦ ((negsuc 2, v), simp (used, dir, full) refl, is, inl (2, refl))
          | inr childless ↦ (
            (pos 0, record v { entries = set_used v.entries i false }),
            simp (used, dir, childless) refl,
            IsTree-without v.entries i is lo hi (inl childless),
            inr (
              refl,
              record {
                was_used = used;
                gone = rw (==_self i) refl;
                others = set_used-others v.entries i;
                childless = λ d. has_children_lem v.entries i hi childless;
                chain = rw dir refl;
                same_disk = refl;
              },
            ),
          )
        ]
      ]
    ]

-- On a volume whose entries are a tree `fs_remove_entry` returns, with 16385 rounds of fuel, and keeps
-- the tree. It fails and changes nothing, or returns 0 and the entry, which was in use and no parent, is
-- not in use any more: all others are as before, the chain of a file is freed, and the table of
-- clusters is as before if it was a directory.
pub fs_remove_entry-IsTree :
    (fuel : ℕ) (v : Volume) (idx : ℤ)
    → fat_entries < fuel
    → IsTree v.entries
    → (r : ℤ × Volume) × (fs_remove_entry fuel v idx ≡ some r)
      × IsTree r.1.entries
      × (((c : ℕ) × (r ≡ (negsuc c, v)))
          ⊎ ((i : ℕ) × (inner_index idx ≡ some i) × (r.0 ≡ pos 0) × Removed fuel v r.1 i))
unfolding fs_remove_entry
fs_remove_entry-IsTree fuel v idx room is = elim (inner_index_bounds idx) [
  | inl out ↦ ((negsuc 0, v), rw (fs_remove_entry, out) refl, is, inl (0, refl))
  | inr (i, e, lo, hi) ↦
      let (r, ran, tree, outcome) = remove_at-IsTree fuel v i room is lo hi in
      (
        r,
        rw (fs_remove_entry, e) ran,
        tree,
        elim outcome [ inl failed ↦ inl failed | inr (ok, removed) ↦ inr (i, e, ok, removed) ],
      )
]
