-- ===== src/Fs/Files/Made.antt =====
-- The steps of a write of a new file by name, and of the read that follows it.
use kernel_c.Prelude.{
  ℕ, ◌^◌, ◌≤◌, ◌<◌, ◌≡◌, ◌≢◌, inl, inr, refl, ap, ◌∙◌, arith, true, false, not, ◌&&◌, none, some,
  List, [], ◌∷◌, length, if◌then◌else◌, ◌==◌, ==_self, ==_ne, ℤ, pos, negsuc, u32, le→not_ltb, sym,
  Option-cases,
}
use kernel_c.Fs.{
  Written, fat_entries, end_of_chain, set_fat, alloc_cluster, take, fs_read, fs_write,
}
use kernel_c.Fs.Chains.{alloc_cluster_lem}
use kernel_c.Fs.Table.{Volume, max_entries, put, first_entry, find_free_entry, new_entry}
use kernel_c.Fs.Table.Tree.{first_entry-none, find_free_entry_lem}
use kernel_c.Fs.Files.{
  matches, fs_find_in_dir, duplicate, make_file, create_in, fs_create_file, set_file_size,
  write_contents, write_created, write_named, fs_write_file_in_dir, fs_read_file_in_dir,
}
use kernel_c.Fs.Files.Search.{duplicate-none, fs_find_in_dir_entry, entry_index-below}

-- what the end of `fs_write_file_in_dir` leaves of the volume
abbrev pub stored_in : Volume → ℕ → Written → Volume
stored_in v idx s = set_file_size (record v { fat = s.fat; disk = s.disk }) idx (u32 s.count)

pub write_contents-ends :
    (fuel : ℕ) (v : Volume) (idx : ℕ) (content : List ℕ) (s : Written)
    → 0 < length content
    → fs_write fuel v.fat v.disk (v.entries idx).first_cluster content ≡ some s
    → write_contents fuel v idx content
      ≡ some (if s.count == length content then pos 0 else negsuc 5, stored_in v idx s)
unfolding write_contents
write_contents-ends fuel v idx content s some_left e =
    rw (==_ne (length content) 0 (λ z. omega (arith, some_left, z)), e) refl

pub make_file_fresh :
    (v : Volume) (name ext : List ℕ) (p i c : ℕ)
    → find_free_entry v.entries ≡ some i
    → alloc_cluster v.fat ≡ (c, set_fat v.fat c end_of_chain)
    → 2 ≤ c
    → make_file v name ext p ≡ (
      pos i,
      record v {
        entries = put v.entries i (new_entry name ext p false c);
        fat = set_fat (set_fat v.fat c end_of_chain) c end_of_chain;
      },
    )
unfolding make_file
make_file_fresh v name ext p i c found got le =
    rw (make_file, found, got, ==_ne c 0 (λ z. omega (arith, le, z))) refl

-- the file after its creation, and what the write of its contents comes to
pub record Made (v : Volume) (name ext : List ℕ) (p : ℕ) : Type 0 where
  pub idx : ℕ
  pub cluster : ℕ
  pub after : Volume
  pub idx_lo : 0 < idx
  pub idx_hi : idx < max_entries
  pub unused : (v.entries idx).used ≡ false
  pub lo : 2 ≤ cluster
  pub hi : cluster < fat_entries
  pub free : v.fat cluster ≡ 0
  pub made : make_file v name ext p ≡ (pos idx, after)
  pub here : after.entries idx ≡ new_entry name ext p false cluster
  pub others : (j : ℕ) → j ≢ idx → after.entries j ≡ v.entries j
  pub at_end : after.fat cluster ≡ end_of_chain
  pub fat_same : (q : ℕ) → q ≢ cluster → after.fat q ≡ v.fat q
  pub same_disk : after.disk ≡ v.disk

pub make_file-Made :
    (v : Volume) (name ext : List ℕ) (p j q : ℕ)
    → 0 < j
    → j < max_entries
    → (v.entries j).used ≡ false
    → 2 ≤ q
    → q < fat_entries
    → v.fat q ≡ 0
    → Made v name ext p
unfolding find_free_entry
make_file-Made v name ext p j q jlo jhi unused lo hi free =
    elim (Option-cases (find_free_entry v.entries)) [
      | inl full ↦
          let taken : not (v.entries j).used ≡ false =
            first_entry-none (λ i. not (v.entries i).used) 511 1 full j (omega (arith, jlo))
              (omega (arith, jhi)) in
          absurd (ground arith)
      | inr (i, found) ↦ elim (alloc_cluster_lem v.fat) [
        | inl full ↦ absurd (full.1 q lo hi free)
        | inr (c, got, clo, chi, cfree, _) ↦
            let (ilo, ihi, iunused) = find_free_entry_lem v.entries i found in
            record {
              idx = i;
              cluster = c;
              after = record v {
                entries = put v.entries i (new_entry name ext p false c);
                fat = set_fat (set_fat v.fat c end_of_chain) c end_of_chain;
              };
              idx_lo = ilo;
              idx_hi = ihi;
              unused = iunused;
              lo = clo;
              hi = chi;
              free = cfree;
              made = make_file_fresh v name ext p i c found got clo;
              here = rw (==_self i) refl;
              others = λ k ne. rw (==_ne k i ne) refl;
              at_end = rw (==_self c) refl;
              fat_same = λ k ne. rw (==_ne k c ne) refl;
              same_disk = refl;
            }
      ]
    ]

create_in_fresh :
    (v : Volume) (name ext : List ℕ) (p : ℕ) (r : ℤ × Volume)
    → ((v.entries p).used && (v.entries p).is_dir) ≡ true
    → duplicate v.entries name (some ext) p ≡ some false
    → make_file v name ext p ≡ r
    → create_in v name (some ext) p ≡ some r
unfolding create_in
create_in_fresh v name ext p r dir fresh made = rw (create_in, dir, fresh) (ap some made)

fs_create_file_fresh :
    (v : Volume) (name ext : List ℕ) (p : ℕ)
    → p < max_entries
    → ((v.entries p).used && (v.entries p).is_dir) ≡ true
    → first_entry (matches v.entries name ext p) max_entries 0 ≡ none
    → (m : Made v name ext p)
    → fs_create_file v (some name) (some ext) (pos p) ≡ some (pos m.idx, m.after)
unfolding fs_create_file
fs_create_file_fresh v name ext p below dir missing m =
    rw (fs_create_file, entry_index-below p below)
      (create_in_fresh v name ext p (pos m.idx, m.after) dir
        (duplicate-none v.entries name ext p missing) m.made)

pub fs_write_file_in_dir_fresh :
    (fuel : ℕ) (v : Volume) (name ext : List ℕ) (p : ℕ) (content : List ℕ) (s : Written)
    → p < max_entries
    → ((v.entries p).used && (v.entries p).is_dir) ≡ true
    → fs_find_in_dir v.entries (some name) (some ext) (pos p) ≡ none
    → 0 < length content
    → (m : Made v name ext p) → fs_write fuel m.after.fat m.after.disk m.cluster content ≡ some s
    → fs_write_file_in_dir fuel v (some name) (some ext) (pos p) content
      ≡ some (if s.count == length content then pos 0 else negsuc 5, stored_in m.after m.idx s)
unfolding fs_write_file_in_dir write_named write_created
fs_write_file_in_dir_fresh fuel v name ext p content s below dir missing some_left m stored =
    rw
      (
        fs_write_file_in_dir,
        entry_index-below p below,
        write_named,
        dir,
        missing,
        fs_create_file_fresh v name ext p below dir
            (sym (fs_find_in_dir_entry v.entries name ext p below) ∙ missing) m,
      )
      (write_contents-ends fuel m.after m.idx content s some_left (rw (m.here) stored))

pub stored_file-read :
    (fuel : ℕ) (w : Volume) (name ext : List ℕ) (p i c size : ℕ) (content : List ℕ) (bufsize : ℕ)
    → fs_find_in_dir w.entries (some name) (some ext) (pos p) ≡ some i
    → w.entries i ≡ record (new_entry name ext p false c) { size = size }
    → fs_read fuel w.fat w.disk c size ≡ some content
    → size ≤ bufsize
    → fs_read_file_in_dir fuel w (some name) (some ext) (pos p) bufsize ≡ some (pos 0, content)
unfolding fs_read_file_in_dir
stored_file-read fuel w name ext p i c size content bufsize found here read fits =
    rw (fs_read_file_in_dir, found, here, le→not_ltb bufsize size fits, read) refl

pub stored_in-other :
    (v : Volume) (i j : ℕ) (s : Written) → j ≢ i → (stored_in v i s).entries j ≡ v.entries j
stored_in-other v i j s ne = rw (==_ne j i ne) refl

pub stored_in_self :
    (v : Volume) (i : ℕ) (s : Written)
    → (stored_in v i s).entries i ≡ record (v.entries i) { size = u32 s.count }
stored_in_self v i s = rw (==_self i) refl

pub take_all : (bytes : List ℕ) → take (length bytes) bytes ≡ bytes
take_all [] = refl
take_all (b ∷ bytes) = ap (◌∷◌ b) (take_all bytes)

pub written_all : (n k : ℕ) → n ≡ k → ◌≡◌ {A = ℤ} (if n == k then pos 0 else negsuc 5) (pos 0)
written_all n k e = rw (e, ==_self k) refl

pub written_part : (n k : ℕ) → n ≢ k → ◌≡◌ {A = ℤ} (if n == k then pos 0 else negsuc 5) (negsuc 5)
written_part n k ne = rw (==_ne n k ne) refl

pub small_u32 : (n : ℕ) → n < 2 ^ 32 → u32 n ≡ n
small_u32 n lt = omega (arith, lt)
