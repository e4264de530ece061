-- ===== src/Fs/Files/Overwrite.antt =====
-- A file that is there already is written again by name and then read by name.
use kernel_c.Prelude.{
  ℕ, ◌*◌, ◌^◌, ◌≤◌, ◌<◌, ◌≡◌, ◌≢◌, ◌⊎◌, inl, inr, refl, ap, ◌∙◌, arith, true, ◌&&◌, some, ◌>>=◌,
  List, length, if◌then◌else◌, ◌==◌, ==_self, ==_ne, ℤ, pos, negsuc, u32, le→not_ltb, sym,
  ℕ_discrete,
}
use kernel_c.Fs.{
  Fat, free_cluster_chain, Written, fat_entries, end_of_chain, cluster_size, set_fat, alloc_cluster,
  take, fs_read, fs_write,
}
use kernel_c.Fs.Chains.{alloc_cluster_lem, free_cluster_chain_ends}
use kernel_c.Fs.Roundtrip.{fs_read-write}
use kernel_c.Fs.Table.{Entry, Volume, max_entries, put}
use kernel_c.Fs.Files.{
  matches, fs_find_in_dir, overwrite, start_over, write_named, fs_write_file_in_dir,
  fs_read_file_in_dir,
}
use kernel_c.Fs.Files.Search.{first_entry-same, fs_find_in_dir_entry, entry_index-below}
use kernel_c.Fs.Files.Made.{
  stored_in, write_contents-ends, take_all, written_all, written_part, small_u32,
}

-- the volume of a file that starts over at the cluster `c`
abbrev emptied : Volume → Fat → ℕ → ℕ → Volume
emptied v f idx c = record v {
  entries = put v.entries idx (record (v.entries idx) { first_cluster = c });
  fat = set_fat (set_fat f c end_of_chain) c end_of_chain;
}

rewritten_self :
    (v : Volume) (f : Fat) (idx c : ℕ) (s : Written)
    → (stored_in (emptied v f idx c) idx s).entries idx
      ≡ record (v.entries idx) { first_cluster = c; size = u32 s.count }
rewritten_self v f idx c s = rw (==_self idx) refl

rewritten-other :
    (v : Volume) (f : Fat) (idx c j : ℕ) (s : Written)
    → j ≢ idx
    → (stored_in (emptied v f idx c) idx s).entries j ≡ v.entries j
rewritten-other v f idx c j s ne = rw (==_ne j idx ne) refl

rewritten-matches :
    (v : Volume) (f : Fat) (idx c : ℕ) (s : Written) (name ext : List ℕ) (p j : ℕ)
    → matches (stored_in (emptied v f idx c) idx s).entries name ext p j
      ≡ matches v.entries name ext p j
rewritten-matches v f idx c s name ext p j = elim (ℕ_discrete j idx) [
  | yes same ↦ rw (same, rewritten_self v f idx c s) refl
  | no ne ↦ rw (rewritten-other v f idx c j s ne) refl
]

overwritten-read :
    (fuel : ℕ) (w : Volume) (e : Entry) (name ext : List ℕ) (p i c size : ℕ) (content : List ℕ)
    (bufsize : ℕ)
    → fs_find_in_dir w.entries (some name) (some ext) (pos p) ≡ some i
    → w.entries i ≡ record e { first_cluster = c; size = size }
    → fs_read fuel w.fat w.disk c size ≡ some content
    → size ≤ bufsize
    → fs_read_file_in_dir fuel w (some name) (some ext) (pos p) bufsize ≡ some (pos 0, content)
unfolding fs_read_file_in_dir
overwritten-read fuel w e name ext p i c size content bufsize found here read fits =
    rw (fs_read_file_in_dir, found, here, le→not_ltb bufsize size fits, read) refl

start_over-ends :
    (fuel : ℕ) (v : Volume) (idx : ℕ) (content : List ℕ) (f : Fat) (c : ℕ) (s : Written)
    → 2 ≤ c
    → 0 < length content
    → fs_write fuel (emptied v f idx c).fat v.disk c content ≡ some s
    → start_over fuel v idx content (c, set_fat f c end_of_chain)
      ≡ some (
        if s.count == length content then pos 0 else negsuc 5,
        stored_in (emptied v f idx c) idx s,
      )
unfolding start_over
start_over-ends fuel v idx content f c s le some_left stored =
    rw (start_over, ==_ne c 0 (λ z. omega (arith, le, z)))
      (write_contents-ends fuel (emptied v f idx c) idx content s some_left
        (rw (==_self idx) stored))

overwrite-freed :
    (fuel : ℕ) (v : Volume) (idx : ℕ) (content : List ℕ) (f : Fat) (got : ℕ × Fat)
    → free_cluster_chain fuel v.fat (v.entries idx).first_cluster ≡ some f
    → alloc_cluster f ≡ got
    → overwrite fuel v idx content ≡ start_over fuel v idx content got
unfolding overwrite
overwrite-freed fuel v idx content f got freed e =
    ap (λ o. o >>= λ g. start_over fuel v idx content (alloc_cluster g)) freed
    ∙ ap (start_over fuel v idx content) e

write_named-found :
    (fuel : ℕ) (v : Volume) (name ext : List ℕ) (p idx : ℕ) (content : List ℕ)
    → p < max_entries
    → ((v.entries p).used && (v.entries p).is_dir) ≡ true
    → fs_find_in_dir v.entries (some name) (some ext) (pos p) ≡ some idx
    → fs_write_file_in_dir fuel v (some name) (some ext) (pos p) content
      ≡ overwrite fuel v idx content
unfolding fs_write_file_in_dir write_named
write_named-found fuel v name ext p idx content below dir found =
    rw (fs_write_file_in_dir, entry_index-below p below, write_named, dir, found) refl

overwritten_file-read :
    (fuel : ℕ) (v : Volume) (f : Fat) (c idx p : ℕ) (name ext content : List ℕ) (s : Written)
    → p < max_entries
    → fs_find_in_dir v.entries (some name) (some ext) (pos p) ≡ some idx
    → length content < 2 ^ 32
    → s.count ≡ length content
    → fs_read fuel s.fat s.disk c s.count ≡ some (take s.count content)
    → (bufsize : ℕ) → length content ≤ bufsize
    → fs_read_file_in_dir fuel
        (stored_in (emptied v f idx c) idx s)
        (some name)
        (some ext)
        (pos p)
        bufsize
      ≡ some (pos 0, content)
overwritten_file-read fuel v f c idx p name ext content s below found word all readable bufsize
      fits =
    let w : Volume = stored_in (emptied v f idx c) idx s in
    overwritten-read fuel w (v.entries idx) name ext p idx c s.count content bufsize
      (fs_find_in_dir_entry w.entries name ext p below
        ∙ first_entry-same (matches w.entries name ext p) (matches v.entries name ext p) max_entries
            0 (rewritten-matches v f idx c s name ext p)
        ∙ sym (fs_find_in_dir_entry v.entries name ext p below)
        ∙ found)
      (rewritten_self v f idx c s
        ∙ ap (λ n. record (v.entries idx) { first_cluster = c; size = n })
            (small_u32 s.count (omega (arith, all, word))))
      (readable ∙ ap some (ap (λ n. take n content) all ∙ take_all content))
      (omega (arith, all, fits))

-- Where a directory has a file of this name and extension, `fs_write_file_in_dir` of one byte or more
-- always returns, and the result is 0, -6 or -5. If it is 0, `fs_read_file_in_dir` of that name
-- with a buffer of at least that size gives back exactly the new bytes; it is -6 or -5 only where no
-- cluster is left.
pub fs_read_file_in_dir-overwrite :
    (fuel : ℕ) (v : Volume) (p idx : ℕ) (name ext content : List ℕ)
    → fat_entries < fuel
    → p < max_entries
    → ((v.entries p).used && (v.entries p).is_dir) ≡ true
    → fs_find_in_dir v.entries (some name) (some ext) (pos p) ≡ some idx
    → 0 < length content
    → length content ≤ fuel * cluster_size
    → length content < 2 ^ 32
    → (r : ℤ) × (w : Volume) × (fs_write_file_in_dir fuel v (some name) (some ext) (pos p) content
        ≡ some (r, w))
      × (((r ≡ pos 0)
            × ((bufsize : ℕ)
                → length content ≤ bufsize
                → fs_read_file_in_dir fuel w (some name) (some ext) (pos p) bufsize
                  ≡ some (pos 0, content)))
          ⊎ (((r ≡ negsuc 5) ⊎ (r ≡ negsuc 4)) × ((i : ℕ) → 2 ≤ i → i < fat_entries → w.fat i ≢ 0)))
unfolding start_over
fs_read_file_in_dir-overwrite fuel v p idx name ext content enough below dir found some_left room
      word =
    let (f, freed) = free_cluster_chain_ends fuel v.fat (v.entries idx).first_cluster enough in
    elim (alloc_cluster_lem f) [
      | inl full ↦ (
        negsuc 4,
        record v { fat = f },
        write_named-found fuel v name ext p idx content below dir found
            ∙ overwrite-freed fuel v idx content f (0, f) freed full.0,
        inr (inr refl, full.1),
      )
      | inr (c, got, lo, hi, _, _) ↦
          let (s, stored, readable, complete, _, _) =
            fs_read-write fuel (emptied v f idx c).fat v.disk c content lo hi (rw (==_self c) refl)
              some_left room in
          (
            if s.count == length content then pos 0 else negsuc 5,
            stored_in (emptied v f idx c) idx s,
            write_named-found fuel v name ext p idx content below dir found
                ∙ overwrite-freed fuel v idx content f (c, set_fat f c end_of_chain) freed got
                ∙ start_over-ends fuel v idx content f c s lo some_left stored,
            elim (ℕ_discrete s.count (length content)) [
              | yes all ↦ inl (
                written_all s.count (length content) all,
                overwritten_file-read fuel v f c idx p name ext content s below found word all
                    readable,
              )
              | no part ↦ elim complete [
                | inl all ↦ absurd (part all)
                | inr none_left ↦ inr (inl (written_part s.count (length content) part), none_left)
              ]
            ],
          )
    ]
