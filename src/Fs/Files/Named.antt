-- ===== src/Fs/Files/Named.antt =====
-- A new file that is written by name and then read by name.
use kernel_c.Prelude.{
  ℕ, ◌+◌, ◌*◌, ◌^◌, ◌≤◌, ◌<◌, ◌≡◌, ◌≢◌, ◌⊎◌, inl, inr, ap, ◌∙◌, arith, true, false, ◌&&◌, none,
  some, List, length, if◌then◌else◌, ◌==◌, ℤ, pos, negsuc, u32, sym, ℕ_discrete,
}
use kernel_c.Fs.{Written, fat_entries, cluster_size, get_cluster, take, fs_read}
use kernel_c.Fs.Roundtrip.{fs_read-write}
use kernel_c.Fs.Table.{Entry, Volume, max_entries, new_entry}
use kernel_c.Fs.Files.{fs_find_in_dir, fs_write_file_in_dir, fs_read_file_in_dir}
use kernel_c.Fs.Files.Kept.{Keeps, Keeps-reads}
use kernel_c.Fs.Chains.{IsChain}
use kernel_c.Fs.Files.Search.{new_entry_found, fs_find_in_dir_entry}
use kernel_c.Fs.Files.Made.{
  Made, make_file-Made, stored_in, fs_write_file_in_dir_fresh, stored_file-read, stored_in-other,
  stored_in_self, take_all, written_all, written_part, small_u32,
}

-- The file that is new in `w` is what a search finds and a read gives.
pub record Added (fuel : ℕ) (v w : Volume) (p : ℕ) (name ext content : List ℕ) : Type 0 where
  pub idx : ℕ
  pub was_free : (v.entries idx).used ≡ false
  pub found : fs_find_in_dir w.entries (some name) (some ext) (pos p) ≡ some idx
  pub its_size : (w.entries idx).size ≡ length content
  pub its_parent : (w.entries idx).parent ≡ p
  pub others : (j : ℕ) → j ≢ idx → w.entries j ≡ v.entries j
  pub reads :
      (bufsize : ℕ)
      → length content ≤ bufsize
      → fs_read_file_in_dir fuel w (some name) (some ext) (pos p) bufsize ≡ some (pos 0, content)

complete_file-Added :
    (fuel : ℕ) (v : Volume) (p : ℕ) (name ext content : List ℕ) (m : Made v name ext p)
    (s : Written)
    → p < max_entries
    → length name ≤ 63
    → length ext ≤ 63
    → fs_find_in_dir v.entries (some name) (some ext) (pos p) ≡ none
    → length content < 2 ^ 32
    → s.count ≡ length content
    → fs_read fuel s.fat s.disk m.cluster s.count ≡ some (take s.count content)
    → Added fuel v (stored_in m.after m.idx s) p name ext content
complete_file-Added fuel v p name ext content m s below short xshort missing word all readable =
    let w : Volume = stored_in m.after m.idx s in
    let here : w.entries m.idx ≡ record (new_entry name ext p false m.cluster) { size = s.count } =
      stored_in_self m.after m.idx s
      ∙ ap (λ (e : Entry). record e { size = u32 s.count }) m.here
      ∙ ap (λ n. record (new_entry name ext p false m.cluster) { size = n })
          (small_u32 s.count (omega (arith, all, word))) in
    let same : (j : ℕ) → j ≢ m.idx → w.entries j ≡ v.entries j =
      λ j ne. stored_in-other m.after m.idx j s ne ∙ m.others j ne in
    let found : fs_find_in_dir w.entries (some name) (some ext) (pos p) ≡ some m.idx =
      fs_find_in_dir_entry w.entries name ext p below
      ∙ new_entry_found v.entries w.entries name ext p m.idx m.cluster s.count m.idx_hi short xshort
          (sym (fs_find_in_dir_entry v.entries name ext p below) ∙ missing) here same in
    record {
      idx = m.idx;
      was_free = m.unused;
      found = found;
      its_size = ap (λ (e : Entry). e.size) here ∙ all;
      its_parent = ap (λ (e : Entry). e.parent) here;
      others = same;
      reads = λ bufsize fits.
          stored_file-read fuel w name ext p m.idx m.cluster s.count content bufsize found here
            (readable ∙ ap some (ap (λ n. take n content) all ∙ take_all content))
            (omega (arith, all, fits));
    }

stored_in-Keeps :
    (v : Volume) (p : ℕ) (name ext : List ℕ) (m : Made v name ext p) (s : Written)
    → ((q : ℕ) → q ≢ m.cluster → m.after.fat q ≢ 0 → s.fat q ≡ m.after.fat q)
    → ((q a : ℕ)
        → 2 ≤ q
        → q < fat_entries
        → q ≢ m.cluster
        → m.after.fat q ≢ 0
        → get_cluster q ≤ a
        → a < get_cluster q + cluster_size
        → s.disk a ≡ m.after.disk a)
    → Keeps v (stored_in m.after m.idx s)
stored_in-Keeps v p name ext m s fat_kept disk_kept = record {
  entries_kept = λ j used.
      let ne : j ≢ m.idx = λ z. cc (ap (λ i. (v.entries i).used) z, used, m.unused) in
      stored_in-other m.after m.idx j s ne ∙ m.others j ne;
  fat_kept = λ q busy.
      fat_kept q (apart q busy) (λ z. busy (sym (m.fat_same q (apart q busy)) ∙ z))
      ∙ m.fat_same q (apart q busy);
  disk_kept = λ q a lo hi busy from to.
      disk_kept q a lo hi (apart q busy) (λ z. busy (sym (m.fat_same q (apart q busy)) ∙ z)) from to
      ∙ ap (λ d. d a) m.same_disk;
}
  where
    apart : (q : ℕ) → v.fat q ≢ 0 → q ≢ m.cluster
    apart q busy z = busy (ap v.fat z ∙ m.free)

-- Where a directory has no file of this name and extension, of at most 63 characters each, and the
-- table of entries and the allocation table have a free place, `fs_write_file_in_dir` of one byte or
-- more returns 0 or -6. If it returns 0, the name is found as a file of that size in that directory,
-- and `fs_read_file_in_dir` of it with a buffer of at least that size gives back exactly those bytes;
-- it returns -6 only where no cluster is left. Every entry in use before is kept, and so is what is
-- read of a file whose clusters are a chain. Fuel of one round per cluster is enough for both.
pub fs_read_file_in_dir-write :
    (fuel : ℕ) (v : Volume) (p : ℕ) (name ext content : List ℕ)
    → p < max_entries
    → ((v.entries p).used && (v.entries p).is_dir) ≡ true
    → length name ≤ 63
    → length ext ≤ 63
    → fs_find_in_dir v.entries (some name) (some ext) (pos p) ≡ none
    → (j : ℕ) → 0 < j
    → j < max_entries
    → (v.entries j).used ≡ false
    → (q : ℕ) → 2 ≤ q
    → q < fat_entries
    → v.fat q ≡ 0
    → 0 < length content
    → length content ≤ fuel * cluster_size
    → length content < 2 ^ 32
    → (r : ℤ) × (w : Volume) × (fs_write_file_in_dir fuel v (some name) (some ext) (pos p) content
        ≡ some (r, w))
      × (((r ≡ pos 0) × Added fuel v w p name ext content)
          ⊎ ((r ≡ negsuc 5) × ((i : ℕ) → 2 ≤ i → i < fat_entries → w.fat i ≢ 0)))
      × ((i : ℕ) → (v.entries i).used ≡ true → w.entries i ≡ v.entries i)
      × ((k first size : ℕ) (cs : List ℕ)
          → IsChain v.fat first cs
          → fs_read k w.fat w.disk first size ≡ fs_read k v.fat v.disk first size)
fs_read_file_in_dir-write fuel v p name ext content below dir short xshort missing j jlo jhi unused
      q lo hi free some_left room word =
    let m : Made v name ext p = make_file-Made v name ext p j q jlo jhi unused lo hi free in
    let (s, stored, readable, complete, fat_kept, disk_kept) =
      fs_read-write fuel m.after.fat m.after.disk m.cluster content m.lo m.hi m.at_end some_left
        room in
    let w : Volume = stored_in m.after m.idx s in
    let code : ℤ = if s.count == length content then pos 0 else negsuc 5 in
    (
      code,
      w,
      fs_write_file_in_dir_fresh fuel v name ext p content s below dir missing some_left m stored,
      elim (ℕ_discrete s.count (length content)) [
        | yes all ↦ inl (
          written_all s.count (length content) all,
          complete_file-Added fuel v p name ext content m s below short xshort missing word all
              readable,
        )
        | no part ↦ elim complete [
          | inl all ↦ absurd (part all)
          | inr full ↦ inr (written_part s.count (length content) part, full)
        ]
      ],
      (stored_in-Keeps v p name ext m s fat_kept disk_kept).entries_kept,
      Keeps-reads v w (stored_in-Keeps v p name ext m s fat_kept disk_kept),
    )
