-- ===== src/Boot/Installed.antt =====
-- From the image in the kernel to the running task: what `load_app_to_fs` installs is what
-- `load_and_run_program` starts.
use kernel_c.Prelude.{
  ℕ, ◌+◌, ◌*◌, ◌^◌, ◌≤◌, ◌<◌, ◌≡◌, ◌≢◌, ◌⊎◌, inl, inr, refl, ◌∙◌, arith, true, false, ◌&&◌, none,
  some, List, [], ◌∷◌, ◌++◌, length, ℤ, pos, ==_ne, ℕ_discrete,
}
use kernel_c.Heap.{null, header_size, align_up}
use kernel_c.Heap.Cells.{Cell, IsHeap}
use kernel_c.Heap.Focus.{address}
use kernel_c.Kmalloc.Fit.{found, first_fit}
use kernel_c.Kmalloc.Malloc.{take_cells}
use kernel_c.Fs.{fat_entries, cluster_size}
use kernel_c.Fs.Table.{Entry, Volume, max_entries}
use kernel_c.Fs.Files.{matches, fs_find_in_dir, fs_write_file_in_dir, fs_read_file_in_dir}
use kernel_c.Fs.Files.Search.{first_entry-same}
use kernel_c.Fs.Files.Named.{Added, fs_read_file_in_dir-write}
use kernel_c.Multitask.{Kernel, task_size}
use kernel_c.Multitask.Members.{Members}
use kernel_c.Multitask.Create.{AllOwned}
use kernel_c.Loader.{bin, find_program, room_for, load_and_run_program}
use kernel_c.Loader.Launch.{Launched, load_and_run_program_lem}
use kernel_c.Boot.{folder_of, write_app, load_app_to_fs}

-- The program is found, and its file holds the image.
pub record Installed (fuel : ℕ) (w : Volume) (name image : List ℕ) : Type 0 where
  pub dir : ℕ
  pub entry : Entry
  pub found : find_program w name ≡ some (dir, entry)
  pub its_size : entry.size ≡ length image
  pub reads :
      fs_read_file_in_dir fuel w (some name) (some bin) (pos dir) entry.size ≡ some (pos 0, image)

-- a folder of the root is found where it was before a file was added to another folder
matches-kept :
    (fuel : ℕ) (v w : Volume) (p : ℕ) (name ext content : List ℕ)
    → Added fuel v w p name ext content
    → p ≢ 0
    → (folder : List ℕ) (i : ℕ) → matches w.entries folder [] 0 i ≡ matches v.entries folder [] 0 i
matches-kept fuel v w p name ext content added inner folder i = elim (ℕ_discrete i added.idx) [
  | no ne ↦ rw (added.others i ne) refl
  | yes same ↦ rw (same, added.was_free, added.its_parent, ==_ne p 0 inner) (ground arith)
]

folder-kept :
    (fuel : ℕ) (v w : Volume) (p : ℕ) (name ext content : List ℕ)
    → Added fuel v w p name ext content
    → p ≢ 0
    → (folder : List ℕ)
    → fs_find_in_dir w.entries (some folder) none (pos 0)
      ≡ fs_find_in_dir v.entries (some folder) none (pos 0)
unfolding fs_find_in_dir
folder-kept fuel v w p name ext content added inner folder =
    first_entry-same (matches w.entries folder [] 0) (matches v.entries folder [] 0) max_entries 0
      (matches-kept fuel v w p name ext content added inner folder)

find_program-found :
    (w : Volume) (name : List ℕ) (dir i : ℕ)
    → fs_find_in_dir w.entries (some bin) none (pos 0) ≡ some dir
    → fs_find_in_dir w.entries (some name) (some bin) (pos dir) ≡ some i
    → find_program w name ≡ some (dir, w.entries i)
unfolding find_program
find_program-found w name dir i folder file = rw (folder, file) refl

load_app_to_fs-written :
    (fuel : ℕ) (v : Volume) (folder name ext image : List ℕ) (dir : ℕ) (r : ℤ) (w : Volume)
    → fs_find_in_dir v.entries (some folder) none (pos 0) ≡ some dir
    → fs_write_file_in_dir fuel v (some name) (some ext) (pos dir) image ≡ some (r, w)
    → load_app_to_fs fuel v folder name ext image ≡ some w
unfolding load_app_to_fs folder_of write_app
load_app_to_fs-written fuel v folder name ext image dir r w there wrote =
    rw (load_app_to_fs, folder_of, there, wrote) refl

-- `load_app_to_fs` of a program whose name, of at most 63 characters, is not yet in the folder /bin of
-- the root, where an entry and a cluster are free: the program is installed, unless no cluster is
-- left afterwards. An installed program is found by `load_and_run_program`, with the size of the
-- image, and a read of its file gives exactly the image.
pub load_app_to_fs-Installed :
    (fuel : ℕ) (v : Volume) (dir : ℕ) (name image : List ℕ)
    → fs_find_in_dir v.entries (some bin) none (pos 0) ≡ some dir
    → dir ≢ 0
    → dir < max_entries
    → ((v.entries dir).used && (v.entries dir).is_dir) ≡ true
    → length name ≤ 63
    → fs_find_in_dir v.entries (some name) (some bin) (pos dir) ≡ none
    → (j : ℕ) → 0 < j
    → j < max_entries
    → (v.entries j).used ≡ false
    → (q : ℕ) → 2 ≤ q
    → q < fat_entries
    → v.fat q ≡ 0
    → 0 < length image
    → length image ≤ fuel * cluster_size
    → length image < 2 ^ 32
    → (w : Volume) × (load_app_to_fs fuel v bin name bin image ≡ some w)
      × (Installed fuel w name image ⊎ ((i : ℕ) → 2 ≤ i → i < fat_entries → w.fat i ≢ 0))
load_app_to_fs-Installed fuel v dir name image there inner below is_dir short missing j jlo jhi free
      q lo hi empty some_left room word =
    let (r, w, wrote, outcome, _, _) =
      fs_read_file_in_dir-write fuel v dir name bin image below is_dir short (omega arith) missing j
        jlo jhi free q lo hi empty some_left room word in
    (
      w,
      load_app_to_fs-written fuel v bin name bin image dir r w there wrote,
      elim outcome [
        | inr (_, full) ↦ inr full
        | inl (_, added) ↦ inl (record {
          dir = dir;
          entry = w.entries added.idx;
          found =
              find_program-found w name dir added.idx
                (folder-kept fuel v w dir name bin image added inner bin ∙ there) added.found;
          its_size = added.its_size;
          reads = added.reads (w.entries added.idx).size (omega (arith, added.its_size));
        })
      ],
    )

-- A program that is installed starts, where both heaps have room: `load_and_run_program` of its name
-- returns the next pid, and the new task, ready and last in the ring, has the image at the start of
-- its memory, and the instruction pointer of its first frame is the address of that memory.
pub load_and_run_program-Installed :
    (fuel : ℕ) (k : Kernel) (cells : List Cell) (ts : List ℕ) (xs : List Cell) (c : Cell)
    (ys : List Cell) (us : List Cell) (d : Cell) (vs : List Cell)
    → IsHeap k.heap cells
    → length cells + 1 < fuel
    → Members k ts
    → AllOwned k cells ts
    → k.init_task < k.heap.heap_start
    → k.next_pid ≢ 0
    → first_fit (align_up task_size) cells ≡ found xs c ys
    → first_fit (align_up 16384) (xs ++ take_cells c (align_up task_size) ys) ≡ found us d vs
    → (w : Volume) (a : ℕ) (name image : List ℕ) (cells' : List Cell) (xs' : List Cell) (c' : Cell)
      (ys' : List Cell)
    → Installed fuel w (a ∷ name) image
    → 0 < length image
    → length image + 1024 < 2 ^ 32
    → IsHeap k.user_heap cells'
    → length cells' < fuel
    → k.user_heap.head ≢ null
    → first_fit (align_up (length image + 1024)) cells' ≡ found xs' c' ys'
    → (k' : Kernel) × (load_and_run_program fuel k w (some (a ∷ name)) ≡ some (k.next_pid, k'))
      × Launched k k' ts
          (address k.heap xs + header_size)
          (address k.user_heap xs' + header_size)
          image
load_and_run_program-Installed fuel k cells ts xs c ys us d vs is enough members owned below
      some_pid hit hit' w a name image cells' xs' c' ys' installed some_left word is' enough' set_up
      hit'' =
    let room : room_for installed.entry.size ≡ length image + 1024 =
      omega (arith, installed.its_size, word) in
    load_and_run_program_lem fuel k cells ts xs c ys us d vs is enough members owned below some_pid
      hit hit' w a name installed.dir installed.entry (pos 0) image cells' xs' c' ys'
      installed.found (λ e. omega (arith, e, installed.its_size, some_left)) installed.reads is'
      enough' set_up (λ e. omega (arith, e, room)) (rw room hit'')
