-- ===== src/Loader/Launch.antt =====
-- A program that is found and fits runs: its task is new and last in the ring, and its memory holds the
-- file's bytes.
use kernel_c.Prelude.{
  ℕ, ◌+◌, ◌<◌, ◌≡◌, ◌≢◌, refl, ap, ◌∙◌, true, some, List, [], ◌∷◌, ◌++◌, ==_ne, arith, length, ℤ,
  pos,
}
use kernel_c.Heap.{Heap, null, header_size, align_up}
use kernel_c.Heap.Cells.{Cell, IsHeap}
use kernel_c.Heap.Focus.{address}
use kernel_c.Kmalloc.Fit.{found, first_fit}
use kernel_c.Kmalloc.Malloc.{take_cells}
use kernel_c.CString.{memset}
use kernel_c.Umalloc.{user_malloc}
use kernel_c.Umalloc.Laws.{user_malloc_lem}
use kernel_c.Fs.{read_bytes}
use kernel_c.Fs.Bytes.{read-write_bytes}
use kernel_c.Fs.Table.{Entry, Volume}
use kernel_c.Fs.Files.{fs_read_file_in_dir}
use kernel_c.Multitask.{Kernel, task_ready, task_size, utask_create}
use kernel_c.Multitask.Zombies.{cli, sti}
use kernel_c.Multitask.Frames.{resumes_at}
use kernel_c.Multitask.Members.{Members}
use kernel_c.Multitask.Create.{AllOwned, utask_create_lem}
use kernel_c.Loader.{
  bin, find_program, room_for, filled, run_program, load_program, run_found, load_and_run_program,
}

load_program_found :
    (fuel : ℕ) (k : Kernel) (v : Volume) (c : ℕ) (name : List ℕ) (dir : ℕ) (e : Entry)
    → find_program v (c ∷ name) ≡ some (dir, e)
    → e.size ≢ 0
    → load_and_run_program fuel k v (some (c ∷ name))
      ≡ load_program fuel (cli k) v (c ∷ name) dir e.size
unfolding load_and_run_program run_found
load_program_found fuel k v c name dir e found_it some_size =
    ap (run_found fuel (cli k) v (c ∷ name)) found_it ∙ rw (==_ne e.size 0 some_size) refl

load_program-filled :
    (fuel : ℕ) (k : Kernel) (v : Volume) (name : List ℕ) (dir size mem : ℕ) (h : Heap) (r : ℤ)
    (bytes : List ℕ)
    → user_malloc fuel k.user_heap (room_for size) ≡ some (mem, h)
    → mem ≢ null
    → fs_read_file_in_dir fuel v (some name) (some bin) (pos dir) size ≡ some (r, bytes)
    → load_program fuel k v name dir size
      ≡ run_program fuel (filled (record k { user_heap = h }) mem size bytes) mem size
unfolding load_program
load_program-filled fuel k v name dir size mem h r bytes ran some_mem read =
    rw (ran, ==_ne mem 0 some_mem, read) refl

run_program-some :
    (fuel : ℕ) (k : Kernel) (mem size pid : ℕ) (k' : Kernel)
    → utask_create fuel k mem 16384 mem size ≡ some (pid, k')
    → pid ≢ 0
    → run_program fuel k mem size ≡ some (pid, sti k')
unfolding run_program
run_program-some fuel k mem size pid k' ran some_pid = rw (ran, ==_ne pid 0 some_pid) refl

-- ownership does not see the programs' heap and the interrupts
AllOwned-filled :
    (k : Kernel) (h : Heap) (b : _) (cells : List Cell) (ts : List ℕ)
    → AllOwned k cells ts
    → AllOwned (record k { user_heap = h; interrupts = b }) cells ts
AllOwned-filled k h b cells [] o = tt
AllOwned-filled k h b cells (t ∷ ts) o = (o.0, AllOwned-filled k h b cells ts o.1)

-- what `load_and_run_program` leaves when it succeeds
pub record Launched (k k' : Kernel) (ts : List ℕ) (t mem : ℕ) (bytes : List ℕ) : Type 0 where
  pub members : Members k' (ts ++ t ∷ [])
  pub ready : (k'.tasks t).state ≡ task_ready
  pub same_pid : (k'.tasks t).pid ≡ k.next_pid
  pub its_mem : (k'.tasks t).user_mem ≡ mem
  pub loaded : read_bytes k'.user_heap.bytes mem (length bytes) ≡ bytes
  pub interrupts_on : k'.interrupts ≡ true
  pub same_current : k'.current ≡ k.current
  pub starts : resumes_at k' t ≡ mem

module _ (fuel : ℕ) (k : Kernel) (cells : List Cell) (ts : List ℕ) (xs : List Cell) (c : Cell)
    (ys : List Cell) (us : List Cell) (d : Cell) (vs : List Cell) (is : IsHeap k.heap cells)
    (enough : length cells + 1 < fuel) (members : Members k ts) (owned : AllOwned k cells ts)
    (below : k.init_task < k.heap.heap_start) (some_pid : k.next_pid ≢ 0)
    (hit : first_fit (align_up task_size) cells ≡ found xs c ys)
    (hit' : first_fit (align_up 16384) (xs ++ take_cells c (align_up task_size) ys)
      ≡ found us d vs) where
  run_filled :
      (h : Heap) (mem size : ℕ) (bytes : List ℕ)
      → (k' : Kernel) × (run_program fuel
            (filled (record (cli k) { user_heap = h }) mem size bytes)
            mem
            size
          ≡ some (k.next_pid, k'))
        × Launched k k' ts (address k.heap xs + header_size) mem bytes
  unfolding filled
  run_filled h mem size bytes =
      let full : Kernel = filled (record (cli k) { user_heap = h }) mem size bytes in
      let (k', ran, s) =
        utask_create_lem fuel full cells ts mem 16384 mem size xs c ys us d vs is enough
          (record { others = members.others; order = members.order; ring = members.ring })
          (AllOwned-filled k full.user_heap full.interrupts cells ts owned) below
          (λ e. omega (arith, e)) hit hit' in
      (
        sti k',
        run_program-some fuel full mem size k.next_pid k' ran some_pid,
        record {
          members = record {
            others = s.members.others;
            order = s.members.order;
            ring = s.members.ring;
          };
          ready = s.ready;
          same_pid = s.same_pid;
          its_mem = s.its_mem;
          loaded =
              ap (λ (w : Heap). read_bytes w.bytes mem (length bytes)) s.same_heap
              ∙ read-write_bytes (memset h.bytes mem 0 size) mem bytes;
          interrupts_on = refl;
          same_current = s.same_current;
          starts = s.starts;
        },
      )

  -- `load_and_run_program` of a file in /bin that is not empty, with room in the programs' heap for it
  -- and in the kernel's heap for a `task_t` and a stack: it returns the next pid and leaves the
  -- interrupts on and the same task running, and the new task is ready to run behind all others of the
  -- ring. The task's memory is the block of the programs' heap, which starts with the bytes that
  -- `fs_read_file_in_dir` reads of the file, and the instruction pointer of the task's first frame is
  -- the address of that block.
  pub load_and_run_program_lem :
      (v : Volume) (a : ℕ) (name : List ℕ) (dir : ℕ) (e : Entry) (r : ℤ) (bytes : List ℕ)
      (cells' : List Cell) (xs' : List Cell) (c' : Cell) (ys' : List Cell)
      → find_program v (a ∷ name) ≡ some (dir, e)
      → e.size ≢ 0
      → fs_read_file_in_dir fuel v (some (a ∷ name)) (some bin) (pos dir) e.size ≡ some (r, bytes)
      → IsHeap k.user_heap cells'
      → length cells' < fuel
      → k.user_heap.head ≢ null
      → room_for e.size ≢ 0
      → first_fit (align_up (room_for e.size)) cells' ≡ found xs' c' ys'
      → (k' : Kernel) × (load_and_run_program fuel k v (some (a ∷ name)) ≡ some (k.next_pid, k'))
        × Launched k k' ts
            (address k.heap xs + header_size)
            (address k.user_heap xs' + header_size)
            bytes
  load_and_run_program_lem v a name dir e r bytes cells' xs' c' ys' found_it some_size read is'
        enough' set_up some_room hit'' =
      let (h, ran, took) =
        user_malloc_lem fuel k.user_heap cells' (room_for e.size) is' enough' some_room set_up xs'
          c' ys' hit'' in
      let mem : ℕ = address k.user_heap xs' + header_size in
      let (k', made, launched) = run_filled h mem e.size bytes in
      (
        k',
        load_program_found fuel k v a name dir e found_it some_size
            ∙ load_program-filled fuel (cli k) v (a ∷ name) dir e.size mem h r bytes ran
                (omega arith) read
            ∙ made,
        launched,
      )
