-- ===== src/Loader/First.antt =====
-- `tasks_init`: the clock, the terminal and the reaper, one after the other.
use kernel_c.Prelude.{
  ℕ, ◌+◌, ◌-◌, ◌*◌, ◌≤◌, ◌<◌, ◌≡◌, ◌≢◌, refl, sym, ap, ◌∙◌, some, ◌>>=◌, List, [], ◌∷◌, ◌++◌, arith,
  length, length-append, Apart, Apart-append, ==_ne, ℤ, pos,
}
use kernel_c.Heap.{Heap, null, header_size, align_up}
use kernel_c.Heap.Cells.{Cell, IsHeap}
use kernel_c.Heap.Focus.{address}
use kernel_c.Kmalloc.Fit.{found, first_fit}
use kernel_c.Umalloc.{user_malloc}
use kernel_c.Umalloc.Laws.{user_malloc_lem}
use kernel_c.Fs.{read_bytes, write_bytes}
use kernel_c.Fs.Bytes.{read-write_bytes}
use kernel_c.Fs.Table.{Entry, Volume}
use kernel_c.Fs.Files.{fs_read_file_in_dir}
use kernel_c.Multitask.{Kernel, task_ready, task_create, utask_create}
use kernel_c.Multitask.Frames.{resumes_at}
use kernel_c.Multitask.Members.{Members}
use kernel_c.Multitask.Create.{AllOwned}
use kernel_c.Multitask.Growth.{Spare, Grown, task_cells, create-Grown}
use kernel_c.Loader.{
  bin, terminal, find_program, room_for, load_terminal, load_and_run_terminal, terminal_found,
  tasks_init,
}

AllOwned-user :
    (k : Kernel) (h : Heap) (cells : List Cell) (ts : List ℕ)
    → AllOwned k cells ts
    → AllOwned (record k { user_heap = h }) cells ts
AllOwned-user k h cells [] o = tt
AllOwned-user k h cells (t ∷ ts) o = (o.0, AllOwned-user k h cells ts o.1)

Spare-user :
    (k : Kernel) (h : Heap) (ts : List ℕ) (used : List Cell) (n : ℕ)
    → Spare k ts used n
    → Spare (record k { user_heap = h }) ts used n
Spare-user k h ts used n s = record {
  heap = s.heap;
  all_used = s.all_used;
  members = record { others = s.members.others; order = s.members.order; ring = s.members.ring };
  owned = AllOwned-user k h used ts s.owned;
  below = s.below;
}

task_create-Grown :
    (fuel : ℕ) (k : Kernel) (ts : List ℕ) (used : List Cell) (n entry : ℕ)
    → Spare k ts used n
    → length used + 2 < fuel
    → 8400 ≤ n
    → (k' : Kernel) × (task_create fuel k entry 0 ≡ some k')
      × Grown k k' ts used n (address k.heap used + header_size) entry null
unfolding task_create
task_create-Grown fuel k ts used n entry s enough room =
    let (k', ran, grown) = create-Grown fuel k ts used n entry null 0 s enough room in
    (k', rw ran refl, grown)

utask_create-Grown :
    (fuel : ℕ) (k : Kernel) (ts : List ℕ) (used : List Cell) (n entry user_mem size : ℕ)
    → Spare k ts used n
    → length used + 2 < fuel
    → 8400 ≤ n
    → (pid : ℕ) × (k' : Kernel) × (utask_create fuel k entry 0 user_mem size ≡ some (pid, k'))
      × Grown k k' ts used n (address k.heap used + header_size) entry user_mem
unfolding utask_create
utask_create-Grown fuel k ts used n entry user_mem size s enough room =
    let t : ℕ = address k.heap used + header_size in
    let (k', ran, grown) = create-Grown fuel k ts used n entry user_mem size s enough room in
    ((k'.tasks t).pid, k', rw (ran, ==_ne t 0 (λ e. omega (arith, e))) refl, grown)

-- the kernel whose programs' heap holds the bytes
abbrev with_bytes : Kernel → Heap → ℕ → List ℕ → Kernel
with_bytes k h mem bytes = record k {
  user_heap = record h { bytes = write_bytes h.bytes mem bytes };
}

load_and_run_terminal-ran :
    (fuel : ℕ) (k : Kernel) (v : Volume) (dir : ℕ) (e : Entry) (r : ℤ) (bytes : List ℕ) (mem : ℕ)
    (h : Heap) (pid : ℕ) (k' : Kernel)
    → find_program v terminal ≡ some (dir, e)
    → user_malloc fuel k.user_heap (room_for e.size) ≡ some (mem, h)
    → mem ≢ null
    → fs_read_file_in_dir fuel v (some terminal) (some bin) (pos dir) e.size ≡ some (r, bytes)
    → utask_create fuel (with_bytes k h mem bytes) mem 0 mem e.size ≡ some (pid, k')
    → load_and_run_terminal fuel k v ≡ some k'
unfolding load_and_run_terminal terminal_found load_terminal
load_and_run_terminal-ran fuel k v dir e r bytes mem h pid k' found_it got some_mem read made =
    ap (terminal_found fuel k v) found_it ∙ rw (got, ==_ne mem 0 some_mem, read, made) refl

tasks_init-ran :
    (fuel : ℕ) (k k1 k2 k3 : Kernel) (v : Volume) (clock_task reaper_task : ℕ)
    → task_create fuel k clock_task 0 ≡ some k1
    → load_and_run_terminal fuel k1 v ≡ some k2
    → task_create fuel k2 reaper_task 0 ≡ some k3
    → tasks_init fuel k v clock_task reaper_task ≡ some k3
unfolding tasks_init
tasks_init-ran fuel k k1 k2 k3 v clock_task reaper_task a b c =
    ap (λ o. o >>= λ j. load_and_run_terminal fuel j v >>= λ j'. task_create fuel j' reaper_task 0)
      a
    ∙ ap (λ o. o >>= λ j. task_create fuel j reaper_task 0) b
    ∙ c

-- a task made later leaves the first frame of a task below its block
resumes_at-Grown :
    (k k' : Kernel) (ts : List ℕ) (used : List Cell) (n t entry user_mem q : ℕ)
    → Grown k k' ts used n t entry user_mem
    → q ≢ t
    → (k.tasks q).regs + 8 * 17 < address k.heap used
    → resumes_at k' q ≡ resumes_at k q
resumes_at-Grown k k' ts used n t entry user_mem q g ne below =
    ap (λ r. k'.qwords (r + 8 * 17)) (g.frame.same_regs q ne)
    ∙ g.memory.kept ((k.tasks q).regs + 8 * 17) below

-- the three tasks, and what the terminal starts from
pub record FirstTasks (k k' : Kernel) (ts : List ℕ) (clock_task reaper_task mem : ℕ)
    (bytes : List ℕ) : Type 0 where
  pub clock : ℕ
  pub shell : ℕ
  pub reaper : ℕ
  pub members : Members k' (((ts ++ clock ∷ []) ++ shell ∷ []) ++ reaper ∷ [])
  pub clock_ready : (k'.tasks clock).state ≡ task_ready
  pub shell_ready : (k'.tasks shell).state ≡ task_ready
  pub reaper_ready : (k'.tasks reaper).state ≡ task_ready
  pub clock_starts : resumes_at k' clock ≡ clock_task
  pub shell_starts : resumes_at k' shell ≡ mem
  pub reaper_starts : resumes_at k' reaper ≡ reaper_task
  pub clock_pid : (k'.tasks clock).pid ≡ k.next_pid
  pub shell_pid : (k'.tasks shell).pid ≡ k.next_pid + 1
  pub reaper_pid : (k'.tasks reaper).pid ≡ k.next_pid + 2
  pub shell_mem : (k'.tasks shell).user_mem ≡ mem
  pub loaded : read_bytes k'.user_heap.bytes mem (length bytes) ≡ bytes
  pub three_pids : k'.next_pid ≡ k.next_pid + 3

-- `tasks_init` where the kernel's heap has a free block of 25088 bytes behind blocks in use, and where the
-- terminal is found in /bin and fits the programs' heap: three tasks more are in the ring, behind
-- all others and in this order, the clock, the terminal and the reaper. All three are ready, and have
-- the next three pids in this order. The first frame of the clock's task returns to `clock_task`, that
-- of the reaper's to `reaper_task`, and that of the terminal's to its memory, which starts with the
-- bytes that are read of its file.
pub tasks_init_lem :
    (fuel : ℕ) (k : Kernel) (v : Volume) (ts : List ℕ) (used : List Cell)
    (n clock_task reaper_task dir : ℕ) (e : Entry) (r : ℤ) (bytes : List ℕ) (cells : List Cell)
    (xs : List Cell) (c : Cell) (ys : List Cell)
    → Spare k ts used n
    → length used + 6 < fuel
    → 25088 ≤ n
    → find_program v terminal ≡ some (dir, e)
    → fs_read_file_in_dir fuel v (some terminal) (some bin) (pos dir) e.size ≡ some (r, bytes)
    → IsHeap k.user_heap cells
    → length cells < fuel
    → k.user_heap.head ≢ null
    → room_for e.size ≢ 0
    → first_fit (align_up (room_for e.size)) cells ≡ found xs c ys
    → (k' : Kernel) × (tasks_init fuel k v clock_task reaper_task ≡ some k')
      × FirstTasks k k' ts clock_task reaper_task (address k.user_heap xs + header_size) bytes
tasks_init_lem fuel k v ts used n clock_task reaper_task dir e r bytes cells xs c ys s enough room
      found_it read is enough' set_up some_room hit =
    let mem : ℕ = address k.user_heap xs + header_size in
    let (k1, ran1, g1) =
      task_create-Grown fuel k ts used n clock_task s (omega (arith, enough))
        (omega (arith, room)) in
    let (h, got, took) =
      user_malloc_lem fuel k.user_heap cells (room_for e.size) is enough' some_room set_up xs c ys
        hit in
    let used1 : List Cell = used ++ task_cells in
    let (pid, k2, ran2, g2) =
      utask_create-Grown fuel (with_bytes k1 h mem bytes) (ts ++ _ ∷ []) used1 (n - 8344) mem mem
        e.size
        (Spare-user k1 (record h { bytes = write_bytes h.bytes mem bytes }) _ used1 _ g1.spare)
        (omega (arith, enough, length-append used task_cells)) (omega (arith, room)) in
    let used2 : List Cell = used1 ++ task_cells in
    let (k3, ran3, g3) =
      task_create-Grown fuel k2 _ used2 (n - 8344 - 8344) reaper_task g2.spare
        (omega (arith, enough, length-append used task_cells, length-append used1 task_cells))
        (omega (arith, room)) in
    let clock : ℕ = address k.heap used + header_size in
    let shell : ℕ = address k1.heap used1 + header_size in
    let reaper : ℕ = address k2.heap used2 + header_size in
    let shell_new : shell ≢ clock = ((Apart-append shell ts (clock ∷ [])).0 g2.new).1.0 in
    let reaper_new : Apart reaper (ts ++ clock ∷ []) × Apart reaper (shell ∷ []) =
      (Apart-append reaper (ts ++ clock ∷ []) (shell ∷ [])).0 g3.new in
    let reaper_clock : reaper ≢ clock =
      ((Apart-append reaper ts (clock ∷ [])).0 reaper_new.0).1.0 in
    (
      k3,
      tasks_init-ran fuel k k1 k2 k3 v clock_task reaper_task ran1
          (load_and_run_terminal-ran fuel k1 v dir e r bytes mem h pid k2 found_it
            (ap (λ u. user_malloc fuel u (room_for e.size)) g1.frame.same_user_heap ∙ got)
            (omega arith) read ran2)
          ran3,
      record {
        clock = clock;
        shell = shell;
        reaper = reaper;
        members = g3.spare.members;
        clock_ready =
            g3.frame.same_state clock (λ z. reaper_clock (sym z))
            ∙ g2.frame.same_state clock (λ z. shell_new (sym z))
            ∙ g1.started.ready;
        shell_ready = g3.frame.same_state shell (λ z. reaper_new.1.0 (sym z)) ∙ g2.started.ready;
        reaper_ready = g3.started.ready;
        clock_starts =
            resumes_at-Grown k2 k3 _ used2 (n - 8344 - 8344) reaper reaper_task null clock g3
              (λ z. reaper_clock (sym z))
              (omega (
                arith,
                g1.memory.inside,
                g1.next_address,
                g2.next_address,
                g2.frame.same_regs clock (λ z. shell_new (sym z)),
              ))
            ∙ resumes_at-Grown (with_bytes k1 h mem bytes) k2 _ used1 (n - 8344) shell mem mem clock
                g2 (λ z. shell_new (sym z)) (omega (arith, g1.memory.inside, g1.next_address))
            ∙ g1.started.starts;
        shell_starts =
            resumes_at-Grown k2 k3 _ used2 (n - 8344 - 8344) reaper reaper_task null shell g3
              (λ z. reaper_new.1.0 (sym z)) (omega (arith, g2.memory.inside, g2.next_address))
            ∙ g2.started.starts;
        reaper_starts = g3.started.starts;
        clock_pid =
            g3.frame.pid_kept clock (λ z. reaper_clock (sym z))
            ∙ g2.frame.pid_kept clock (λ z. shell_new (sym z))
            ∙ g1.started.same_pid;
        shell_pid =
            g3.frame.pid_kept shell (λ z. reaper_new.1.0 (sym z))
            ∙ g2.started.same_pid
            ∙ g1.frame.next_pid;
        reaper_pid = omega (arith, g3.started.same_pid, g2.frame.next_pid, g1.frame.next_pid);
        shell_mem = g3.frame.same_mem shell (λ z. reaper_new.1.0 (sym z)) ∙ g2.started.its_mem;
        loaded =
            ap (λ (u : Heap). read_bytes u.bytes mem (length bytes))
              (g3.frame.same_user_heap ∙ g2.frame.same_user_heap)
            ∙ read-write_bytes h.bytes mem bytes;
        three_pids = omega (arith, g1.frame.next_pid, g2.frame.next_pid, g3.frame.next_pid);
      },
    )
