-- ===== src/Multitask.antt =====
-- multitask/multitask.c: the tasks of the kernel and their turns. A store maps an address to the
-- `task_t` that stands there, pointers are numbers, and `tasks`, `qwords` and the two heaps are the
-- memory that the functions touch. `task_ring` points to the last task of a ring along `next`. A loop
-- along a list takes fuel, and `none` means that the fuel ran out. `pid` counts up without a bound, where
-- the `int` of the source overflows, undefined in C, after 2^31 - 1 tasks.
pub mod Zombies
pub mod Frames
pub mod Ring
pub mod Turns
pub mod Liveness
pub mod Members
pub mod Unlink
pub mod Reap
pub mod Create
pub mod Growth
pub mod Exit
pub mod Stop
pub mod Listing
pub mod Flag
pub mod Dispatch
pub mod Sample
mod Tests
use kernel_c.Prelude.{
  ℕ, zero, suc, ◌+◌, ◌-◌, ◌*◌, ◌/◌, Bool, true, false, ◌&&◌, ◌||◌, not, Option, none, some, ◌>>=◌,
  List, [], ◌∷◌, if◌then◌else◌, ◌==◌, ltb, leb, add64, sub64,
}
use kernel_c.Heap.{Heap, null}
use kernel_c.Kmalloc.{malloc, free}

-- `task_state_t`
pub data TaskState : Type 0 where
  task_running : TaskState
  task_ready : TaskState
  task_blocked : TaskState
  task_zombie : TaskState

-- `task_t`
pub record Task : Type 0 where
  pub pid : ℕ
  pub state : TaskState
  pub regs : ℕ
  pub kstack : ℕ
  pub kstack_size : ℕ
  pub exit_code : ℕ
  pub next : ℕ
  pub znext : ℕ
  pub user_mem : ℕ
  pub user_mem_size : ℕ

abbrev pub TaskStore : Type 0
TaskStore = ℕ → Task

-- The globals, with the addresses of `init_task` and `init_task_stack`, which never change, the
-- memory, and the processor's interrupt flag.
pub record Kernel : Type 0 where
  pub tasks : TaskStore
  pub qwords : ℕ → ℕ
  pub heap : Heap
  pub user_heap : Heap
  pub init_task : ℕ
  pub init_task_stack : ℕ
  pub task_ring : ℕ
  pub current : ℕ
  pub next_pid : ℕ
  pub zombie_list : ℕ
  pub kstack_top : ℕ
  pub interrupts : Bool

-- `sizeof(task_t)` and the two sizes of stacks
abbrev pub task_size : ℕ
task_size = 72

abbrev pub kstack_default : ℕ
kstack_default = 8 * 1024

abbrev pub init_stack_size : ℕ
init_stack_size = 16 * 1024

abbrev pub set_task : TaskStore → ℕ → Task → TaskStore
set_task m p t q = if q == p then t else m q

abbrev pub blank_task : Task
blank_task = record {
  pid = 0;
  state = task_running;
  regs = null;
  kstack = null;
  kstack_size = 0;
  exit_code = 0;
  next = null;
  znext = null;
  user_mem = null;
  user_mem_size = 0;
}

-- the 22 qwords of a saved frame: two for the interrupt, 15 registers, and what `iretq` takes
unfoldable pub initial_frame : ℕ → ℕ → List ℕ
initial_frame entry kstack_top =
    32 ∷ 0 ∷ 0 ∷ 0 ∷ 0 ∷ 0 ∷ 0 ∷ 0 ∷ 0 ∷ 0 ∷ 0 ∷ 0 ∷ 0 ∷ 0 ∷ 0 ∷ 0 ∷ 0 ∷ entry ∷ 0x08 ∷ 0x202
    ∷ kstack_top ∷ 0x10 ∷ []

abbrev pub write_qwords : (ℕ → ℕ) → ℕ → List ℕ → ℕ → ℕ
write_qwords m p [] = m
write_qwords m p (v ∷ vs) = write_qwords (λ q. if q == p then v else m q) (p + 8) vs

-- the new stack pointer: aligned down to 16 bytes, then 22 qwords lower
unfoldable pub initial_sp : ℕ → ℕ
initial_sp kstack_top = sub64 (kstack_top / 16 * 16) (22 * 8)

unfoldable pub prepare_initial_stack : (ℕ → ℕ) → ℕ → ℕ → ℕ × (ℕ → ℕ)
unfolding initial_sp initial_frame
prepare_initial_stack m entry kstack_top =
    (initial_sp kstack_top, write_qwords m (initial_sp kstack_top) (initial_frame entry kstack_top))

unfoldable pub scheduler_init : Kernel → Kernel
scheduler_init k = record k {
  tasks = set_task k.tasks k.init_task (record blank_task { next = k.init_task });
  task_ring = k.init_task;
  current = null;
  next_pid = 1;
}

-- `t` becomes the last task of the ring
unfoldable pub insert_task : Kernel → ℕ → Kernel
insert_task k t =
    let linked : TaskStore =
      set_task k.tasks t (record (k.tasks t) { next = (k.tasks k.task_ring).next }) in
    if k.task_ring == null
    then record k { task_ring = t; tasks = set_task k.tasks t (record (k.tasks t) { next = t }) }
    else record k {
      tasks = set_task linked k.task_ring (record (linked k.task_ring) { next = t });
      task_ring = t;
    }

-- what is written to the two new blocks, and the ring
pub start_task : Kernel → ℕ → ℕ → ℕ → ℕ → ℕ → ℕ → Kernel
unfolding insert_task prepare_initial_stack
start_task k t kstack stack_size entry user_mem user_mem_size =
    let (sp, qwords) = prepare_initial_stack k.qwords entry (add64 kstack stack_size) in
    let task : Task = record blank_task {
      pid = k.next_pid;
      state = task_ready;
      regs = sp;
      kstack = kstack;
      kstack_size = stack_size;
      user_mem = user_mem;
      user_mem_size = user_mem_size;
    } in
    insert_task
      (record k { tasks = set_task k.tasks t task; qwords = qwords; next_pid = k.next_pid + 1 }) t

abbrev pub stack_size_or_default : ℕ → ℕ
stack_size_or_default n = if n == 0 then kstack_default else n

-- The two allocations and what follows; the first result is the new task, NULL on failure.
pub create : ℕ → Kernel → ℕ → ℕ → ℕ → ℕ → Option (ℕ × Kernel)
unfolding start_task
create fuel k entry stack_size user_mem user_mem_size = malloc fuel k.heap task_size >>= λ (t, h).
    let made =
      (malloc fuel h stack_size >>= λ (kstack, h'). some (
        if kstack == null then (null, record k { heap = free h' t }) else (
          t,
          start_task (record k { heap = h' }) t kstack stack_size entry user_mem user_mem_size,
        ))) in
    if t == null then some (null, record k { heap = h }) else made

unfoldable pub task_create : ℕ → Kernel → ℕ → ℕ → Option Kernel
unfolding create
task_create fuel k entry stack_size =
    create fuel k entry (stack_size_or_default stack_size) null 0 >>= λ (t, k'). some k'

-- the new task's pid, or 0
unfoldable pub utask_create : ℕ → Kernel → ℕ → ℕ → ℕ → ℕ → Option (ℕ × Kernel)
unfolding create
utask_create fuel k entry stack_size user_mem user_mem_size =
    create fuel k entry (stack_size_or_default stack_size) user_mem user_mem_size >>= λ (t, k').
    some (if t == null then (0, k') else ((k'.tasks t).pid, k'))

abbrev pub runnable : TaskState → Bool
runnable task_running = true
runnable task_ready = true
runnable task_blocked = false
runnable task_zombie = false

-- `do { ... } while (it != start)`; a result of 0 is NULL
pub pick_loop : ℕ → TaskStore → ℕ → ℕ → Option ℕ
pick_loop zero m start it = none
pick_loop (suc k) m start it =
    let rest = pick_loop k m start (m it).next in
    if runnable (m it).state then some it else if (m it).next == start then some null else rest

unfoldable pub pick_next : ℕ → Kernel → Option ℕ
unfolding pick_loop
pick_next fuel k =
    let start = (k.tasks (if k.current == null then k.task_ring else k.current)).next in
    if k.task_ring == null then some null else pick_loop fuel k.tasks start start

abbrev pub was_running : TaskState → TaskState
was_running task_running = task_ready
was_running s = s

-- the first `if` of `schedule_from_isr`
pub save_regs : Kernel → ℕ → Kernel
save_regs k regs =
    let init : Task = record (k.tasks k.init_task) {
      kstack = k.init_task_stack;
      kstack_size = init_stack_size;
      regs = regs;
      state = task_running;
    } in
    let c = k.tasks k.current in
    if k.current == null
    then record k {
      tasks = set_task k.tasks k.init_task init;
      current = k.init_task;
      kstack_top = add64 k.init_task_stack init_stack_size;
    }
    else record k {
      tasks = set_task k.tasks k.current (record c { regs = regs; state = was_running c.state });
    }

-- the task `next` runs on: both branches behind `pick_next` write this
pub switch_to : Kernel → ℕ → Kernel
switch_to k next =
    let t = k.tasks next in
    record k {
      current = next;
      tasks = set_task k.tasks next (record t { state = task_running });
      kstack_top = add64 t.kstack t.kstack_size;
    }

-- the result is what goes to `*out_regs_ptr`
unfoldable pub schedule_from_isr : ℕ → Kernel → ℕ → Option (ℕ × Kernel)
unfolding save_regs switch_to
schedule_from_isr fuel k regs =
    let s = save_regs k regs in
    pick_next fuel s >>= λ next.
    some (if next == null then (regs, s) else ((s.tasks next).regs, switch_to s next))
