-- ===== src/Multitask/Zombies.antt =====
-- The second half of multitask/multitask.c: how tasks end, and what asks after them.
use kernel_c.Prelude.{
  ℕ, zero, suc, ◌-◌, Bool, true, false, ◌&&◌, ◌||◌, not, Option, none, some, ◌>>=◌, List, [], ◌∷◌,
  if◌then◌else◌, ◌==◌, ltb, ℤ, pos, negsuc, u32,
}
use kernel_c.Heap.{null}
use kernel_c.Kmalloc.{free}
use kernel_c.Umalloc.{user_free}
use kernel_c.Multitask.{
  TaskState, task_running, task_ready, task_blocked, task_zombie, Task, TaskStore, Kernel, set_task,
}

abbrev pub cli : Kernel → Kernel
cli k = record k { interrupts = false }

abbrev pub sti : Kernel → Kernel
sti k = record k { interrupts = true }

abbrev pub set_next : TaskStore → ℕ → ℕ → TaskStore
set_next m p q = set_task m p (record (m p) { next = q })

unfoldable pub add_to_zombie_list : Kernel → ℕ → Kernel
add_to_zombie_list k t = if t == null then k else record k {
  tasks = set_task k.tasks t (record (k.tasks t) { znext = k.zombie_list });
  zombie_list = t;
}

-- The loop of `unlink_from_ring` from `it` on, behind `prev`; `first` is `task_ring->next`, which only
-- a round that returns changes.
unfoldable pub unlink_loop : ℕ → Kernel → ℕ → ℕ → ℕ → ℕ → Option (ℤ × Kernel)
unlink_loop zero k t prev it first = none
unlink_loop (suc n) k t prev it first =
    let rest = unlink_loop n k t it (k.tasks it).next first in
    let cut : Kernel = record k {
      tasks = set_next k.tasks prev (k.tasks it).next;
      task_ring = if k.task_ring == it then prev else k.task_ring;
    } in
    if it == t
    then some (pos 0, cut)
    else if (k.tasks it).next == first
    then some (negsuc 0, k)
    else rest

-- a ring of one task
pub unlink_single : Kernel → ℕ → ℤ × Kernel
unlink_single k t =
    if k.task_ring == t && not (k.init_task == t)
    then (
      pos 0,
      record k { task_ring = k.init_task; tasks = set_next k.tasks k.init_task k.init_task },
    )
    else (negsuc 0, k)

unfoldable pub unlink_from_ring : ℕ → Kernel → ℕ → Option (ℤ × Kernel)
unfolding unlink_loop unlink_single
unlink_from_ring fuel k t =
    let first = (k.tasks k.task_ring).next in
    if k.task_ring == null || t == null
    then some (negsuc 0, k)
    else if first == k.task_ring
    then some (unlink_single k t)
    else unlink_loop fuel k t k.task_ring first first

-- `if (t->user_mem)` of `free_task_resources`
unfoldable pub free_user_mem : Kernel → ℕ → Kernel
free_user_mem k t =
    let task = k.tasks t in
    if task.user_mem == null then k else record k {
      user_heap = user_free k.user_heap task.user_mem;
      tasks = set_task k.tasks t (record task { user_mem = null; user_mem_size = 0 });
    }

unfoldable pub free_task_resources : Kernel → ℕ → Kernel
unfolding free_user_mem
free_task_resources k t =
    let stack = (k.tasks t).kstack in
    let k1 = if stack == null then k else record k { heap = free k.heap stack } in
    let k2 = free_user_mem k1 t in
    if t == null || t == k.init_task then k else record k2 { heap = free k2.heap t }

-- `while (z)`, by the zombies left
unfoldable pub reap_loop : ℕ → ℕ → Kernel → ℕ → Option Kernel
reap_loop zero fuel k z = none
reap_loop (suc n) fuel k z =
    let rest =
      (unlink_from_ring fuel (cli k) z >>= λ (r, k').
      reap_loop n fuel (free_task_resources (sti k') z) (k.tasks z).znext) in
    if z == null then some k else rest

unfoldable pub reap_zombies : ℕ → Kernel → Option Kernel
unfolding reap_loop
reap_zombies fuel k =
    reap_loop fuel fuel (record k { zombie_list = null; interrupts = true }) k.zombie_list

-- `task_info_t`
pub record TaskInfo : Type 0 where
  pub pid : ℕ
  pub state : TaskState

-- `(int)max`, which is negative from 2^31 on: then no task fits
abbrev pub int_room : ℕ → ℕ
int_room max = if ltb (u32 max) 2147483648 then u32 max else 0

abbrev pub task_info : Task → TaskInfo
task_info t = record { pid = t.pid; state = t.state }

-- `room` is `(int)max - count`
unfoldable pub list_tasks_loop : ℕ → TaskStore → ℕ → ℕ → ℕ → Option (List TaskInfo)
list_tasks_loop zero m first it room = none
list_tasks_loop (suc n) m first it room =
    let rest = list_tasks_loop n m first (m it).next (room - 1) in
    let more : Option (List TaskInfo) = if (m it).next == first then some [] else rest in
    if room == 0 then some [] else more >>= λ infos. some (task_info (m it) ∷ infos)

-- what goes to `buf`, whose length is the result
unfoldable pub task_list : ℕ → Kernel → ℕ → Option (List TaskInfo × Kernel)
unfolding list_tasks_loop
task_list fuel k max =
    let first = (k.tasks k.task_ring).next in
    let listed =
      (list_tasks_loop fuel k.tasks first first (int_room max) >>= λ infos. some (infos, sti k)) in
    if k.task_ring == null then some ([], sti k) else listed

abbrev pub is_pid : Task → ℤ → Bool
is_pid t (pos n) = t.pid == n
is_pid t (negsuc n) = false

-- the search by pid, in `task_stop` and in `task_is_alive`; a result of 0 is NULL
unfoldable pub find_pid_loop : ℕ → TaskStore → ℤ → ℕ → ℕ → Option ℕ
find_pid_loop zero m pid first it = none
find_pid_loop (suc n) m pid first it =
    let rest = find_pid_loop n m pid first (m it).next in
    if is_pid (m it) pid then some it else if (m it).next == first then some null else rest

unfoldable pub find_pid : ℕ → Kernel → ℤ → Option ℕ
unfolding find_pid_loop
find_pid fuel k pid =
    let first = (k.tasks k.task_ring).next in
    if k.task_ring == null then some null else find_pid_loop fuel k.tasks pid first first

-- `task_stop` of the running task ends in a loop of `hlt`, and never returns
pub data Stopped : Type 0 where
  returned : ℤ → Kernel → Stopped
  halted : Kernel → Stopped

-- the branch `found == current`
unfoldable pub stop_current : ℕ → Kernel → Option Stopped
stop_current fuel k =
    let c = k.current in
    let marked = record k {
      tasks = set_task k.tasks c (record (k.tasks c) { state = task_zombie });
    } in
    unlink_from_ring fuel (add_to_zombie_list marked c) c >>= λ (r, k'). some (halted (sti k'))

unfoldable pub stop_other : ℕ → Kernel → ℕ → Option Stopped
stop_other fuel k t = unlink_from_ring fuel k t >>= λ (r, k').
    reap_zombies fuel (free_task_resources (sti k') t) >>= λ k''. some (returned (pos 0) k'')

unfoldable pub stop_found : ℕ → Kernel → ℕ → Option Stopped
unfolding stop_current stop_other
stop_found fuel k t =
    if t == null
    then some (returned (negsuc 0) (sti k))
    else if t == k.current
    then stop_current fuel k
    else stop_other fuel k t

unfoldable pub stop_pid : ℕ → Kernel → ℤ → Option Stopped
unfolding stop_found
stop_pid fuel k pid =
    reap_zombies fuel (cli k) >>= λ k'. find_pid fuel k' pid >>= λ t. stop_found fuel k' t

unfoldable pub task_stop : ℕ → Kernel → ℤ → Option Stopped
unfolding stop_pid
task_stop fuel k (pos zero) = some (returned (negsuc 0) k)
task_stop fuel k (pos (suc n)) = stop_pid fuel k (pos (suc n))
task_stop fuel k (negsuc n) = stop_pid fuel k (negsuc n)

-- the end of `task_exit`, behind its first `if`
unfoldable pub become_zombie : Kernel → ℕ → Kernel
become_zombie k exit_code =
    let c = k.current in
    sti (
      add_to_zombie_list
        (record k {
          tasks =
              set_task k.tasks c
                (record (k.tasks c) { exit_code = exit_code; state = task_zombie });
        })
        c)

unfoldable pub task_exit : ℕ → Kernel → ℕ → Option Kernel
unfolding become_zombie
task_exit fuel k exit_code = reap_zombies fuel (cli k) >>= λ k'.
    some
      (if k'.current == null || k'.current == k'.init_task then k' else become_zombie k' exit_code)

abbrev pub is_zombie : TaskState → Bool
is_zombie task_running = false
is_zombie task_ready = false
is_zombie task_blocked = false
is_zombie task_zombie = true

unfoldable pub alive_pid : ℕ → Kernel → ℤ → Option (Bool × Kernel)
alive_pid fuel k pid = reap_zombies fuel (cli k) >>= λ k'. find_pid fuel (cli k') pid >>= λ t.
    some (if t == null then false else not (is_zombie (k'.tasks t).state), sti k')

unfoldable pub task_is_alive : ℕ → Kernel → ℤ → Option (Bool × Kernel)
unfolding alive_pid
task_is_alive fuel k (pos zero) = some (true, cli k)
task_is_alive fuel k (pos (suc n)) = alive_pid fuel k (pos (suc n))
task_is_alive fuel k (negsuc n) = some (false, cli k)
