-- ===== src/Loader.antt =====
-- The programs of the volume as tasks: `load_and_run_program` and `uint_to_str` of syscall/syscall.c, and
-- tasks/tasks.c. A program is a file in /bin. Its bytes go to a block of the programs' heap, where
-- the task starts. `none` means that the fuel of a loop ran out.
pub mod Launch
pub mod Misses
pub mod First
pub mod Decimal
pub mod Sample
mod Tests
use kernel_c.Prelude.{
  ℕ, zero, suc, ◌+◌, ◌-◌, ◌/◌, ◌%◌, Option, none, some, ◌>>=◌, List, [], ◌∷◌, ◌++◌, if◌then◌else◌,
  ◌==◌, ltb, ℤ, pos, u32,
}
use kernel_c.Heap.{null}
use kernel_c.CString.{memset}
use kernel_c.Umalloc.{user_malloc, user_free}
use kernel_c.Fs.{write_bytes}
use kernel_c.Fs.Table.{Entry, Volume}
use kernel_c.Fs.Files.{fs_find_in_dir, fs_read_file_in_dir}
use kernel_c.Multitask.{Kernel, task_create, utask_create}
use kernel_c.Multitask.Zombies.{cli, sti}

-- "bin", "terminal"
abbrev pub bin : List ℕ
bin = 98 ∷ 105 ∷ 110 ∷ []

abbrev pub terminal : List ℕ
terminal = 116 ∷ 101 ∷ 114 ∷ 109 ∷ 105 ∷ 110 ∷ 97 ∷ 108 ∷ []

-- the index of /bin, and the entry of the file in it
unfoldable pub find_program : Volume → List ℕ → Option (ℕ × Entry)
unfolding fs_find_in_dir
find_program v name = fs_find_in_dir v.entries (some bin) none (pos 0) >>= λ dir.
    fs_find_in_dir v.entries (some name) (some bin) (pos dir) >>= λ i. some (dir, v.entries i)

-- `entry.size + 1024` is computed in 32 bits
abbrev pub room_for : ℕ → ℕ
room_for size = u32 (size + 1024)

-- the block at `mem`, cleared and filled
unfoldable pub filled : Kernel → ℕ → ℕ → List ℕ → Kernel
unfolding memset
filled k mem size bytes = record k {
  user_heap = record k.user_heap {
    bytes = write_bytes (memset k.user_heap.bytes mem 0 size) mem bytes;
  };
}

-- the task, or the memory back
unfoldable pub run_program : ℕ → Kernel → ℕ → ℕ → Option (ℕ × Kernel)
run_program fuel k mem size = utask_create fuel k mem 16384 mem size >>= λ (pid, k'). some (
    if pid == 0
    then (0, sti (record k' { user_heap = user_free k'.user_heap mem }))
    else (pid, sti k'))

-- from the call of `user_malloc` on
unfoldable pub load_program : ℕ → Kernel → Volume → List ℕ → ℕ → ℕ → Option (ℕ × Kernel)
unfolding filled run_program
load_program fuel k v name dir size = user_malloc fuel k.user_heap (room_for size) >>= λ (mem, h).
    let started =
      (fs_read_file_in_dir fuel v (some name) (some bin) (pos dir) size >>= λ (r, bytes).
      run_program fuel (filled (record k { user_heap = h }) mem size bytes) mem size) in
    if mem == null then some (0, sti (record k { user_heap = h })) else started

-- what follows the search in /bin
unfoldable pub run_found : ℕ → Kernel → Volume → List ℕ → Option (ℕ × Entry) → Option (ℕ × Kernel)
unfolding load_program
run_found fuel k v name none = some (0, sti k)
run_found fuel k v name (some (dir, entry)) =
    let loaded = load_program fuel k v name dir entry.size in
    if entry.size == 0 then some (0, sti k) else loaded

-- the name is a C string that may be NULL; -1 is 2^64 - 1
unfoldable pub load_and_run_program : ℕ → Kernel → Volume → Option (List ℕ) → Option (ℕ × Kernel)
unfolding find_program run_found
load_and_run_program fuel k v none = some (18446744073709551615, sti (cli k))
load_and_run_program fuel k v (some []) = some (18446744073709551615, sti (cli k))
load_and_run_program fuel k v (some (c ∷ name)) =
    run_found fuel (cli k) v (c ∷ name) (find_program v (c ∷ name))

-- `load_and_run_terminal` from the call of `user_malloc` on
unfoldable pub load_terminal : ℕ → Kernel → Volume → ℕ → ℕ → Option Kernel
load_terminal fuel k v dir size = user_malloc fuel k.user_heap (room_for size) >>= λ (mem, h).
    let started =
      (fs_read_file_in_dir fuel v (some terminal) (some bin) (pos dir) size >>= λ (r, bytes).
      utask_create fuel
        (record k { user_heap = record h { bytes = write_bytes h.bytes mem bytes } }) mem 0 mem size
      >>= λ (pid, k'). some k') in
    if mem == null then some (record k { user_heap = h }) else started

pub terminal_found : ℕ → Kernel → Volume → Option (ℕ × Entry) → Option Kernel
unfolding load_terminal
terminal_found fuel k v none = some k
terminal_found fuel k v (some (dir, entry)) = load_terminal fuel k v dir entry.size

unfoldable pub load_and_run_terminal : ℕ → Kernel → Volume → Option Kernel
unfolding find_program terminal_found
load_and_run_terminal fuel k v = terminal_found fuel k v (find_program v terminal)

-- `clock_task` and `reaper_task` are the addresses of `user_task1` and `zombie_reaper_task`
unfoldable pub tasks_init : ℕ → Kernel → Volume → ℕ → ℕ → Option Kernel
unfolding load_and_run_terminal
tasks_init fuel k v clock_task reaper_task = task_create fuel k clock_task 0 >>= λ k1.
    load_and_run_terminal fuel k1 v >>= λ k2. task_create fuel k2 reaper_task 0

-- `while (value > 0)`; the digits so far, the last first: the order in which the second loop
-- copies them to `buf`
unfoldable pub digits_loop : ℕ → ℕ → List ℕ → Option (List ℕ)
digits_loop zero value digits = none
digits_loop (suc n) value digits =
    let rest = digits_loop n (value / 10) ((48 + value % 10) ∷ digits) in
    if value == 0 then some digits else rest

-- what is written to `buf`, with its NUL
unfoldable pub uint_to_str : ℕ → ℕ → Option (List ℕ)
unfolding digits_loop
uint_to_str fuel value =
    if u32 value == 0
    then some (48 ∷ 0 ∷ [])
    else (digits_loop fuel (u32 value) [] >>= λ digits. some (digits ++ 0 ∷ []))
