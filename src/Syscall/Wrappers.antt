-- ===== src/Syscall/Wrappers.antt =====
-- The wrappers of syscall/syscall.h: what a program puts into the registers before `syscall`. A wrapper
-- leaves the other registers as they are `before`. A `char` and an `int` are extended by their sign.
use kernel_c.Prelude.{ℕ, ◌^◌, ◌<◌, ℤ, pos, negsuc, u32}
use kernel_c.Syscall.{
  Registers, Call, sys_print_char_position, sys_print_string_position, sys_get_time, sys_malloc,
  sys_realloc, sys_free, sys_kmalloc_stats, sys_getchar, sys_setposcursor, sys_power_off,
  sys_reboot, sys_task_create, sys_task_list, sys_task_stop, sys_reap_zombies, sys_task_exit,
  int_word, char_word,
}

abbrev pub syscall_print_char : ℕ → ℕ → ℕ → ℕ → ℕ → Registers → Registers
syscall_print_char c x y fg bg before = record before {
  rax = 0;
  rdi = char_word c;
  rsi = x;
  rdx = y;
  r10 = fg;
  r8 = bg;
}

abbrev pub syscall_print_string : ℕ → ℕ → ℕ → ℕ → ℕ → Registers → Registers
syscall_print_string str x y fg bg before = record before {
  rax = 1;
  rdi = str;
  rsi = x;
  rdx = y;
  r10 = fg;
  r8 = bg;
}

abbrev pub syscall_get_time : ℕ → Registers → Registers
syscall_get_time buf before = record before { rax = 5; rdi = buf }

abbrev pub syscall_malloc : ℕ → Registers → Registers
syscall_malloc size before = record before { rax = 10; rdi = size }

abbrev pub syscall_free : ℕ → Registers → Registers
syscall_free ptr before = record before { rax = 12; rdi = ptr }

abbrev pub syscall_realloc : ℕ → ℕ → Registers → Registers
syscall_realloc ptr size before = record before { rax = 11; rdi = ptr; rsi = size }

abbrev pub syscall_kmalloc_stats : ℕ → Registers → Registers
syscall_kmalloc_stats stats before = record before { rax = 13; rdi = stats }

abbrev pub syscall_getchar : Registers → Registers
syscall_getchar before = record before { rax = 30 }

abbrev pub syscall_setposcursor : ℕ → ℕ → Registers → Registers
syscall_setposcursor x y before = record before { rax = 31; rdi = x; rsi = y }

abbrev pub syscall_power_off : Registers → Registers
syscall_power_off before = record before { rax = 100 }

abbrev pub syscall_reboot : Registers → Registers
syscall_reboot before = record before { rax = 101 }

abbrev pub syscall_task_create : ℕ → ℕ → Registers → Registers
syscall_task_create entry stack_size before = record before {
  rax = 200;
  rdi = entry;
  rsi = stack_size;
}

abbrev pub syscall_task_list : ℕ → ℕ → Registers → Registers
syscall_task_list buf max before = record before { rax = 201; rdi = buf; rsi = max }

abbrev pub syscall_task_stop : ℤ → Registers → Registers
syscall_task_stop pid before = record before { rax = 202; rdi = int_word pid }

abbrev pub syscall_reap_zombies : Registers → Registers
syscall_reap_zombies before = record before { rax = 203 }

abbrev pub syscall_task_exit : ℤ → Registers → Registers
syscall_task_exit exit_code before = record before { rax = 204; rdi = int_word exit_code }

-- a wrapper with its arguments
pub data Request : Type 0 where
  ask_print_char : ℕ → ℕ → ℕ → ℕ → ℕ → Request
  ask_print_string : ℕ → ℕ → ℕ → ℕ → ℕ → Request
  ask_get_time : ℕ → Request
  ask_malloc : ℕ → Request
  ask_free : ℕ → Request
  ask_realloc : ℕ → ℕ → Request
  ask_kmalloc_stats : ℕ → Request
  ask_getchar : Request
  ask_setposcursor : ℕ → ℕ → Request
  ask_power_off : Request
  ask_reboot : Request
  ask_task_create : ℕ → ℕ → Request
  ask_task_list : ℕ → ℕ → Request
  ask_task_stop : ℤ → Request
  ask_reap_zombies : Request
  ask_task_exit : ℤ → Request

pub registers : Request → Registers → Registers
registers (ask_print_char c x y fg bg) before = syscall_print_char c x y fg bg before
registers (ask_print_string str x y fg bg) before = syscall_print_string str x y fg bg before
registers (ask_get_time buf) before = syscall_get_time buf before
registers (ask_malloc size) before = syscall_malloc size before
registers (ask_free ptr) before = syscall_free ptr before
registers (ask_realloc ptr size) before = syscall_realloc ptr size before
registers (ask_kmalloc_stats stats) before = syscall_kmalloc_stats stats before
registers ask_getchar before = syscall_getchar before
registers (ask_setposcursor x y) before = syscall_setposcursor x y before
registers ask_power_off before = syscall_power_off before
registers ask_reboot before = syscall_reboot before
registers (ask_task_create entry stack_size) before = syscall_task_create entry stack_size before
registers (ask_task_list buf max) before = syscall_task_list buf max before
registers (ask_task_stop pid) before = syscall_task_stop pid before
registers ask_reap_zombies before = syscall_reap_zombies before
registers (ask_task_exit exit_code) before = syscall_task_exit exit_code before

-- The call that the handler makes of it: `syscall_get_time` puts its buffer where the handler looks for
-- the number to write, and `syscall_task_create` an address of code where it looks for a name.
pub asked : Request → Registers → Call
asked (ask_print_char c x y fg bg) before = sys_print_char_position c x y fg bg
asked (ask_print_string str x y fg bg) before = sys_print_string_position str x y fg bg
asked (ask_get_time buf) before = sys_get_time (u32 buf) before.rsi
asked (ask_malloc size) before = sys_malloc size
asked (ask_free ptr) before = sys_free ptr
asked (ask_realloc ptr size) before = sys_realloc ptr size
asked (ask_kmalloc_stats stats) before = sys_kmalloc_stats stats
asked ask_getchar before = sys_getchar
asked (ask_setposcursor x y) before = sys_setposcursor x y
asked ask_power_off before = sys_power_off
asked ask_reboot before = sys_reboot
asked (ask_task_create entry stack_size) before = sys_task_create entry
asked (ask_task_list buf max) before = sys_task_list buf max
asked (ask_task_stop pid) before = sys_task_stop pid
asked ask_reap_zombies before = sys_reap_zombies
asked (ask_task_exit exit_code) before = sys_task_exit (u32 (int_word exit_code))

unfoldable pub IsInt : ℤ → Type 0
IsInt (pos n) = n < 2147483648
IsInt (negsuc n) = n < 2147483648

-- the arguments are of the types that the wrapper declares, where the handler narrows them
unfoldable pub Fits : Request → Type 0
Fits (ask_print_char c x y fg bg) =
    (c < 256) × (x < 2 ^ 32) × (y < 2 ^ 32) × (fg < 256) × (bg < 256)
Fits (ask_print_string str x y fg bg) = (x < 2 ^ 32) × (y < 2 ^ 32) × (fg < 256) × (bg < 256)
Fits (ask_get_time buf) = Unit
Fits (ask_malloc size) = Unit
Fits (ask_free ptr) = Unit
Fits (ask_realloc ptr size) = Unit
Fits (ask_kmalloc_stats stats) = Unit
Fits ask_getchar = Unit
Fits (ask_setposcursor x y) = (x < 256) × (y < 256)
Fits ask_power_off = Unit
Fits ask_reboot = Unit
Fits (ask_task_create entry stack_size) = Unit
Fits (ask_task_list buf max) = Unit
Fits (ask_task_stop pid) = IsInt pid
Fits ask_reap_zombies = Unit
Fits (ask_task_exit exit_code) = Unit
