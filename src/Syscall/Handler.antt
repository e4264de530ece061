-- ===== src/Syscall/Handler.antt =====
-- `syscall_handler`: what each call does to the system.
use kernel_c.Prelude.{
  ℕ, Bool, true, false, Option, none, some, ◌>>=◌, List, if◌then◌else◌, ◌==◌, length,
}
use kernel_c.Heap.{Heap, null}
use kernel_c.Vga.{
  print_char_position, print_string_position, print_char, print_string, backspace, clean_screen,
}
use kernel_c.Keyboard.{kbd_getchar}
use kernel_c.Kmalloc.{malloc, free}
use kernel_c.Kmalloc.Realloc.{realloc}
use kernel_c.Kmalloc.Stats.{get_kmalloc_stats}
use kernel_c.Power.Off.{power_off, reboot_system}
use kernel_c.Multitask.{Kernel}
use kernel_c.Multitask.Zombies.{
  Stopped, task_list, task_stop, reap_zombies, task_exit, task_is_alive,
}
use kernel_c.Multitask.Zombies
use kernel_c.Loader.{load_and_run_program, uint_to_str}
use kernel_c.Syscall.{
  System, Registers, Call, sys_print_char_position, sys_print_string_position, sys_print_char,
  sys_print_string, sys_backspace, sys_get_time, sys_clean_screen, sys_malloc, sys_realloc,
  sys_free, sys_kmalloc_stats, sys_getchar, sys_setposcursor, sys_power_off, sys_reboot,
  sys_task_create, sys_task_list, sys_task_stop, sys_reap_zombies, sys_task_exit, sys_task_is_alive,
  int_word, typed_word, decode, poke_bytes, string_at, stats_bytes, infos_bytes, move_cursor,
  Outcome, returned, halted, off, restarted,
}

abbrev pub with_kernel : System → Kernel → System
with_kernel s k = record s { kernel = k }

abbrev pub with_heap : System → Heap → System
with_heap s h = record s { kernel = record s.kernel { heap = h } }

-- `!str` of `load_and_run_program`
abbrev pub name_at : ℕ → Kernel → ℕ → Option (Option (List ℕ))
name_at fuel k a =
    let name = (string_at fuel k a >>= λ str. some (some str)) in
    if a == null then some none else name

-- `(int)` of a truth value
abbrev pub truth : Bool → ℕ
truth true = 1
truth false = 0

abbrev pub after_stop : System → Stopped → Outcome
after_stop s (Zombies.returned r k) = returned (int_word r) (with_kernel s k)
after_stop s (Zombies.halted k) = halted (with_kernel s k)

-- the body of each `case`
-- Pointers are not checked: see the memory of the caller in Lib.antt and Syscall.antt.
unfoldable pub perform : ℕ → Call → System → Option Outcome
perform fuel (sys_print_char_position c x y fg bg) s =
    some (returned 0 (record s { screen = print_char_position s.screen c x y fg bg }))
perform fuel (sys_print_string_position p x y fg bg) s = string_at fuel s.kernel p >>= λ str.
    some (returned 0 (record s { screen = print_string_position s.screen str x y fg bg }))
perform fuel (sys_print_char c fg bg) s =
    some (returned 0 (record s { screen = print_char s.screen c fg bg }))
perform fuel (sys_print_string p fg bg) s = string_at fuel s.kernel p >>= λ str.
    some (returned 0 (record s { screen = print_string s.screen str fg bg }))
perform fuel sys_backspace s = some (returned 0 (record s { screen = backspace s.screen }))
perform fuel (sys_get_time value buf) s = uint_to_str fuel value >>= λ text.
    some (returned buf (with_kernel s (poke_bytes s.kernel buf text)))
perform fuel sys_clean_screen s = some (returned 0 (record s { screen = clean_screen s.screen }))
perform fuel (sys_malloc size) s =
    malloc fuel s.kernel.heap size >>= λ (p, h). some (returned p (with_heap s h))
perform fuel (sys_realloc p size) s =
    realloc fuel s.kernel.heap p size >>= λ (q, h). some (returned q (with_heap s h))
perform fuel (sys_free p) s = some (returned 0 (with_heap s (free s.kernel.heap p)))
perform fuel (sys_kmalloc_stats p) s =
    let counted =
      (get_kmalloc_stats fuel s.kernel.heap >>= λ st.
      some (returned 0 (with_kernel s (poke_bytes s.kernel p (stats_bytes st))))) in
    if p == null then some (returned 0 s) else counted
perform fuel sys_getchar s =
    let (c, k) = kbd_getchar s.keyboard in
    some (returned (typed_word c) (record s { keyboard = k }))
perform fuel (sys_setposcursor x y) s =
    some (returned 0 (record s { screen = move_cursor s.screen x y }))
perform fuel sys_power_off s = some (off (power_off s.firmware) s)
perform fuel sys_reboot s = reboot_system s.kbc >>= λ writes. some (restarted writes s)
perform fuel (sys_task_create p) s = name_at fuel s.kernel p >>= λ name.
    load_and_run_program fuel s.kernel s.volume name >>= λ (pid, k).
    some (returned pid (with_kernel s k))
perform fuel (sys_task_list buf max) s = task_list fuel s.kernel max >>= λ (infos, k).
    some (returned (length infos) (with_kernel s (poke_bytes k buf (infos_bytes infos))))
perform fuel (sys_task_stop pid) s =
    task_stop fuel s.kernel pid >>= λ stopped. some (after_stop s stopped)
perform fuel sys_reap_zombies s =
    reap_zombies fuel s.kernel >>= λ k. some (returned 0 (with_kernel s k))
perform fuel (sys_task_exit code) s =
    task_exit fuel s.kernel code >>= λ k. some (returned 0 (with_kernel s k))
perform fuel (sys_task_is_alive pid) s = task_is_alive fuel s.kernel pid >>= λ (alive, k).
    some (returned (truth alive) (with_kernel s k))

-- a number that no `case` has returns `(uintptr_t)-1`
abbrev pub perform_or_refuse : ℕ → Option Call → System → Option Outcome
perform_or_refuse fuel none s = some (returned 18446744073709551615 s)
perform_or_refuse fuel (some call) s = perform fuel call s

unfoldable pub syscall_handler : ℕ → Registers → System → Option Outcome
unfolding perform decode
syscall_handler fuel r s = perform_or_refuse fuel (decode r) s
