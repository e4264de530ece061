-- ===== src/Syscall/Tests.antt =====
-- The theorems on system calls at concrete inputs.
use kernel_c.Prelude.{
  ℕ, ◌+◌, ◌≤◌, ◌≡◌, inl, inr, refl, true, false, some, List, [], ◌∷◌, arith, if◌then◌else◌, ◌==◌,
  pos,
}
use kernel_c.Heap.{align_up}
use kernel_c.Heap.Cells.{cell, IsHeap}
use kernel_c.Kmalloc.Fit.{first_fit}
use kernel_c.Fs.{fs_read, read_bytes}
use kernel_c.Fs.Files.{fs_find_in_dir, fs_read_file_in_dir}
use kernel_c.Clock.{Timer}
use kernel_c.Vga.{glyph}
use kernel_c.Multitask.Frames.{resumes_at}
use kernel_c.Multitask.{Kernel}
use kernel_c.Multitask.Dispatch.{interrupts, eois}
use kernel_c.Multitask.Sample.{sample_cells, sample_heap, reaped-Members}
use kernel_c.Loader.{find_program}
use kernel_c.Loader.Decimal.{number, AreDigits}
use kernel_c.Loader.Sample.{sample_volume, program, ready_kernel, user_heap-IsHeap}
use kernel_c.Syscall.{System, Registers, decode, string_at, returned}
use kernel_c.Syscall.Handler.{with_kernel, syscall_handler}
use kernel_c.Syscall.Wrappers.{syscall_malloc, syscall_free, syscall_task_create}
use kernel_c.Syscall.Calls.{syscall_free-malloc}
use kernel_c.Syscall.Text.{sys_get_time_lem}
use kernel_c.Syscall.Start.{syscall_task_create-gets_turn}

-- the name "a" stands at 0x8000
abbrev machine : System
machine = record {
  kernel = record ready_kernel {
    heap = record sample_heap { bytes = λ a. if a == 0x8000 then 97 else 0 };
  };
  volume = sample_volume;
  screen = record { cells = λ i. glyph 32 7; x = 0; y = 0; ports = [] };
  keyboard = record {
    shift_down = false;
    caps_lock = false;
    ctrl_down = false;
    buf = [];
    head = 0;
    tail = 0;
  };
  firmware = λ a. 0;
  kbc = [];
}

machine-IsHeap : IsHeap machine.kernel.heap sample_cells
machine-IsHeap = record {
  above = omega arith;
  in_range = omega arith;
  chain = (refl, (refl, tt));
  head_is = refl;
  tail_is = refl;
}

abbrev no_registers : Registers
no_registers = record { rax = 0; rdi = 0; rsi = 0x9000; rdx = 0; r10 = 0; r8 = 0; r9 = 0 }

sys_get_time_lem_example :
    (k : Kernel) × (text : List ℕ) × (syscall_handler 11
        (record no_registers { rax = 5; rdi = 42 })
        machine
      ≡ some (returned 0x9000 (with_kernel machine k)))
    × (string_at 11 k 0x9000 ≡ some text)
    × AreDigits text
    × (number 0 text ≡ 42)
unfolding decode
sys_get_time_lem_example =
    sys_get_time_lem machine (record no_registers { rax = 5; rdi = 42 }) 42 0x9000 refl

syscall_free-malloc_run :
    (p : ℕ) × (s' : System) × (s'' : System) × (syscall_handler 9
        (syscall_malloc 100 no_registers)
        machine
      ≡ some (returned p s'))
    × (syscall_handler 9 (syscall_free p no_registers) s' ≡ some (returned 0 s''))
    × IsHeap s''.kernel.heap sample_cells
unfolding first_fit align_up
syscall_free-malloc_run =
    syscall_free-malloc 9 machine no_registers no_registers sample_cells 100 (cell 80 false ∷ [])
      (cell 20000 true) [] machine-IsHeap (refl, tt) (omega arith) (λ e. omega (arith, e)) refl

abbrev still_timer : Timer
still_timer = record {
  tick_time = 0;
  seconds = 0;
  system_clock = record { hh = 0; mm = 0; ss = 0 };
}

syscall_task_create-gets_turn_example :
    (k : Kernel) × (syscall_handler 9 (syscall_task_create 0x8000 0 no_registers) machine
      ≡ some (returned 3 (with_kernel machine k)))
    × ((k.tasks 0x1000A0).pid ≡ 3)
    × ((k.tasks 0x1000A0).user_mem ≡ 0x1000A0)
    × (read_bytes k.user_heap.bytes 0x1000A0 3 ≡ 0xF4 ∷ 0xF4 ∷ 0xF4 ∷ [])
    × (resumes_at k 0x1000A0 ≡ 0x1000A0)
    × ((n : ℕ) × (timer' : Timer) × (k' : Kernel) × (n ≤ 2)
        × (interrupts 9 still_timer k (λ i. 0x7000 + i) n ≡ some (eois n, timer', k'))
        × (k'.current ≡ 0x1000A0))
unfolding first_fit align_up find_program fs_find_in_dir fs_read_file_in_dir fs_read string_at
    decode
syscall_task_create-gets_turn_example =
    syscall_task_create-gets_turn 9 machine (syscall_task_create 0x8000 0 no_registers) 0x8000 97 []
      refl (λ e. omega (arith, e)) refl sample_cells (cell 80 false ∷ []) (cell 20000 true) []
      (cell 80 false ∷ cell 72 false ∷ []) (cell 19888 true) [] machine-IsHeap (omega arith)
      (0x1000 ∷ 0x100028 ∷ []) [] (0x100028 ∷ [])
      (record {
        others = reaped-Members.others;
        order = reaped-Members.order;
        ring = reaped-Members.ring;
      })
      refl (omega arith)
      (inl refl, (inr ([], cell 80 false, cell 20000 true ∷ [], refl, refl, refl), tt))
      (omega arith) (λ e. omega (arith, e)) refl refl sample_cells user_heap-IsHeap (omega arith)
      (λ e. omega (arith, e)) 1 program (pos 0) (0xF4 ∷ 0xF4 ∷ 0xF4 ∷ []) (cell 80 false ∷ [])
      (cell 20000 true) [] still_timer (λ i. 0x7000 + i) refl (λ e. omega (arith, e)) refl
      (λ e. omega (arith, e)) refl
      (record {
        ticks = omega arith;
        time = record { hour = omega arith; minute = omega arith; second = omega arith };
      })
      (omega arith)
