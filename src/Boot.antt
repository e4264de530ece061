-- ===== src/Boot.antt =====
-- kernel.c: `kmain` and what it installs. What the hardware yields on the way, the addresses of the
-- handlers and of the two tasks, and the images of the programs are arguments. `none` means that the
-- fuel of a loop ran out, or that the real-time clock was never ready.
pub mod Prepared
pub mod Installed
pub mod Running
mod Tests
use kernel_c.Prelude.{ℕ, Option, none, some, ◌>>=◌, List, [], ◌∷◌, ◌++◌, ℤ, pos, negsuc, sub64}
use kernel_c.Port.{PortWrite, outb}
use kernel_c.Clock.{Timer, ClockTime, init_timer, init_system_clock, rtc_ports}
use kernel_c.Idt.{Idt, idt_install}
use kernel_c.Kmalloc.{malloc_init}
use kernel_c.Umalloc.{user_malloc_init}
use kernel_c.Fs.Table.{Volume, fs_init, fs_mkdir}
use kernel_c.Fs.Files.{fs_find_in_dir, fs_write_file_in_dir}
use kernel_c.Vga.{clean_screen}
use kernel_c.Multitask.{Kernel, scheduler_init}
use kernel_c.Multitask.Zombies.{sti}
use kernel_c.Loader.{bin, terminal, tasks_init}
use kernel_c.Syscall.{System}

-- the folder, which is made if it is not there
unfoldable pub folder_of : Volume → List ℕ → ℤ × Volume
folder_of v folder = elim (fs_find_in_dir v.entries (some folder) none (pos 0)) [
  | none ↦ fs_mkdir v (some folder) (pos 0)
  | some dir ↦ (pos dir, v)
]

-- the write of the file, whose result is not looked at
unfoldable pub write_app : ℕ → ℤ × Volume → List ℕ → List ℕ → List ℕ → Option Volume
write_app fuel (pos dir, v) name ext image =
    fs_write_file_in_dir fuel v (some name) (some ext) (pos dir) image >>= λ (rc, w). some w
write_app fuel (negsuc e, v) name ext image = some v

unfoldable pub load_app_to_fs : ℕ → Volume → List ℕ → List ℕ → List ℕ → List ℕ → Option Volume
unfolding folder_of write_app
load_app_to_fs fuel v folder name ext image = write_app fuel (folder_of v folder) name ext image

-- "htop", "clear", "shutdown", "reboot"
abbrev pub htop : List ℕ
htop = 104 ∷ 116 ∷ 111 ∷ 112 ∷ []

abbrev pub clear : List ℕ
clear = 99 ∷ 108 ∷ 101 ∷ 97 ∷ 114 ∷ []

abbrev pub shutdown : List ℕ
shutdown = 115 ∷ 104 ∷ 117 ∷ 116 ∷ 100 ∷ 111 ∷ 119 ∷ 110 ∷ []

abbrev pub reboot : List ℕ
reboot = 114 ∷ 101 ∷ 98 ∷ 111 ∷ 111 ∷ 116 ∷ []

-- the images that are linked into the kernel
pub record Images : Type 0 where
  pub terminal_bin : List ℕ
  pub htop_bin : List ℕ
  pub clear_bin : List ℕ
  pub shutdown_bin : List ℕ
  pub reboot_bin : List ℕ

-- the calls of `load_app_to_fs`, with the name and the image of each
unfoldable pub load_apps : ℕ → Volume → List (List ℕ × List ℕ) → Option Volume
unfolding load_app_to_fs
load_apps fuel v [] = some v
load_apps fuel v ((name, image) ∷ apps) =
    load_app_to_fs fuel v bin name bin image >>= λ w. load_apps fuel w apps

abbrev pub all_apps : Images → List (List ℕ × List ℕ)
all_apps i =
    (terminal, i.terminal_bin)
    ∷ (htop, i.htop_bin)
    ∷ (clear, i.clear_bin)
    ∷ (shutdown, i.shutdown_bin)
    ∷ (reboot, i.reboot_bin)
    ∷ []

-- what the hardware yields, and what the linker knows
pub record Platform : Type 0 where
  pub stubs : ℕ → ℕ
  pub isr32 : ℕ
  pub isr33 : ℕ
  pub isr80 : ℕ
  pub mask1 : ℕ
  pub mask2 : ℕ
  pub rtc_status : List ℕ
  pub rtc_ss : ℕ
  pub rtc_mm : ℕ
  pub rtc_hh : ℕ
  pub rtc_reg_b : ℕ
  pub rtc_hh_again : ℕ
  pub heap_end : ℕ
  pub clock_task : ℕ
  pub reaper_task : ℕ

-- all that `kmain` sets up, and the port writes in their order
pub record Machine : Type 0 where
  pub idt : Idt
  pub timer : Timer
  pub system : System
  pub ports : List PortWrite

-- the part of the state that the two allocators and the scheduler start from
unfoldable pub init_kernel : Kernel → ℕ → Kernel
unfolding malloc_init user_malloc_init
init_kernel k heap_end = record k {
  heap = malloc_init k.heap k.heap.heap_start (sub64 heap_end k.heap.heap_start);
  user_heap = user_malloc_init k.user_heap;
}

-- the machine with the time that the clock gives and the volume with the programs
unfoldable pub set_up : Platform → Machine → ClockTime → Volume → Machine
unfolding init_kernel
set_up p m now v =
    let (idt, sent) = idt_install m.idt p.stubs p.isr32 p.isr33 p.isr80 p.mask1 p.mask2 in
    record m {
      idt = idt;
      timer = record m.timer { system_clock = now };
      system = record m.system {
        kernel = scheduler_init (init_kernel m.system.kernel p.heap_end);
        volume = v;
        screen = clean_screen m.system.screen;
      };
      ports =
          m.ports
          ++ (sent
              ++ ((rtc_ports p.rtc_status p.rtc_reg_b ++ init_timer 1000) ++ outb 0x21 0xFC ∷ []));
    }

-- `kmain` up to the call of `tasks_init`
unfoldable pub prepare : ℕ → Platform → Images → Machine → Option Machine
unfolding load_apps set_up
prepare fuel p images m =
    init_system_clock p.rtc_status p.rtc_ss p.rtc_mm p.rtc_hh p.rtc_reg_b p.rtc_hh_again >>= λ now.
    load_apps fuel (fs_init m.system.volume.disk) (all_apps images) >>= λ v. some (set_up p m now v)

-- up to the loop of `hlt` at its end
unfoldable pub kmain : ℕ → Platform → Images → Machine → Option Machine
unfolding prepare
kmain fuel p images m = prepare fuel p images m >>= λ m1.
    tasks_init fuel m1.system.kernel m1.system.volume p.clock_task p.reaper_task >>= λ k.
    some (record m1 { system = record m1.system { kernel = sti k } })
