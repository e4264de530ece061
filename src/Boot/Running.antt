-- ===== src/Boot/Running.antt =====
-- `kmain` up to its last loop: the first tasks are there, and interrupts are on.
use kernel_c.Prelude.{
  ℕ, ◌+◌, ◌-◌, ◌^◌, ◌≤◌, ◌<◌, ◌≡◌, ◌≢◌, refl, sym, ap, ◌∙◌, subst, arith, true, some, ◌>>=◌, List,
  [], ◌∷◌, length, pos,
}
use kernel_c.Heap.{null, header_size, align_up}
use kernel_c.Heap.Cells.{cell}
use kernel_c.Kmalloc.Fit.{found, first_fit}
use kernel_c.Clock.{ClockTime, rtc_wait_ready}
use kernel_c.Fs.{fat_entries}
use kernel_c.Fs.Table.{Volume, fs_init}
use kernel_c.Fs.Table.Tree.{IsTree}
use kernel_c.Fs.Table.Steps.{fs_init-IsTree}
use kernel_c.Multitask.{Kernel, scheduler_init}
use kernel_c.Multitask.Zombies.{sti}
use kernel_c.Loader.{terminal, room_for, tasks_init}
use kernel_c.Loader.First.{FirstTasks, tasks_init_lem}
use kernel_c.Boot.{
  load_apps, all_apps, Images, Platform, Machine, init_kernel, set_up, prepare, kmain,
}
use kernel_c.Umalloc.{user_malloc_init}
use kernel_c.Boot.Prepared.{AllFit, load_apps-IsTree, clock_set, IsPrepared, set_up-IsPrepared}
use kernel_c.Boot.Installed.{Installed}

FirstTasks-sti :
    (k k' : Kernel) (ts : List ℕ) (clock_task reaper_task mem : ℕ) (bytes : List ℕ)
    → FirstTasks k k' ts clock_task reaper_task mem bytes
    → FirstTasks k (sti k') ts clock_task reaper_task mem bytes
FirstTasks-sti k k' ts clock_task reaper_task mem bytes f = record {
  clock = f.clock;
  shell = f.shell;
  reaper = f.reaper;
  members = record { others = f.members.others; order = f.members.order; ring = f.members.ring };
  clock_ready = f.clock_ready;
  shell_ready = f.shell_ready;
  reaper_ready = f.reaper_ready;
  clock_starts = f.clock_starts;
  shell_starts = f.shell_starts;
  reaper_starts = f.reaper_starts;
  clock_pid = f.clock_pid;
  shell_pid = f.shell_pid;
  reaper_pid = f.reaper_pid;
  shell_mem = f.shell_mem;
  loaded = f.loaded;
  three_pids = f.three_pids;
}

first_fit_whole :
    (n size : ℕ) → size ≤ n → first_fit size (cell n true ∷ []) ≡ found [] (cell n true) []
unfolding first_fit
first_fit_whole n size room = ground arith

aligned_fits : (n size : ℕ) → size + 1032 ≤ n → n < 2 ^ 64 → align_up (size + 1024) ≤ n
unfolding align_up
aligned_fits n size room small = omega (arith, room, small)

-- what runs when `kmain` has come to its last loop
pub record IsRunning (p : Platform) (m m' : Machine) (image : List ℕ) : Type 0 where
  pub before : Kernel
  pub first_pid : before.next_pid ≡ 1
  pub tasks :
      FirstTasks before m'.system.kernel
        (m.system.kernel.init_task ∷ [])
        p.clock_task
        p.reaper_task
        (m.system.kernel.user_heap.heap_start + header_size)
        image
  pub interrupts_on : m'.system.kernel.interrupts ≡ true
  pub files : IsTree m'.system.volume.entries

user_start :
    (p : Platform) (m : Machine) (now : ClockTime) (v : Volume)
    → (set_up p m now v).system.kernel.user_heap.heap_start ≡ m.system.kernel.user_heap.heap_start
unfolding set_up scheduler_init init_kernel user_malloc_init
user_start p m now v = ground arith

set_up-pid :
    (p : Platform) (m : Machine) (now : ClockTime) (v : Volume)
    → (set_up p m now v).system.kernel.next_pid ≡ 1
unfolding set_up scheduler_init
set_up-pid p m now v = refl

set_up-volume :
    (p : Platform) (m : Machine) (now : ClockTime) (v : Volume)
    → (set_up p m now v).system.volume ≡ v
unfolding set_up
set_up-volume p m now v = refl

kmain-ran :
    (fuel : ℕ) (p : Platform) (images : Images) (m m1 : Machine) (k : Kernel)
    → prepare fuel p images m ≡ some m1
    → tasks_init fuel m1.system.kernel m1.system.volume p.clock_task p.reaper_task ≡ some k
    → kmain fuel p images m ≡ some (record m1 { system = record m1.system { kernel = sti k } })
unfolding kmain
kmain-ran fuel p images m m1 k ready ran =
    ap
      (λ o. o >>= λ j.
        tasks_init fuel j.system.kernel j.system.volume p.clock_task p.reaper_task >>= λ i.
        some (record j { system = record j.system { kernel = sti i } }))
      ready
    ∙ ap (λ o. o >>= λ i. some (record m1 { system = record m1.system { kernel = sti i } })) ran

prepare-ran :
    (fuel : ℕ) (p : Platform) (images : Images) (m : Machine) (left : List ℕ) (v : Volume)
    → rtc_wait_ready p.rtc_status ≡ some left
    → load_apps fuel (fs_init m.system.volume.disk) (all_apps images) ≡ some v
    → (now : ClockTime) × (prepare fuel p images m ≡ some (set_up p m now v))
unfolding prepare
prepare-ran fuel p images m left v ready loaded =
    let (now, ticking) =
      clock_set p.rtc_status left p.rtc_ss p.rtc_mm p.rtc_hh p.rtc_reg_b p.rtc_hh_again ready in
    (now, rw (ticking, loaded) refl)

loaded-IsTree :
    (fuel : ℕ) (images : Images) (m : Machine) (v : Volume)
    → fat_entries < fuel
    → AllFit fuel (all_apps images)
    → load_apps fuel (fs_init m.system.volume.disk) (all_apps images) ≡ some v
    → IsTree v.entries
loaded-IsTree fuel images m v enough fit loaded =
    let (w, ran, tree) =
      load_apps-IsTree fuel (fs_init m.system.volume.disk) (all_apps images) enough fit
        (fs_init-IsTree m.system.volume.disk).0 in
    let same : some w ≡ some v = sym ran ∙ loaded in
    let same' : w ≡ v = cc in subst (λ (u : Volume). IsTree u.entries) same' tree

module _ (p : Platform) (m : Machine) (low : 0x100000 ≤ m.system.kernel.heap.heap_start)
    (large : m.system.kernel.heap.heap_start + 25128 ≤ p.heap_end)
    (range : p.heap_end < 18446744073709551616) (unused : m.system.kernel.user_heap.head ≡ null)
    (ulow : 0x100000 ≤ m.system.kernel.user_heap.heap_start)
    (urange : m.system.kernel.user_heap.managed_end < 18446744073709551616)
    (some_task : m.system.kernel.init_task ≢ null)
    (below : m.system.kernel.init_task < m.system.kernel.heap.heap_start) where
  -- `kmain` comes to its last loop with interrupts on, if the real-time clock gets ready and the loads leave
  -- the terminal installed: behind the first task the ring holds the clock, the terminal and the
  -- reaper, all three ready, with the pids 1, 2 and 3. The first frame of the clock's task returns to
  -- `clock_task`, that of the reaper's to `reaper_task`, and that of the terminal's to its memory, at
  -- the start of the programs' heap, which holds its image. The files are a tree. The kernel's heap has 25128 bytes or
  -- more, the programs' heap is yet unused and has room for the image, and the fuel is enough for the
  -- chains and the images.
  pub kmain_lem :
      (fuel : ℕ) (images : Images) (left : List ℕ) (v : Volume)
      → fat_entries < fuel
      → AllFit fuel (all_apps images)
      → rtc_wait_ready p.rtc_status ≡ some left
      → load_apps fuel (fs_init m.system.volume.disk) (all_apps images) ≡ some v
      → Installed fuel v terminal images.terminal_bin
      → 0 < length images.terminal_bin
      → length images.terminal_bin + 1024 < 2 ^ 32
      → m.system.kernel.user_heap.heap_start + header_size + (length images.terminal_bin + 1032)
        ≤ m.system.kernel.user_heap.managed_end
      → (m' : Machine) × (kmain fuel p images m ≡ some m') × IsRunning p m m' images.terminal_bin
  kmain_lem fuel images left v enough fit ready loaded installed some_left word uroom =
      let image : List ℕ = images.terminal_bin in
      let (now, prepared) = prepare-ran fuel p images m left v ready loaded in
      let m1 : Machine = set_up p m now v in
      let tree : IsTree v.entries = loaded-IsTree fuel images m v enough fit loaded in
      let is : IsPrepared p m m1 =
        set_up-IsPrepared p m low (omega (arith, large)) range unused ulow (omega (arith, uroom))
          urange some_task below now v tree in
      let size : ℕ =
        m.system.kernel.user_heap.managed_end - m.system.kernel.user_heap.heap_start
        - header_size in
      let room : room_for installed.entry.size ≡ length image + 1024 =
        omega (arith, installed.its_size, word) in
      let (k, ran, first) =
        tasks_init_lem fuel m1.system.kernel v (m.system.kernel.init_task ∷ []) []
          (p.heap_end - m.system.kernel.heap.heap_start - header_size) p.clock_task p.reaper_task
          installed.dir installed.entry (pos 0) image (cell size true ∷ []) [] (cell size true) []
          is.spare (omega (arith, enough)) (omega (arith, large)) installed.found installed.reads
          is.user_heap (omega (arith, enough))
          (λ e. omega (arith, e, is.user_heap.head_is, is.user_heap.above))
          (λ e. omega (arith, e, room))
          (rw room (
            first_fit_whole size (align_up (length image + 1024))
              (aligned_fits size (length image) (omega (arith, uroom)) (omega (arith, urange))))) in
      (
        record m1 { system = record m1.system { kernel = sti k } },
        kmain-ran fuel p images m m1 k prepared (
            ap (λ u. tasks_init fuel m1.system.kernel u p.clock_task p.reaper_task)
              (set_up-volume p m now v)
            ∙ ran),
        record {
          before = m1.system.kernel;
          first_pid = set_up-pid p m now v;
          tasks =
              FirstTasks-sti m1.system.kernel k (m.system.kernel.init_task ∷ []) p.clock_task
                p.reaper_task (m.system.kernel.user_heap.heap_start + header_size) image
                (subst
                  (λ a.
                    FirstTasks m1.system.kernel k (m.system.kernel.init_task ∷ []) p.clock_task
                      p.reaper_task a image)
                  (omega (arith, user_start p m now v)) first);
          interrupts_on = refl;
          files = subst (λ (u : Volume). IsTree u.entries) (sym (set_up-volume p m now v)) tree;
        },
      )
