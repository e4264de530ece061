-- ===== src/Boot/Prepared.antt =====
-- What `kmain` has set up when it starts the first tasks.
use kernel_c.Prelude.{
  ℕ, ◌+◌, ◌-◌, ◌*◌, ◌≤◌, ◌<◌, ◌≡◌, ◌≢◌, refl, sym, ap, ◌∙◌, arith, none, some, List, [], ◌∷◌, ◌++◌,
  append_assoc, length, ℤ, pos, negsuc, Option-cases, inl, inr, sub64, true, lt→ltb, u8,
}
use kernel_c.Heap.{null, header_size}
use kernel_c.Heap.Cells.{cell, IsHeap}
use kernel_c.Port.{PortWrite, outb}
use kernel_c.Clock.{
  rtc_ports, ClockTime, init_system_clock, rtc_wait_ready, read_rtc_time, init_timer,
}
use kernel_c.Kmalloc.{malloc_init}
use kernel_c.Kmalloc.Expand.{malloc_init-IsHeap}
use kernel_c.Umalloc.Laws.{user_malloc_init-IsHeap}
use kernel_c.Idt.{idt_install}
use kernel_c.Fs.{fat_entries, cluster_size}
use kernel_c.Fs.Table.{Volume, fs_init}
use kernel_c.Fs.Table.Tree.{IsTree}
use kernel_c.Fs.Table.Steps.{fs_init-IsTree, fs_mkdir-IsTree}
use kernel_c.Fs.Files.{fs_find_in_dir}
use kernel_c.Fs.Files.Writing.{fs_write_file_in_dir-IsTree}
use kernel_c.Vga.{glyph, blank_char, clean_screen}
use kernel_c.Multitask.{Kernel, scheduler_init}
use kernel_c.Kmalloc.Last.{AllUsed}
use kernel_c.Multitask.Growth.{Spare}
use kernel_c.Multitask.Members.{scheduler_init-Members}
use kernel_c.Loader.{bin}
use kernel_c.Boot.{
  folder_of, write_app, load_app_to_fs, load_apps, all_apps, Images, Platform, Machine, init_kernel,
  set_up, prepare,
}

folder_of-IsTree :
    (v : Volume) (folder : List ℕ) → IsTree v.entries → IsTree (folder_of v folder).1.entries
unfolding folder_of
folder_of-IsTree v folder is =
    elim (Option-cases (fs_find_in_dir v.entries (some folder) none (pos 0))) [
      | inl missing ↦ rw (folder_of, missing) (fs_mkdir-IsTree v (some folder) (pos 0) is)
      | inr (dir, found) ↦ rw (folder_of, found) is
    ]

write_app-IsTree :
    (fuel : ℕ) (made : ℤ × Volume) (name ext image : List ℕ)
    → fat_entries < fuel
    → length image ≤ fuel * cluster_size
    → IsTree made.1.entries
    → (w : Volume) × (write_app fuel made name ext image ≡ some w) × IsTree w.entries
unfolding write_app
write_app-IsTree fuel (negsuc e, v) name ext image enough room is = (v, refl, is)
write_app-IsTree fuel (pos dir, v) name ext image enough room is =
    let (r, ran, tree) =
      fs_write_file_in_dir-IsTree fuel v (some name) ext (pos dir) image enough room is in
    (r.1, rw ran refl, tree)

-- `load_app_to_fs` always returns, and keeps the tree, whether or not it could make the folder and
-- write the file.
pub load_app_to_fs-IsTree :
    (fuel : ℕ) (v : Volume) (folder name ext image : List ℕ)
    → fat_entries < fuel
    → length image ≤ fuel * cluster_size
    → IsTree v.entries
    → (w : Volume) × (load_app_to_fs fuel v folder name ext image ≡ some w) × IsTree w.entries
unfolding load_app_to_fs
load_app_to_fs-IsTree fuel v folder name ext image enough room is =
    write_app-IsTree fuel (folder_of v folder) name ext image enough room
      (folder_of-IsTree v folder is)

-- every image is at most as long as the fuel allows
abbrev pub AllFit : ℕ → List (List ℕ × List ℕ) → Type 0
AllFit fuel [] = Unit
AllFit fuel ((name, image) ∷ apps) = (length image ≤ fuel * cluster_size) × AllFit fuel apps

pub load_apps-IsTree :
    (fuel : ℕ) (v : Volume) (apps : List (List ℕ × List ℕ))
    → fat_entries < fuel
    → AllFit fuel apps
    → IsTree v.entries
    → (w : Volume) × (load_apps fuel v apps ≡ some w) × IsTree w.entries
unfolding load_apps
load_apps-IsTree fuel v [] enough fit is = (v, refl, is)
load_apps-IsTree fuel v ((name, image) ∷ apps) enough (room, fit) is =
    let (u, ran, tree) = load_app_to_fs-IsTree fuel v bin name bin image enough room is in
    let (w, rest, tree') = load_apps-IsTree fuel u apps enough fit tree in (w, rw ran rest, tree')

-- the state that the first tasks start from
pub record IsPrepared (p : Platform) (m m' : Machine) : Type 0 where
  pub spare :
      Spare m'.system.kernel
        (m.system.kernel.init_task ∷ [])
        []
        (p.heap_end - m.system.kernel.heap.heap_start - header_size)
  pub user_heap : IsHeap m'.system.kernel.user_heap (
      cell
        (m.system.kernel.user_heap.managed_end - m.system.kernel.user_heap.heap_start - header_size)
        true
      ∷ [])
  pub files : IsTree m'.system.volume.entries
  pub screen : (i : ℕ) → i < 80 * 25 → m'.system.screen.cells i ≡ glyph blank_char 7
  pub sent : List PortWrite
  pub unmasked : m'.ports ≡ sent ++ outb 0x21 0xFC ∷ []

init_heap :
    (k : Kernel) (heap_end : ℕ)
    → 0x100000 ≤ k.heap.heap_start
    → k.heap.heap_start + header_size ≤ heap_end
    → heap_end < 18446744073709551616
    → IsHeap
        (init_kernel k heap_end).heap
        (cell (heap_end - k.heap.heap_start - header_size) true ∷ [])
unfolding init_kernel
init_heap k heap_end low large range =
    let size : sub64 heap_end k.heap.heap_start ≡ heap_end - k.heap.heap_start =
      omega (arith, large, range) in
    rw size (
      (malloc_init-IsHeap k.heap (heap_end - k.heap.heap_start) low (omega (arith, large))
        (omega (arith, large, range))).0)

last_write :
    (before sent timer : List PortWrite) (w : PortWrite)
    → before ++ (sent ++ (timer ++ w ∷ [])) ≡ (before ++ (sent ++ timer)) ++ w ∷ []
last_write before sent timer w =
    ap (λ l. before ++ l) (sym (append_assoc sent timer (w ∷ [])))
    ∙ sym (append_assoc before (sent ++ timer) (w ∷ []))

pub clock_set :
    (status left : List ℕ) (ss mm hh reg_b hh_again : ℕ)
    → rtc_wait_ready status ≡ some left
    → (now : ClockTime) × (init_system_clock status ss mm hh reg_b hh_again ≡ some now)
unfolding init_system_clock
clock_set status left ss mm hh reg_b hh_again ready =
    let t : ClockTime = read_rtc_time ss mm hh reg_b hh_again in
    (record { hh = u8 t.hh; mm = u8 t.mm; ss = u8 t.ss }, rw (init_system_clock, ready) refl)

module _ (p : Platform) (m : Machine) (low : 0x100000 ≤ m.system.kernel.heap.heap_start)
    (large : m.system.kernel.heap.heap_start + header_size ≤ p.heap_end)
    (range : p.heap_end < 18446744073709551616) (unused : m.system.kernel.user_heap.head ≡ null)
    (ulow : 0x100000 ≤ m.system.kernel.user_heap.heap_start)
    (ularge : m.system.kernel.user_heap.heap_start + header_size
      ≤ m.system.kernel.user_heap.managed_end)
    (urange : m.system.kernel.user_heap.managed_end < 18446744073709551616)
    (some_task : m.system.kernel.init_task ≢ null)
    (below : m.system.kernel.init_task < m.system.kernel.heap.heap_start) where
  init_start :
      (init_kernel m.system.kernel p.heap_end).heap.heap_start ≡ m.system.kernel.heap.heap_start
  unfolding init_kernel malloc_init
  init_start = ground arith

  pub set_up-IsPrepared :
      (now : ClockTime) (v : Volume) → IsTree v.entries → IsPrepared p m (set_up p m now v)
  unfolding set_up scheduler_init clean_screen init_kernel AllUsed
  set_up-IsPrepared now v tree =
      let k : Kernel = m.system.kernel in
      let (idt, sent) = idt_install m.idt p.stubs p.isr32 p.isr33 p.isr80 p.mask1 p.mask2 in
      record {
        spare = record {
          heap = init_heap k p.heap_end low large range;
          all_used = tt;
          members = scheduler_init-Members (init_kernel k p.heap_end) some_task;
          owned = (inl refl, tt);
          below = omega (arith, below, init_start);
        };
        user_heap = user_malloc_init-IsHeap k.user_heap unused ulow ularge urange;
        files = tree;
        screen = λ i lt. rw (lt→ltb i 2000 lt) refl;
        sent = m.ports ++ (sent ++ (rtc_ports p.rtc_status p.rtc_reg_b ++ init_timer 1000));
        unmasked =
            last_write m.ports sent (rtc_ports p.rtc_status p.rtc_reg_b ++ init_timer 1000)
              (outb 0x21 0xFC);
      }

  -- `kmain` reaches the call of `tasks_init`, if the real-time clock gets ready: then each of the two
  -- heaps is one free block of all its memory, the entries of the files are a tree, the ring is the
  -- first task alone, the screen is blank, and the last port write unmasks the timer and the keyboard
  -- alone. The programs' heap is yet unused, both heaps lie at 1 MiB or above and have room for a
  -- header, the first task stands below them, and there are 16385 rounds of fuel, and one for each 512
  -- bytes of an image.
  pub prepare_lem :
      (fuel : ℕ) (images : Images) (left : List ℕ)
      → fat_entries < fuel
      → AllFit fuel (all_apps images)
      → rtc_wait_ready p.rtc_status ≡ some left
      → (m' : Machine) × (prepare fuel p images m ≡ some m') × IsPrepared p m m'
  unfolding prepare
  prepare_lem fuel images left enough fit ready =
      let (now, ticking) =
        clock_set p.rtc_status left p.rtc_ss p.rtc_mm p.rtc_hh p.rtc_reg_b p.rtc_hh_again ready in
      let (v, loaded, tree) =
        load_apps-IsTree fuel (fs_init m.system.volume.disk) (all_apps images) enough fit
          (fs_init-IsTree m.system.volume.disk).0 in
      (set_up p m now v, rw (ticking, loaded) refl, set_up-IsPrepared now v tree)
