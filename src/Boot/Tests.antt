-- ===== src/Boot/Tests.antt =====
-- The theorems on the start of the kernel at concrete inputs.
use kernel_c.Prelude.{
  ℕ, Option, Bool, ◌≤◌, ◌<◌, ◌≡◌, ◌≢◌, ◌⊎◌, inl, inr, refl, true, false, none, some, List, [], ◌∷◌,
  arith, pos,
}
use kernel_c.Heap.{Heap, align_up}
use kernel_c.Heap.Cells.{cell}
use kernel_c.Kmalloc.Fit.{first_fit}
use kernel_c.Fs.{alloc_cluster, fs_write, get_cluster, fat_entries, fs_read}
use kernel_c.Fs.Table.{Volume, fs_mkdir, find_free_entry, fs_init, put}
use kernel_c.Fs.Table.Tree.{IsTree}
use kernel_c.Fs.Table.Steps.{fs_init-IsTree}
use kernel_c.Fs.Files.{fs_write_file_in_dir, fs_create_file, fs_find_in_dir, fs_read_file_in_dir}
use kernel_c.Clock.{rtc_wait_ready}
use kernel_c.Multitask.{Kernel}
use kernel_c.Multitask.Sample.{sample, sample_cells, sample_heap, sample-IsHeap, reaped-Members}
use kernel_c.Loader.{bin, terminal, find_program, load_and_run_program}
use kernel_c.Loader.Launch.{Launched}
use kernel_c.Loader.Sample.{sample_volume, program, bin_dir, ready_kernel, user_heap-IsHeap}
use kernel_c.Boot.{
  all_apps, load_apps, kmain, folder_of, write_app, load_app_to_fs, Images, Platform, Machine,
  prepare,
}
use kernel_c.Boot.Prepared.{IsPrepared, load_app_to_fs-IsTree, prepare_lem}
use kernel_c.Boot.Running.{IsRunning, kmain_lem}
use kernel_c.Boot.Installed.{Installed, load_app_to_fs-Installed, load_and_run_program-Installed}

abbrev image : List ℕ
image = 0xF4 ∷ 0xEB ∷ 0xFD ∷ []

abbrev empty_volume : Volume
empty_volume = fs_init (λ a. 0)

load_app_to_fs-IsTree_run :
    (w : Volume) × (load_app_to_fs 16385 empty_volume bin terminal bin image ≡ some w)
    × IsTree w.entries
load_app_to_fs-IsTree_run =
    load_app_to_fs-IsTree 16385 empty_volume bin terminal bin image (omega arith) (omega arith)
      (fs_init-IsTree (λ a. 0)).0

-- a volume with the folder /bin alone
abbrev bin_volume : Volume
bin_volume = record empty_volume { entries = put empty_volume.entries 1 bin_dir }

bin_found : fs_find_in_dir bin_volume.entries (some bin) none (pos 0) ≡ some 1
unfolding fs_find_in_dir fs_init
bin_found = refl

terminal_missing : fs_find_in_dir bin_volume.entries (some terminal) (some bin) (pos 1) ≡ none
unfolding fs_find_in_dir fs_init
terminal_missing = refl

load_app_to_fs-Installed_example :
    (w : Volume) × (load_app_to_fs 1 bin_volume bin terminal bin image ≡ some w)
    × (Installed 1 w terminal image ⊎ ((i : ℕ) → 2 ≤ i → i < fat_entries → w.fat i ≢ 0))
unfolding fs_init
load_app_to_fs-Installed_example =
    load_app_to_fs-Installed 1 bin_volume 1 terminal image bin_found (λ e. omega (arith, e))
      (omega arith) refl (omega arith) terminal_missing 2 (omega arith) (omega arith) refl 2
      (omega arith) (omega arith) refl (omega arith) (omega arith) (omega arith)

-- the program "a" of the sample volume
sample-Installed : Installed 9 sample_volume (97 ∷ []) (0xF4 ∷ 0xF4 ∷ 0xF4 ∷ [])
unfolding find_program fs_find_in_dir fs_read_file_in_dir fs_read
sample-Installed = record { dir = 1; entry = program; found = refl; its_size = refl; reads = refl }

load_and_run_program-Installed_example :
    (k' : Kernel) × (load_and_run_program 9 ready_kernel sample_volume (some (97 ∷ []))
      ≡ some (3, k'))
    × Launched ready_kernel k' (0x1000 ∷ 0x100028 ∷ []) 0x1000A0 0x1000A0 (0xF4 ∷ 0xF4 ∷ 0xF4 ∷ [])
unfolding first_fit align_up
load_and_run_program-Installed_example =
    load_and_run_program-Installed 9 ready_kernel sample_cells (0x1000 ∷ 0x100028 ∷ [])
      (cell 80 false ∷ []) (cell 20000 true) [] (cell 80 false ∷ cell 72 false ∷ [])
      (cell 19888 true) [] sample-IsHeap (omega arith)
      (record {
        others = reaped-Members.others;
        order = reaped-Members.order;
        ring = reaped-Members.ring;
      })
      (inl refl, (inr ([], cell 80 false, cell 20000 true ∷ [], refl, refl, refl), tt))
      (omega arith) (λ e. omega (arith, e)) refl refl sample_volume 97 [] (0xF4 ∷ 0xF4 ∷ 0xF4 ∷ [])
      sample_cells (cell 80 false ∷ []) (cell 20000 true) [] sample-Installed (omega arith)
      (omega arith) user_heap-IsHeap (omega arith) (λ e. omega (arith, e)) refl

abbrev unused_heap : Heap
unused_heap = record sample_heap { head = 0; tail = 0; brk = 0 }

abbrev images : Images
images = record {
  terminal_bin = image;
  htop_bin = image;
  clear_bin = image;
  shutdown_bin = image;
  reboot_bin = image;
}

abbrev platform : Platform
platform = record {
  stubs = λ i. 0x200000;
  isr32 = 0x200100;
  isr33 = 0x200200;
  isr80 = 0x200300;
  mask1 = 0xFF;
  mask2 = 0xFF;
  rtc_status = 0x80 ∷ 0 ∷ [];
  rtc_ss = 0x30;
  rtc_mm = 0x59;
  rtc_hh = 0x12;
  rtc_reg_b = 2;
  rtc_hh_again = 0x12;
  heap_end = 0x200000;
  clock_task = 0x200400;
  reaper_task = 0x200500;
}

abbrev powered_on : Machine
powered_on = record {
  idt = λ i. record {
    offset_low = 0;
    selector = 0;
    ist = 0;
    type_attr = 0;
    offset_mid = 0;
    offset_high = 0;
    reserved = 0;
  };
  timer = record { tick_time = 0; seconds = 0; system_clock = record { hh = 0; mm = 0; ss = 0 } };
  system = record {
    kernel = record sample { heap = unused_heap; user_heap = unused_heap };
    volume = empty_volume;
    screen = record { cells = λ i. record { char = 0; color = 0 }; x = 0; y = 0; ports = [] };
    keyboard = record {
      shift_down = false;
      caps_lock = false;
      ctrl_down = false;
      buf = [];
      head = 0;
      tail = 0;
    };
    firmware = λ a. 0;
    kbc = [];
  };
  ports = [];
}

prepare_lem_example :
    (m' : Machine) × (prepare 16385 platform images powered_on ≡ some m')
    × IsPrepared platform powered_on m'
unfolding rtc_wait_ready
prepare_lem_example =
    prepare_lem platform powered_on (omega arith) (omega arith) (omega arith) refl (omega arith)
      (omega arith) (omega arith) (λ e. omega (arith, e)) (omega arith) 16385 images []
      (omega arith)
      ((omega arith), ((omega arith), ((omega arith), ((omega arith), ((omega arith), tt))))) refl

-- what the five loads leave
abbrev booted : Volume
booted = elim (load_apps 16385 empty_volume (all_apps images)) [ none ↦ empty_volume | some v ↦ v ]

is_there : Option Volume → Bool
is_there none = false
is_there (some v) = true

there_is :
    (o : Option Volume) (d : Volume)
    → is_there o ≡ true
    → o ≡ some (elim o [ none ↦ d | some v ↦ v ])
unfolding is_there
there_is none d e = absurd cc
there_is (some v) d e = refl

booted-loaded : load_apps 16385 empty_volume (all_apps images) ≡ some booted
unfolding is_there load_apps load_app_to_fs folder_of write_app fs_init fs_find_in_dir fs_mkdir
    find_free_entry fs_write_file_in_dir fs_create_file alloc_cluster fs_write
booted-loaded = there_is (load_apps 16385 empty_volume (all_apps images)) empty_volume refl

booted-Installed : Installed 16385 booted terminal image
unfolding load_apps load_app_to_fs folder_of write_app fs_init find_program fs_find_in_dir
    fs_read_file_in_dir fs_read fs_mkdir find_free_entry fs_write_file_in_dir fs_create_file
    alloc_cluster fs_write get_cluster
booted-Installed = record {
  dir = 1;
  entry = booted.entries 2;
  found = refl;
  its_size = refl;
  reads = refl;
}

kmain_lem_example :
    (m' : Machine) × (kmain 16385 platform images powered_on ≡ some m')
    × IsRunning platform powered_on m' image
unfolding rtc_wait_ready fs_init
kmain_lem_example =
    kmain_lem platform powered_on (omega arith) (omega arith) (omega arith) refl (omega arith)
      (omega arith) (λ e. omega (arith, e)) (omega arith) 16385 images [] booted (omega arith)
      ((omega arith), ((omega arith), ((omega arith), ((omega arith), ((omega arith), tt))))) refl
      booted-loaded booted-Installed (omega arith) (omega arith) (omega arith)
