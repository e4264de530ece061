-- ===== src/Loader/Tests.antt =====
-- The theorems on the start of programs at concrete inputs.
use kernel_c.Prelude.{
  ℕ, ◌≤◌, ◌≡◌, inl, inr, refl, true, false, some, List, [], ◌∷◌, ◌++◌, arith, pos, length,
}
use kernel_c.Heap.{align_up}
use kernel_c.Heap.Cells.{cell}
use kernel_c.Kmalloc.Fit.{first_fit}
use kernel_c.Fs.{fs_read}
use kernel_c.Fs.Files.{fs_find_in_dir, fs_read_file_in_dir}
use kernel_c.Multitask.{Kernel}
use kernel_c.Multitask.Zombies.{sti}
use kernel_c.Multitask.Sample.{sample_cells, sample-IsHeap, reaped-Members}
use kernel_c.Loader.{find_program, load_and_run_program, uint_to_str}
use kernel_c.Loader.Launch.{Launched, load_and_run_program_lem}
use kernel_c.Loader.Misses.{no_file, load_and_run_program-Misses}
use kernel_c.Loader.Decimal.{number, AreDigits, uint_to_str_lem}
use kernel_c.Loader.Sample.{sample_volume, program, ready_kernel, user_heap-IsHeap}

load_and_run_program_lem_run :
    (k' : Kernel) × (load_and_run_program 9 ready_kernel sample_volume (some (97 ∷ []))
      ≡ some (3, k'))
    × Launched ready_kernel k' (0x1000 ∷ 0x100028 ∷ []) 0x1000A0 0x1000A0 (0xF4 ∷ 0xF4 ∷ 0xF4 ∷ [])
unfolding first_fit align_up find_program fs_find_in_dir fs_read_file_in_dir fs_read
load_and_run_program_lem_run =
    load_and_run_program_lem 9 ready_kernel sample_cells (0x1000 ∷ 0x100028 ∷ [])
      (cell 80 false ∷ []) (cell 20000 true) [] (cell 80 false ∷ cell 72 false ∷ [])
      (cell 19888 true) [] sample-IsHeap (omega arith)
      (record {
        others = reaped-Members.others;
        order = reaped-Members.order;
        ring = reaped-Members.ring;
      })
      (inl refl, (inr ([], cell 80 false, cell 20000 true ∷ [], refl, refl, refl), tt))
      (omega arith) (λ e. omega (arith, e)) refl refl sample_volume 97 [] 1 program (pos 0)
      (0xF4 ∷ 0xF4 ∷ 0xF4 ∷ []) sample_cells (cell 80 false ∷ []) (cell 20000 true) [] refl
      (λ e. omega (arith, e)) refl user_heap-IsHeap (omega arith) (λ e. omega (arith, e))
      (λ e. omega (arith, e)) refl

load_and_run_program-Misses_example :
    load_and_run_program 9 ready_kernel sample_volume (some (98 ∷ [])) ≡ some (0, sti ready_kernel)
unfolding find_program fs_find_in_dir
load_and_run_program-Misses_example =
    load_and_run_program-Misses 9 ready_kernel sample_volume sample_cells (some (98 ∷ [])) 0
      user_heap-IsHeap (omega arith) (λ e. omega (arith, e)) (no_file 98 [] refl)

uint_to_str_lem_run :
    (text : List ℕ) × (uint_to_str 11 4294967295 ≡ some (text ++ 0 ∷ []))
    × (number 0 text ≡ 4294967295)
    × AreDigits text
    × (length (text ++ 0 ∷ []) ≤ 11)
uint_to_str_lem_run = uint_to_str_lem 4294967295
