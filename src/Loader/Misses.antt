-- ===== src/Loader/Misses.antt =====
-- The ways in which `load_and_run_program` gives up.
use kernel_c.Prelude.{
  ℕ, ◌<◌, ◌≡◌, ◌≢◌, refl, ap, ◌∙◌, Option, none, some, List, [], ◌∷◌, ==_ne, length,
}
use kernel_c.Heap.{null, align_up}
use kernel_c.Heap.Cells.{Cell, IsHeap}
use kernel_c.Kmalloc.Fit.{none_fits, first_fit}
use kernel_c.Umalloc.Laws.{user_malloc-null}
use kernel_c.Fs.Table.{Entry, Volume}
use kernel_c.Multitask.{Kernel}
use kernel_c.Multitask.Zombies.{cli, sti}
use kernel_c.Loader.{find_program, room_for, load_program, run_found, load_and_run_program}

-- Why a name cannot be run: it is NULL or empty, there is no such file in /bin, the file is empty, or
-- the programs' heap has no block that is large enough.
pub data Misses (v : Volume) (cells : List Cell) : Option (List ℕ) → ℕ → Type 0 where
  no_string : Misses v cells none 18446744073709551615
  no_name : Misses v cells (some []) 18446744073709551615
  no_file :
      (c : ℕ) (name : List ℕ)
      → find_program v (c ∷ name) ≡ none
      → Misses v cells (some (c ∷ name)) 0
  no_bytes :
      (c : ℕ) (name : List ℕ) (dir : ℕ) (e : Entry)
      → find_program v (c ∷ name) ≡ some (dir, e)
      → e.size ≡ 0
      → Misses v cells (some (c ∷ name)) 0
  no_room :
      (c : ℕ) (name : List ℕ) (dir : ℕ) (e : Entry)
      → find_program v (c ∷ name) ≡ some (dir, e)
      → e.size ≢ 0
      → room_for e.size ≢ 0
      → first_fit (align_up (room_for e.size)) cells ≡ none_fits
      → Misses v cells (some (c ∷ name)) 0

-- When `load_and_run_program` gives up before it has a block of memory, on a programs' heap that is set up,
-- it returns -1 for a missing name and 0 otherwise, and changes nothing but that the interrupts are
-- on: no block, no task and no pid is used up.
pub load_and_run_program-Misses :
    (fuel : ℕ) (k : Kernel) (v : Volume) (cells : List Cell) (name : Option (List ℕ)) (r : ℕ)
    → IsHeap k.user_heap cells
    → length cells < fuel
    → k.user_heap.head ≢ null
    → Misses v cells name r
    → load_and_run_program fuel k v name ≡ some (r, sti k)
unfolding load_and_run_program run_found load_program
load_and_run_program-Misses fuel k v cells _ _ is enough set_up no_string = refl
load_and_run_program-Misses fuel k v cells _ _ is enough set_up no_name = refl
load_and_run_program-Misses fuel k v cells _ _ is enough set_up (no_file c name e) =
    ap (run_found fuel (cli k) v (c ∷ name)) e
load_and_run_program-Misses fuel k v cells _ _ is enough set_up
      (no_bytes c name dir e found_it empty) =
    ap (run_found fuel (cli k) v (c ∷ name)) found_it ∙ rw empty refl
load_and_run_program-Misses fuel k v cells _ _ is enough set_up
      (no_room c name dir e found_it some_size some_room miss) =
    ap (run_found fuel (cli k) v (c ∷ name)) found_it
    ∙ rw
        (
          ==_ne e.size 0 some_size,
          user_malloc-null fuel k.user_heap cells (room_for e.size) is enough some_room set_up miss,
        )
        refl
