-- ===== src/Umalloc/Tests.antt =====
-- The programs' allocator on a memory of 4096 bytes.
use kernel_c.Prelude.{ℕ, ◌+◌, ◌≡◌, ◌≢◌, refl, true, false, some, [], ◌∷◌, arith}
use kernel_c.Heap.{Heap, null, header_size, align_up}
use kernel_c.Heap.Cells.{Cell, cell, header, IsHeap}
use kernel_c.Heap.Focus.{address}
use kernel_c.Kmalloc.{free}
use kernel_c.Kmalloc.Fit.{none_fits, found, first_fit}
use kernel_c.Kmalloc.Malloc.{take_cells, Took}
use kernel_c.Umalloc.{user_malloc_init, user_malloc, user_free}
use kernel_c.Umalloc.Same.{user_free_same}
use kernel_c.Umalloc.Laws.{
  user_malloc_init-IsHeap, user_malloc-null, user_malloc_lem, user_free-malloc,
}

abbrev unused : Heap
unused = record {
  magic = 0xC0FFEE00;
  heap_start = 0x200000;
  head = null;
  tail = null;
  managed_end = 0x201000;
  brk = null;
  mem = λ a. header 0 (cell 0 false) 0 0;
  bytes = λ a. 0;
}

abbrev whole : Cell
whole = cell 4056 true

whole-IsHeap : IsHeap (user_malloc_init unused) (whole ∷ [])
whole-IsHeap = user_malloc_init-IsHeap unused refl (omega arith) (omega arith) (omega arith)

fit_20 : first_fit (align_up 20) (whole ∷ []) ≡ found [] whole []
unfolding first_fit align_up
fit_20 = refl

no_fit_5000 : first_fit (align_up 5000) (whole ∷ []) ≡ none_fits
unfolding first_fit align_up
no_fit_5000 = refl

set_up : (user_malloc_init unused).head ≢ null
unfolding user_malloc_init
set_up e = omega (arith, e)

user_malloc-null_run :
    user_malloc 2 (user_malloc_init unused) 5000 ≡ some (null, user_malloc_init unused)
user_malloc-null_run =
    user_malloc-null 2 (user_malloc_init unused) (whole ∷ []) 5000 whole-IsHeap (omega arith)
      (omega arith) set_up no_fit_5000

user_malloc_lem_run :
    (t : Heap) × (user_malloc 2 (user_malloc_init unused) 20
      ≡ some (address (user_malloc_init unused) [] + header_size, t))
    × Took (user_malloc_init unused) t (take_cells whole (align_up 20) [])
user_malloc_lem_run =
    user_malloc_lem 2 (user_malloc_init unused) (whole ∷ []) 20 whole-IsHeap (omega arith)
      (omega arith) set_up [] whole [] fit_20

user_free-malloc_example :
    (p : ℕ) × (t : Heap) × (user_malloc 2 (user_malloc_init unused) 20 ≡ some (p, t))
    × IsHeap (user_free t p) (whole ∷ [])
user_free-malloc_example =
    user_free-malloc 2 (user_malloc_init unused) (whole ∷ []) 20 whole-IsHeap (omega arith)
      (omega arith) set_up [] whole [] fit_20 tt

nothing_to_free : user_free unused 0x200028 ≡ free unused 0x200028
nothing_to_free = user_free_same unused 0x200028
