-- ===== src/Syscall/Calls.antt =====
-- The calls on the kernel's heap.
use kernel_c.Prelude.{ℕ, ◌<◌, ◌≡◌, ◌≢◌, refl, some, List, length}
use kernel_c.Heap.{align_up}
use kernel_c.Heap.Cells.{Cell, IsHeap}
use kernel_c.Kmalloc.{free}
use kernel_c.Kmalloc.Fit.{found, first_fit}
use kernel_c.Kmalloc.Roundtrip.{IsMerged, free-malloc}
use kernel_c.Syscall.{System, Registers, decode, returned}
use kernel_c.Syscall.Handler.{with_heap, perform, syscall_handler}
use kernel_c.Syscall.Wrappers.{syscall_malloc, syscall_free}

-- `syscall_malloc` and then `syscall_free`
pub syscall_free-malloc :
    (fuel : ℕ) (s : System) (before before' : Registers) (cells : List Cell) (size : ℕ)
    (xs : List Cell) (c : Cell) (ys : List Cell)
    → IsHeap s.kernel.heap cells
    → IsMerged cells
    → length cells < fuel
    → size ≢ 0
    → first_fit (align_up size) cells ≡ found xs c ys
    → (p : ℕ) × (s' : System) × (s'' : System) × (syscall_handler fuel
          (syscall_malloc size before)
          s
        ≡ some (returned p s'))
      × (syscall_handler fuel (syscall_free p before') s' ≡ some (returned 0 s''))
      × IsHeap s''.kernel.heap cells
unfolding syscall_handler decode perform
syscall_free-malloc fuel s before before' cells size xs c ys is merged enough some_size hit =
    let (p, h, ran, whole) =
      free-malloc fuel s.kernel.heap cells size xs c ys is merged enough some_size hit in
    (p, with_heap s h, with_heap s (free h p), rw ran refl, refl, whole)
