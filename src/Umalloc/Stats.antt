-- ===== src/Umalloc/Stats.antt =====
-- `get_usermalloc_stats`, whose loop has the body of that of `get_kmalloc_stats`.
use kernel_c.Prelude.{ℕ, ◌<◌, ◌≡◌, Option, some, List, length}
use kernel_c.Heap.{Heap}
use kernel_c.Heap.Cells.{Cell, IsHeap}
use kernel_c.Kmalloc.Stats.{
  Stats, no_stats, stats_loop, get_kmalloc_stats, report, get_kmalloc_stats_lem,
}

unfoldable pub get_usermalloc_stats : ℕ → Heap → Option Stats
unfolding stats_loop
get_usermalloc_stats fuel s = stats_loop fuel s.mem s.head no_stats

-- On a well-formed heap `get_usermalloc_stats` ends, and reports what the blocks come to.
pub get_usermalloc_stats_lem :
    (fuel : ℕ) (s : Heap) (cells : List Cell)
    → IsHeap s cells
    → length cells < fuel
    → get_usermalloc_stats fuel s ≡ some (report cells)
unfolding get_usermalloc_stats get_kmalloc_stats
get_usermalloc_stats_lem fuel s cells is enough = get_kmalloc_stats_lem fuel s cells is enough
