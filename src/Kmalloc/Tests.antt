-- ===== src/Kmalloc/Tests.antt =====
-- A heap of three blocks, runs of the allocator on it, and the theorems at these inputs.
use kernel_c.Prelude.{
  ℕ, ◌+◌, ◌≤◌, ◌<◌, ◌≡◌, ◌*◌, ◌↔◌, refl, ◌⊎◌, inr, true, false, some, List, [], ◌∷◌, ◌++◌, arith,
  if◌then◌else◌, ◌==◌,
}
use mathlib.Core.Option
use kernel_c.Heap.{Store, Heap, null, header_size, align_up, header_to_payload, payload_to_header}
use kernel_c.Heap.Cells.{Cell, cell, span, header, IsHeap}
use kernel_c.Heap.Focus.{address}
use kernel_c.Kmalloc.{malloc_init, find_fit, split_block, coalesce, heap_expand, malloc, free}
use kernel_c.Kmalloc.Realloc.{realloc}
use kernel_c.Kmalloc.InPlace.{realloc_in_place}
use kernel_c.Kmalloc.Split.{split_cells, split_block-IsHeap}
use kernel_c.Kmalloc.Fit.{none_fits, found, first_fit, fit_address, find_fit-first_fit}
use kernel_c.Kmalloc.Malloc.{take_cells, Took, malloc_lem}
use kernel_c.Kmalloc.Coalesce.{coalesce_cells, coalesce-IsHeap}
use kernel_c.Kmalloc.Free.{free_lem, free_ignored}
use kernel_c.Kmalloc.Safety.{malloc_apart}
use kernel_c.Kmalloc.Roundtrip.{free-malloc}
use kernel_c.Kmalloc.Stats.{
  Stats, get_kmalloc_stats, report, get_kmalloc_stats_lem, get_kmalloc_stats_accounts,
}
use kernel_c.Kmalloc.Expand.{
  Appended, malloc_init-IsHeap, heap_expand_overlaps, malloc-null, malloc_wraps,
}

abbrev magic : ℕ
magic = 0xB16B00B5

abbrev used_first : Cell
used_first = cell 16 false

abbrev free_second : Cell
free_second = cell 200 true

abbrev used_third : Cell
used_third = cell 8 false

abbrev sample_cells : List Cell
sample_cells = used_first ∷ free_second ∷ used_third ∷ []

abbrev sample_mem : Store
sample_mem a =
    if a == 0x100000
    then header magic used_first 0 0x100038
    else if a == 0x100038
    then header magic free_second 0x100000 0x100128
    else header magic used_third 0x100038 0

-- `brk_ptr` stands where `malloc_init` leaves it: at the end of the blocks
abbrev sample : Heap
sample = record {
  magic = magic;
  heap_start = 0x100000;
  head = 0x100000;
  tail = 0x100128;
  managed_end = 0x100158;
  brk = 0x100158;
  mem = sample_mem;
  bytes = λ a. 0;
}

sample-IsHeap : IsHeap sample sample_cells
sample-IsHeap = record {
  above = omega arith;
  in_range = omega arith;
  chain = (refl, (refl, (refl, tt)));
  head_is = refl;
  tail_is = refl;
}

-- the same heap with `brk_ptr` at the bottom of the region
abbrev exhausted : Heap
exhausted = record sample { brk = 0x100020 }

exhausted-IsHeap : IsHeap exhausted sample_cells
exhausted-IsHeap = record {
  above = omega arith;
  in_range = omega arith;
  chain = (refl, (refl, (refl, tt)));
  head_is = refl;
  tail_is = refl;
}

fit_20 :
    first_fit (align_up 20) sample_cells ≡ found (used_first ∷ []) free_second (used_third ∷ [])
unfolding first_fit align_up
fit_20 = refl

no_fit_300 : first_fit (align_up 300) sample_cells ≡ none_fits
unfolding first_fit align_up
no_fit_300 = refl

malloc_runs : Option.map (λ (p, t). p) (malloc 4 sample 20) ≡ some 0x100060
unfolding malloc find_fit split_block align_up header_to_payload
malloc_runs = refl

split_block-IsHeap_run :
    IsHeap
      (split_block sample (address sample (used_first ∷ [])) 24)
      (used_first ∷ split_cells free_second 24 (used_third ∷ []))
split_block-IsHeap_run =
    split_block-IsHeap sample (used_first ∷ []) free_second (used_third ∷ []) 24 sample-IsHeap
      (omega arith)

find_fit-first_fit_run :
    find_fit 4 sample 24 ≡ some (fit_address 0x100000 (first_fit 24 sample_cells))
find_fit-first_fit_run = find_fit-first_fit 4 sample sample_cells 24 sample-IsHeap (omega arith)

malloc_lem_example :
    (t : Heap) × (malloc 4 sample 20 ≡ some (address sample (used_first ∷ []) + header_size, t))
    × Took sample t (used_first ∷ take_cells free_second (align_up 20) (used_third ∷ []))
malloc_lem_example =
    malloc_lem 4 sample sample_cells 20 (used_first ∷ []) free_second (used_third ∷ [])
      sample-IsHeap (omega arith) (omega arith) fit_20

coalesce-IsHeap_run :
    IsHeap
      (coalesce sample (address sample (used_first ∷ [])))
      (coalesce_cells (used_first ∷ []) free_second (used_third ∷ []))
coalesce-IsHeap_run =
    coalesce-IsHeap sample (used_first ∷ []) free_second (used_third ∷ []) sample-IsHeap refl

free_lem_example :
    IsHeap
      (free sample (address sample [] + header_size))
      (coalesce_cells [] (cell 16 true) (free_second ∷ used_third ∷ []))
free_lem_example = free_lem sample [] used_first (free_second ∷ used_third ∷ []) sample-IsHeap refl

free_ignored_run : free sample 0x100060 ≡ sample
unfolding payload_to_header
free_ignored_run = free_ignored sample 0x100060 (inr (inr refl))

malloc_apart_example :
    (0x100000 < 0x100060)
    × (0x100060 + 20 ≤ 0x100000 + span sample_cells)
    × ((address sample [] + (header_size + 16) ≤ 0x100060) ⊎ (0x100060 + 20 ≤ address sample []))
unfolding malloc find_fit split_block align_up header_to_payload
malloc_apart_example =
    malloc_apart 4 sample sample_cells 20 (used_first ∷ []) free_second (used_third ∷ []) []
      used_first (free_second ∷ used_third ∷ []) 0x100060 _ sample-IsHeap (omega arith)
      (omega arith) (omega arith) fit_20 refl refl refl

free-malloc_example :
    (p : ℕ) × (t : Heap) × (malloc 4 sample 20 ≡ some (p, t)) × IsHeap (free t p) sample_cells
free-malloc_example =
    free-malloc 4 sample sample_cells 20 (used_first ∷ []) free_second (used_third ∷ [])
      sample-IsHeap (refl, (refl, tt)) (omega arith) (omega arith) fit_20

get_kmalloc_stats_lem_run : get_kmalloc_stats 4 sample ≡ some (report sample_cells)
get_kmalloc_stats_lem_run = get_kmalloc_stats_lem 4 sample sample_cells sample-IsHeap (omega arith)

get_kmalloc_stats_accounts_example :
    (st : Stats) × (get_kmalloc_stats 4 sample ≡ some st)
    × (st ≡ report sample_cells)
    × (st.used_payload + st.free_payload + header_size * st.num_blocks ≡ st.total_managed)
    × (st.num_used + st.num_free ≡ st.num_blocks)
    × ((find_fit 4 sample 100 ≡ some null) ↔ (st.largest_free < 100))
get_kmalloc_stats_accounts_example =
    get_kmalloc_stats_accounts 4 sample sample_cells 100 sample-IsHeap (omega arith) (omega arith)

malloc_init-IsHeap_run :
    IsHeap (malloc_init sample 0x100000 4096) (cell 4056 true ∷ [])
    × ((malloc_init sample 0x100000 4096).brk ≡ 0x100000 + 4096)
malloc_init-IsHeap_run = malloc_init-IsHeap sample 4096 (omega arith) (omega arith) (omega arith)

heap_expand_overlaps_example :
    ((heap_expand sample 256).0 ≡ true)
    × Appended sample (heap_expand sample 256).1 256
    × ((us : List Cell) × (d : Cell) × (vs : List Cell) × (sample_cells ≡ us ++ d ∷ vs)
        × (address sample us ≤ (heap_expand sample 256).1.tail)
        × ((heap_expand sample 256).1.tail < address sample us + (header_size + d.size)))
heap_expand_overlaps_example =
    heap_expand_overlaps sample sample_cells 256 sample-IsHeap refl (omega arith) (omega arith)

malloc-null_run : malloc 4 exhausted 300 ≡ some (null, exhausted)
unfolding align_up
malloc-null_run =
    malloc-null 4 exhausted sample_cells 300 exhausted-IsHeap (omega arith) (omega arith)
      (omega arith) no_fit_300 (omega arith) (omega arith) (omega arith)

malloc_wraps_run :
    (t : Heap) × (malloc 4 sample 18446744073709551615
      ≡ some (address sample (used_first ∷ []) + header_size, t))
    × Took sample t (used_first ∷ take_cells free_second 0 (used_third ∷ []))
unfolding first_fit
malloc_wraps_run =
    malloc_wraps 4 sample sample_cells 18446744073709551615 (used_first ∷ []) free_second
      (used_third ∷ []) sample-IsHeap (omega arith) (omega arith) (omega arith) refl

-- a free block between two in use
realloc_in_place_example :
    (t : Heap) × (realloc 2 sample 0x100028 100 ≡ some (0x100028, t))
    × IsHeap t (cell 104 false ∷ cell 112 true ∷ used_third ∷ [])
    × (t.bytes ≡ sample.bytes)
unfolding align_up
realloc_in_place_example =
    realloc_in_place 0 sample [] used_first free_second used_third [] 100 sample-IsHeap refl
      (omega arith) (omega arith) (λ e. omega (arith, e))
