-- ===== src/Kmalloc/Stats.antt =====
-- `get_kmalloc_stats`: one walk over the list that counts blocks and bytes.
use kernel_c.Prelude.{
  ℕ, zero, suc, ◌+◌, ◌*◌, ◌≤◌, ◌<◌, ◌≡◌, ◌≢◌, ◌↔◌, refl, sym, ap, ◌∙◌, false, Option, none, some,
  List, [], ◌∷◌, arith, length, ltb, if◌then◌else◌, ◌==◌, ==_ne, add64,
}
use kernel_c.Heap.{Header, Store, Heap, null, header_size}
use kernel_c.Heap.Cells.{Cell, span, first, header, Seg, IsHeap}
use kernel_c.Kmalloc.{find_fit}
use kernel_c.Kmalloc.Fit.{
  Fit, fits, AllMiss, first_fit, none_fits, found, fit_address, first_fit-AllMiss,
  find_fit-first_fit,
}

-- `kmalloc_stats_t`
pub record Stats : Type 0 where
  pub total_managed : ℕ
  pub used_payload : ℕ
  pub free_payload : ℕ
  pub largest_free : ℕ
  pub num_blocks : ℕ
  pub num_used : ℕ
  pub num_free : ℕ

abbrev pub no_stats : Stats
no_stats = record {
  total_managed = 0;
  used_payload = 0;
  free_payload = 0;
  largest_free = 0;
  num_blocks = 0;
  num_used = 0;
  num_free = 0;
}

-- the body of the loop
unfoldable pub count_block : Stats → Header → Stats
count_block st h =
    let st = record st {
      num_blocks = add64 st.num_blocks 1;
      total_managed = add64 st.total_managed (add64 header_size h.size);
    } in
    if h.free
    then record st {
      num_free = add64 st.num_free 1;
      free_payload = add64 st.free_payload h.size;
      largest_free = if ltb st.largest_free h.size then h.size else st.largest_free;
    }
    else record st { num_used = add64 st.num_used 1; used_payload = add64 st.used_payload h.size }

unfoldable pub stats_loop : ℕ → Store → ℕ → Stats → Option Stats
stats_loop zero m cur st = none
stats_loop (suc k) m cur st =
    let rest = stats_loop k m (m cur).next (count_block st (m cur)) in
    if cur == null then some st else rest

unfoldable pub get_kmalloc_stats : ℕ → Heap → Option Stats
unfolding stats_loop count_block
get_kmalloc_stats fuel s = stats_loop fuel s.mem s.head no_stats

-- what the numbers should be
abbrev pub used_bytes : List Cell → ℕ
used_bytes [] = 0
used_bytes (c ∷ cs) = (if c.free then 0 else c.size) + used_bytes cs

abbrev pub free_bytes : List Cell → ℕ
free_bytes [] = 0
free_bytes (c ∷ cs) = (if c.free then c.size else 0) + free_bytes cs

abbrev pub count_free : List Cell → ℕ
count_free [] = 0
count_free (c ∷ cs) = (if c.free then 1 else 0) + count_free cs

abbrev pub count_used : List Cell → ℕ
count_used [] = 0
count_used (c ∷ cs) = (if c.free then 0 else 1) + count_used cs

-- the size of the largest free block, or `best` if that is more
abbrev pub largest : ℕ → List Cell → ℕ
largest best [] = best
largest best (c ∷ cs) =
    largest (if c.free then (if ltb best c.size then c.size else best) else best) cs

abbrev tally : Stats → List Cell → Stats
tally st cs = record {
  total_managed = st.total_managed + span cs;
  used_payload = st.used_payload + used_bytes cs;
  free_payload = st.free_payload + free_bytes cs;
  largest_free = largest st.largest_free cs;
  num_blocks = st.num_blocks + length cs;
  num_used = st.num_used + count_used cs;
  num_free = st.num_free + count_free cs;
}

-- numbers that cannot overflow while `rest` bytes are still to be counted
record IsSmall (st : Stats) (rest : ℕ) : Type 0 where
  total : st.total_managed + rest < 18446744073709551616
  used : st.used_payload ≤ st.total_managed
  free : st.free_payload ≤ st.total_managed
  blocks : st.num_blocks ≤ st.total_managed
  used_blocks : st.num_used ≤ st.total_managed
  free_blocks : st.num_free ≤ st.total_managed

count_block-IsSmall :
    (st : Stats) (g p n : ℕ) (c : Cell) (rest : ℕ)
    → IsSmall st (header_size + c.size + rest)
    → IsSmall (count_block st (header g c p n)) rest
unfolding count_block
count_block-IsSmall st g p n c rest small = ground arith

count_block-tally :
    (st : Stats) (g p n : ℕ) (c : Cell) (cs : List Cell)
    → IsSmall st (span (c ∷ cs))
    → tally (count_block st (header g c p n)) cs ≡ tally st (c ∷ cs)
unfolding count_block
count_block-tally st g p n c cs small = ground arith

stats_loop-tally :
    (k g : ℕ) (m : Store) (p a : ℕ) (cs : List Cell) (st : Stats)
    → length cs < k
    → a ≢ 0
    → Seg g m p a cs null
    → IsSmall st (span cs)
    → stats_loop k m (first a cs null) st ≡ some (tally st cs)
unfolding stats_loop
stats_loop-tally zero g m p a cs st fuel pos seg small = absurd (omega arith)
stats_loop-tally (suc k) g m p a [] st fuel pos seg small = ap some (ground arith)
stats_loop-tally (suc k) g m p a (c ∷ cs) st fuel pos (at, seg) small =
    rw (==_ne a 0 pos, at)
      (stats_loop-tally k g m a (a + (header_size + c.size)) cs _ (omega arith) (omega arith) seg
          (count_block-IsSmall st g p _ c (span cs) small)
        ∙ ap some (count_block-tally st g p _ c cs small))

abbrev pub report : List Cell → Stats
report cells = record {
  total_managed = span cells;
  used_payload = used_bytes cells;
  free_payload = free_bytes cells;
  largest_free = largest 0 cells;
  num_blocks = length cells;
  num_used = count_used cells;
  num_free = count_free cells;
}

-- The walk ends and reports, without overflow, the bytes of the whole heap, the payload bytes in use
-- and free, the largest free block, and the numbers of blocks.
pub get_kmalloc_stats_lem :
    (fuel : ℕ) (s : Heap) (cells : List Cell)
    → IsHeap s cells
    → length cells < fuel
    → get_kmalloc_stats fuel s ≡ some (report cells)
unfolding get_kmalloc_stats
get_kmalloc_stats_lem fuel s cells is enough = rw is.head_is (
    stats_loop-tally fuel s.magic s.mem null s.heap_start cells no_stats enough
      (omega (arith, is.above)) is.chain (omega (arith, is.in_range))
    ∙ ap some (ground arith))

accounts :
    (cells : List Cell)
    → (used_bytes cells + free_bytes cells + header_size * length cells ≡ span cells)
      × (count_used cells + count_free cells ≡ length cells)
accounts [] = omega arith
accounts (c ∷ cs) = ground (arith, accounts cs)

largest-le : (best : ℕ) (cells : List Cell) → best ≤ largest best cells
largest-le best [] = omega arith
largest-le best (c ∷ cs) = ground (arith, largest-le best cs, largest-le c.size cs)

AllMiss-small :
    (n best : ℕ) (c : Cell) (cs : List Cell)
    → best < n
    → fits n c ≡ false
    → ((b : ℕ) → b < n → largest b cs < n)
    → largest best (c ∷ cs) < n
AllMiss-small n best c cs lt miss rest = ground (arith, rest best, rest c.size)

AllMiss-miss :
    (n best : ℕ) (c : Cell) (cs : List Cell)
    → largest best (c ∷ cs) < n
    → ((b : ℕ) → b < n → largest b cs < n → AllMiss n cs)
    → best < n
    → AllMiss n (c ∷ cs)
AllMiss-miss n best c cs small rest lt =
    let next : ℕ = if c.free then (if ltb best c.size then c.size else best) else best in
    let below : next < n = omega (arith, largest-le next cs) in
    (ground arith, rest next below small)

AllMiss-largest :
    (n best : ℕ) (cells : List Cell) → best < n → AllMiss n cells ↔ (largest best cells < n)
AllMiss-largest n best [] lt = (λ _. lt, λ _. tt)
AllMiss-largest n best (c ∷ cs) lt = (
  λ (miss, all). AllMiss-small n best c cs lt miss (λ b h. (AllMiss-largest n b cs h).0 all),
  λ small. AllMiss-miss n best c cs small (λ b h l. (AllMiss-largest n b cs h).1 l) lt,
)

fit_address-null : (a : ℕ) (f : Fit) → 0 < a → (fit_address a f ≡ null) ↔ (f ≡ none_fits)
fit_address-null a none_fits some_a = (λ _. refl, λ _. refl)
fit_address-null a (found xs d ys) some_a = (λ e. absurd (omega (arith, e, some_a)), λ e. absurd cc)

find_fit-null :
    (fuel : ℕ) (s : Heap) (cells : List Cell) (n : ℕ)
    → IsHeap s cells
    → length cells < fuel
    → (find_fit fuel s n ≡ some null) ↔ (first_fit n cells ≡ none_fits)
find_fit-null fuel s cells n is enough =
    let search = find_fit-first_fit fuel s cells n is enough in
    let at = fit_address-null s.heap_start (first_fit n cells) (omega (arith, is.above)) in
    (
      λ e.
          let same : some (fit_address s.heap_start (first_fit n cells)) ≡ some null =
            sym search ∙ e in
          at.0 cc,
      λ e. search ∙ ap some (at.1 e),
    )

-- The walk ends and reports exactly what the blocks of the list are: the bytes they span, the payload
-- bytes in use and free, the largest free block, and how many blocks there are, in use and free. What it
-- reports adds up: the payload bytes and one header for each block make up the heap, and the blocks are
-- those in use and those free. And `find_fit` finds no block for `n` bytes, `n` not 0, exactly if the
-- `largest_free` that is reported is less than `n`.
pub get_kmalloc_stats_accounts :
    (fuel : ℕ) (s : Heap) (cells : List Cell) (n : ℕ)
    → IsHeap s cells
    → 0 < n
    → length cells < fuel
    → (st : Stats) × (get_kmalloc_stats fuel s ≡ some st)
      × (st ≡ report cells)
      × (st.used_payload + st.free_payload + header_size * st.num_blocks ≡ st.total_managed)
      × (st.num_used + st.num_free ≡ st.num_blocks)
      × ((find_fit fuel s n ≡ some null) ↔ (st.largest_free < n))
get_kmalloc_stats_accounts fuel s cells n is pos enough =
    let search = find_fit-null fuel s cells n is enough in
    let fit = first_fit-AllMiss n cells in
    let best = AllMiss-largest n 0 cells pos in
    (
      report cells,
      get_kmalloc_stats_lem fuel s cells is enough,
      refl,
      (accounts cells).0,
      (accounts cells).1,
      (λ e. best.0 (fit.0 (search.0 e)), λ l. search.1 (fit.1 (best.1 l))),
    )
