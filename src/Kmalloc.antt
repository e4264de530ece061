-- ===== src/Kmalloc.antt =====
-- malloc/malloc.c, the kernel's allocator: one function for each of the file's, over the store of
-- headers. A `while` loop over the list takes fuel, and `none` means that the fuel ran out; a list
-- of n blocks needs n + 1. A function that updates the globals returns the new `Heap`.
pub mod Split
pub mod Fit
pub mod Malloc
pub mod Merge
pub mod Coalesce
pub mod Free
pub mod Safety
pub mod Last
pub mod Roundtrip
pub mod Stats
pub mod Expand
pub mod Realloc
pub mod InPlace
mod Tests
use kernel_c.Prelude.{
  ℕ, zero, suc, Bool, true, false, ◌&&◌, Option, none, some, ◌>>=◌, if◌then◌else◌, ◌==◌, ltb, leb,
  not, add64, sub64,
}
use kernel_c.Heap.{
  Store, Heap, null, header_size, min_split_size, write, set_size, set_free, set_prev, set_next,
  align_up, header_to_payload, payload_to_header,
}

-- `if (newh->next) newh->next->prev = newh;` and its like
abbrev pub set_prev_if : Store → ℕ → ℕ → Store
set_prev_if m p q = if p == null then m else set_prev m p q

unfoldable pub malloc_init : Heap → ℕ → ℕ → Heap
malloc_init s start size =
    if start == null then s else if ltb size header_size then s else record s {
      head = start;
      tail = start;
      managed_end = add64 start size;
      brk = add64 start size;
      mem = write s.mem start (record {
        magic = s.magic;
        size = sub64 size header_size;
        free = true;
        prev = null;
        next = null;
      });
    }

-- The block from `brk` down; `NULL` below `_heap_start`.
unfoldable pub simple_morecore : Heap → ℕ → ℕ × Heap
simple_morecore s n =
    let new_brk = sub64 s.brk (align_up n) in
    if ltb new_brk s.heap_start then (null, s) else (new_brk, record s { brk = new_brk })

unfoldable pub find_fit_loop : ℕ → Store → ℕ → ℕ → Option ℕ
find_fit_loop zero m cur size = none
find_fit_loop (suc k) m cur size =
    let rest = find_fit_loop k m (m cur).next size in
    if cur == null
    then some null
    else if (m cur).free && leb size (m cur).size
    then some cur
    else rest

unfoldable pub find_fit : ℕ → Heap → ℕ → Option ℕ
unfolding find_fit_loop
find_fit fuel s size = find_fit_loop fuel s.mem s.head size

-- the writes of `split_block` once the block is large enough, with the new header at `newh`
pub split_at : Heap → ℕ → ℕ → ℕ → Heap
split_at s h req newh =
    let m = write s.mem newh (record {
      magic = s.magic;
      size = sub64 (sub64 (s.mem h).size req) header_size;
      free = true;
      prev = h;
      next = (s.mem h).next;
    }) in
    let m = set_prev_if m (m newh).next newh in
    let m = set_next m h newh in
    let m = set_size m h req in record s { mem = m; tail = if s.tail == h then newh else s.tail }

unfoldable pub split_block : Heap → ℕ → ℕ → Heap
unfolding split_at
split_block s h req =
    if h == null
    then s
    else if ltb (s.mem h).size (add64 req min_split_size)
    then s
    else split_at s h req (add64 (header_to_payload h) req)

-- the first `if` of `coalesce`: take in the next block
unfoldable pub absorb_next : Heap → ℕ → Heap
absorb_next s h =
    let n = (s.mem h).next in
    if n == null
    then s
    else if not (s.mem n).free
    then s
    else let m = set_size s.mem h (add64 (add64 (s.mem h).size header_size) (s.mem n).size) in
      let m = set_next m h (m n).next in
      let m = set_prev_if m (m n).next h in
      record s { mem = m; tail = if s.tail == n then h else s.tail }

-- the second `if`: be taken in by the previous block
unfoldable pub absorb_into_prev : Heap → ℕ → Heap
absorb_into_prev s h =
    let p = (s.mem h).prev in
    if p == null
    then s
    else if not (s.mem p).free
    then s
    else let m = set_size s.mem p (add64 (add64 (s.mem p).size header_size) (s.mem h).size) in
      let m = set_next m p (m h).next in
      let m = set_prev_if m (m h).next p in
      record s { mem = m; tail = if s.tail == h then p else s.tail }

unfoldable pub coalesce : Heap → ℕ → Heap
unfolding absorb_next absorb_into_prev
coalesce s h = if h == null then s else absorb_into_prev (absorb_next s h) h

-- the part of `heap_expand` behind `if (!p)`: a new last block of `need` bytes at `p`
pub append_block : Heap → ℕ → ℕ → Heap
append_block s p need =
    let m = write s.mem p (record {
      magic = s.magic;
      size = sub64 need header_size;
      free = true;
      prev = s.tail;
      next = null;
    }) in
    record s {
      mem = if s.tail == null then m else set_next m s.tail p;
      tail = p;
      head = if s.head == null then p else s.head;
    }

unfoldable pub heap_expand : Heap → ℕ → Bool × Heap
unfolding append_block
heap_expand s n =
    let need = align_up (add64 n header_size) in
    let (p, s') = simple_morecore s need in
    if p == null then (false, s') else (true, append_block s' p need)

-- `while (!fit) { if (!heap_expand(size)) break; fit = find_fit(size); }`, with fuel for its rounds
-- and fuel for each search
pub grow : ℕ → ℕ → Heap → ℕ → ℕ → Option (ℕ × Heap)
grow zero fuel s size fit = none
grow (suc k) fuel s size fit =
    let (ok, s') = heap_expand s size in
    let retry = (find_fit fuel s' size >>= λ fit'. grow k fuel s' size fit') in
    if not (fit == null) then some (fit, s) else if ok then retry else some (null, s')

-- what `malloc` does with the block that it found
unfoldable pub take_fit : Heap → ℕ → ℕ → ℕ × Heap
take_fit s fit size =
    if fit == null
    then (null, s)
    else let s' = split_block s fit size in
      (header_to_payload fit, record s' { mem = set_free s'.mem fit false })

unfoldable pub malloc : ℕ → Heap → ℕ → Option (ℕ × Heap)
unfolding grow take_fit
malloc fuel s n =
    if n == 0
    then some (null, s)
    else let size = align_up n in
      find_fit fuel s size >>= λ fit.
      grow fuel fuel s size fit >>= λ (fit', s'). some (take_fit s' fit' size)

unfoldable pub free : Heap → ℕ → Heap
free s ptr =
    if ptr == null
    then s
    else let h = payload_to_header ptr in
      if not ((s.mem h).magic == s.magic)
      then s
      else if (s.mem h).free
      then s
      else coalesce (record s { mem = set_free s.mem h true }) h
