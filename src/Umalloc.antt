-- ===== src/Umalloc.antt =====
-- malloc/user_malloc.c, the allocator of the programs' memory, whose functions have the prefix `user_`
-- here. Of the record `Heap`, `heap_start` is `&_user_start`, `managed_end` is `&_user_end`, which
-- never change, and `head`, `tail` and `brk` are the globals `user_head`, `user_tail`, `user_brk`.
-- The loop of the search takes fuel, and `none` means that it ran out.
pub mod Same
pub mod Laws
pub mod Stats
mod Tests
use kernel_c.Prelude.{
  ℕ, zero, suc, Bool, true, false, ◌&&◌, ◌||◌, not, Option, none, some, ◌>>=◌, if◌then◌else◌, ◌==◌,
  leb, ltb, add64, sub64,
}
use kernel_c.CString.{memcpy}
use kernel_c.Heap.{
  Header, Store, Heap, null, header_size, min_split_size, write, set_size, set_free, set_prev,
  set_next, align_up, header_to_payload, payload_to_header,
}

unfoldable pub user_malloc_init : Heap → Heap
user_malloc_init s = if not (s.head == null) then s else record s {
  head = s.heap_start;
  tail = s.heap_start;
  brk = s.managed_end;
  mem = write s.mem s.heap_start (record {
    magic = s.magic;
    size = sub64 (sub64 s.managed_end s.heap_start) header_size;
    free = true;
    prev = null;
    next = null;
  });
}

-- `if (q) q->prev = h;`
abbrev pub relink : Store → ℕ → ℕ → Store
relink m q h = if q == null then m else set_prev m q h

-- the cut, with the new header at `newh`
pub user_split_at : Heap → ℕ → ℕ → ℕ → Heap
user_split_at s h req_size newh =
    let cut : Header = record {
      magic = s.magic;
      size = sub64 (sub64 (s.mem h).size req_size) header_size;
      free = true;
      prev = h;
      next = (s.mem h).next;
    } in
    let m = write s.mem newh cut in
    let m = relink m (m newh).next newh in
    record s {
      mem = set_size (set_next m h newh) h req_size;
      tail = if s.tail == h then newh else s.tail;
    }

unfoldable pub user_split_block : Heap → ℕ → ℕ → Heap
unfolding user_split_at
user_split_block s h req_size =
    if ltb (s.mem h).size (add64 req_size min_split_size)
    then s
    else user_split_at s h req_size (add64 (header_to_payload h) req_size)

-- the two blocks `p` and `q` become one, at `p`: both `if`s of `coalesce` write this
pub user_join : Heap → ℕ → ℕ → Heap
user_join s p q =
    let m = set_size s.mem p (add64 (add64 (s.mem p).size header_size) (s.mem q).size) in
    let m = set_next m p (m q).next in
    record s { mem = relink m (m q).next p; tail = if s.tail == q then p else s.tail }

pub user_join_next : Heap → ℕ → Heap
user_join_next s h =
    let n = (s.mem h).next in if not (n == null) && (s.mem n).free then user_join s h n else s

pub user_join_prev : Heap → ℕ → Heap
user_join_prev s h =
    let p = (s.mem h).prev in if not (p == null) && (s.mem p).free then user_join s p h else s

unfoldable pub user_coalesce : Heap → ℕ → Heap
unfolding user_join user_join_next user_join_prev
user_coalesce s h = if h == null then s else user_join_prev (user_join_next s h) h

pub user_find_loop : ℕ → Store → ℕ → ℕ → Option ℕ
user_find_loop zero m cur size = none
user_find_loop (suc k) m cur size =
    let rest = user_find_loop k m (m cur).next size in
    if cur == null
    then some null
    else if (m cur).free && leb size (m cur).size
    then some cur
    else rest

unfoldable pub user_find_fit : ℕ → Heap → ℕ → Option ℕ
unfolding user_find_loop
user_find_fit fuel s size = user_find_loop fuel s.mem s.head size

-- what `user_malloc` does with the result of the search
pub user_take : Heap → ℕ → ℕ → ℕ × Heap
user_take s fit size =
    let s' = user_split_block s fit size in
    if fit == null
    then (null, s)
    else (header_to_payload fit, record s' { mem = set_free s'.mem fit false })

unfoldable pub user_malloc : ℕ → Heap → ℕ → Option (ℕ × Heap)
unfolding user_take
user_malloc fuel s size =
    let s0 = user_malloc_init s in
    let found =
      (user_find_fit fuel s0 (align_up size) >>= λ fit. some (user_take s0 fit (align_up size))) in
    if size == 0 then some (null, s0) else found

unfoldable pub user_free : Heap → ℕ → Heap
user_free s ptr =
    let h = payload_to_header ptr in
    if ptr == null
    then s
    else if not ((s.mem h).magic == s.magic) || (s.mem h).free
    then s
    else user_coalesce (record s { mem = set_free s.mem h true }) h

-- the block takes in its next block, and is cut: `user_tail` is not looked at
pub user_extend : Heap → ℕ → ℕ → Heap
user_extend s h size =
    let n = (s.mem h).next in
    let m = set_size s.mem h (add64 (add64 (s.mem h).size header_size) (s.mem n).size) in
    let m = set_next m h (m n).next in
    let m = relink m (m h).next h in
    let s' = user_split_block (record s { mem = m }) h size in
    record s' { mem = set_free s'.mem h false }

-- a new block, to which the payload is copied; `s'.mem h` is read where the code reads `h->size`
pub user_move : ℕ → Heap → ℕ → ℕ → Option (ℕ × Heap)
user_move fuel s ptr size = user_malloc fuel s size >>= λ (newp, s').
    let len = (s'.mem (payload_to_header ptr)).size in
    some (
      if newp == null
      then (null, s')
      else (newp, user_free (record s' { bytes = memcpy s'.bytes newp ptr len }) ptr))

-- `user_realloc` of a block with the right magic number, for a rounded size
pub user_resize : ℕ → Heap → ℕ → ℕ → Option (ℕ × Heap)
unfolding user_extend user_move
user_resize fuel s ptr size =
    let h = payload_to_header ptr in
    let n = (s.mem h).next in
    let room = add64 (add64 (s.mem h).size header_size) (s.mem n).size in
    let moved = user_move fuel s ptr size in
    if leb size (s.mem h).size
    then some (ptr, user_split_block s h size)
    else if not (n == null) && (s.mem n).free && leb size room
    then some (ptr, user_extend s h size)
    else moved

unfoldable pub user_realloc : ℕ → Heap → ℕ → ℕ → Option (ℕ × Heap)
unfolding user_resize
user_realloc fuel s ptr new_size =
    let fresh = user_malloc fuel s new_size in
    let resized = user_resize fuel s ptr (align_up new_size) in
    if ptr == null
    then fresh
    else if new_size == 0
    then some (null, user_free s ptr)
    else if not ((s.mem (payload_to_header ptr)).magic == s.magic)
    then some (null, s)
    else resized
