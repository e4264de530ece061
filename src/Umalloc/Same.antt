-- ===== src/Umalloc/Same.antt =====
-- The steps of the two allocators are the same functions on a heap that is set up: the laws of one
-- hold of the other.
use kernel_c.Prelude.{ℕ, zero, suc, ◌≡◌, ◌≢◌, refl, arith, true, ==_ne}
use kernel_c.Heap.{Heap, Store, null, payload_to_header, set_free}
use kernel_c.Kmalloc.{
  split_block, coalesce, absorb_next, absorb_into_prev, find_fit, find_fit_loop, free,
}
use kernel_c.Umalloc.{
  user_split_at, user_split_block, user_join, user_join_next, user_join_prev, user_coalesce,
  user_find_loop, user_find_fit, user_free,
}

pub user_split_block_same :
    (s : Heap) (h n : ℕ) → h ≢ null → user_split_block s h n ≡ split_block s h n
unfolding user_split_block split_block user_split_at
user_split_block_same s h n ne = rw (==_ne h 0 ne) refl

user_join_next_same : (s : Heap) (h : ℕ) → user_join_next s h ≡ absorb_next s h
unfolding user_join_next user_join absorb_next
user_join_next_same s h = ground arith

user_join_prev_same : (s : Heap) (h : ℕ) → user_join_prev s h ≡ absorb_into_prev s h
unfolding user_join_prev user_join absorb_into_prev
user_join_prev_same s h = ground arith

pub user_coalesce_same : (s : Heap) (h : ℕ) → user_coalesce s h ≡ coalesce s h
unfolding user_coalesce coalesce
user_coalesce_same s h = rw (user_join_next_same s h, user_join_prev_same (absorb_next s h) h) refl

user_find_loop_same :
    (k : ℕ) (m : Store) (cur n : ℕ) → user_find_loop k m cur n ≡ find_fit_loop k m cur n
unfolding user_find_loop find_fit_loop
user_find_loop_same zero m cur n = refl
user_find_loop_same (suc k) m cur n = rw (user_find_loop_same k m (m cur).next n) refl

pub user_find_fit_same : (fuel : ℕ) (s : Heap) (n : ℕ) → user_find_fit fuel s n ≡ find_fit fuel s n
unfolding user_find_fit find_fit
user_find_fit_same fuel s n = user_find_loop_same fuel s.mem s.head n

-- On every heap and pointer `user_free` does what `free` of the kernel's allocator does.
pub user_free_same : (s : Heap) (p : ℕ) → user_free s p ≡ free s p
unfolding user_free free
user_free_same s p =
    rw
      (user_coalesce_same (record s { mem = set_free s.mem (payload_to_header p) true })
        (payload_to_header p))
      ground arith
