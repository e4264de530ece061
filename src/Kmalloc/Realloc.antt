-- ===== src/Kmalloc/Realloc.antt =====
-- `realloc` of malloc/malloc.c: cut the block, take in the free blocks behind it, or move.
use kernel_c.Prelude.{
  ℕ, zero, suc, ◌+◌, ◌≤◌, ◌<◌, ◌≡◌, ◌≢◌, refl, sym, ap, ◌∙◌, Bool, true, false, ◌&&◌, not, Option,
  none, some, ◌>>=◌, if◌then◌else◌, ◌==◌, ==_ne, ==_self, ltb, leb, add64, arith, lt→ltb,
  le→not_ltb,
}
use kernel_c.Heap.{
  Store, Header, Heap, null, header_size, set_size, set_next, set_free, align_up, payload_to_header,
}
use kernel_c.Heap.Cells.{Cell, header}
use kernel_c.CString.{memcpy}
use kernel_c.Kmalloc.{set_prev_if, split_block, absorb_next, malloc, free}

-- the bytes that the free blocks from `cur` on would add, as far as they are wanted
unfoldable pub sum_loop : ℕ → Store → ℕ → ℕ → ℕ → Option ℕ
sum_loop zero m cur sum n = none
sum_loop (suc k) m cur sum n =
    let rest = sum_loop k m (m cur).next (add64 sum (add64 header_size (m cur).size)) n in
    if not (cur == null) && ((m cur).free && ltb sum n) then rest else some sum

-- the second loop: the size of `h` grows; the first result is the block that stays behind it
unfoldable pub absorb_loop : ℕ → Store → ℕ → ℕ → ℕ → Option (ℕ × Store)
absorb_loop zero m h to n = none
absorb_loop (suc k) m h to n =
    let m' : Store = set_size m h (add64 (add64 (m h).size header_size) (m to).size) in
    let rest = absorb_loop k m' h (m' to).next n in
    if not (to == null) && ((m to).free && ltb (m h).size n) then rest else some (to, m)

-- what follows the second loop
unfoldable pub close_up : Heap → ℕ → ℕ → Store → ℕ → Heap
close_up s h to m n =
    let m' : Store = set_next m h to in
    let s' = split_block (record s { mem = set_prev_if m' to h }) h n in
    record s' { mem = set_free s'.mem h false }

-- a new block, a copy, and the old block given back
unfoldable pub move : ℕ → Heap → ℕ → ℕ → Option (ℕ × Heap)
move fuel s ptr n = malloc fuel s n >>= λ (newp, s').
    let size = (s'.mem (payload_to_header ptr)).size in
    let copy = if ltb size n then size else n in
    some (
      if newp == null
      then (null, s')
      else (newp, free (record s' { bytes = memcpy s'.bytes newp ptr copy }) ptr))

-- the branch where the next block is free
unfoldable pub extend : ℕ → Heap → ℕ → ℕ → Option (ℕ × Heap)
unfolding sum_loop absorb_loop close_up move
extend fuel s ptr n =
    let h = payload_to_header ptr in
    let next = (s.mem h).next in
    let in_place =
      (absorb_loop fuel s.mem h next n >>= λ (to, m). some (ptr, close_up s h to m n)) in
    let moved = move fuel s ptr n in
    sum_loop fuel s.mem next (s.mem h).size n >>= λ sum. if leb n sum then in_place else moved

-- for a size that is rounded up
unfoldable pub resize : ℕ → Heap → ℕ → ℕ → Option (ℕ × Heap)
unfolding extend move
resize fuel s ptr n =
    let h = payload_to_header ptr in
    let next = (s.mem h).next in
    let extended = extend fuel s ptr n in
    let moved = move fuel s ptr n in
    if leb n (s.mem h).size
    then some (ptr, split_block s h n)
    else if not (next == null) && (s.mem next).free
    then extended
    else moved

unfoldable pub realloc : ℕ → Heap → ℕ → ℕ → Option (ℕ × Heap)
unfolding resize
realloc fuel s ptr new_size =
    let fresh = malloc fuel s new_size in
    let resized = resize fuel s ptr (align_up new_size) in
    if ptr == null
    then fresh
    else if new_size == 0
    then some (null, free s ptr)
    else if not ((s.mem (payload_to_header ptr)).magic == s.magic)
    then some (null, s)
    else resized

and_false : (x y z : Bool) → z ≡ false → (x && (y && z)) ≡ false
and_false true true z e = e
and_false true false z e = refl
and_false false y z e = refl

sum_loop_done :
    (k : ℕ) (m : Store) (cur sum n : ℕ) → n ≤ sum → sum_loop (suc k) m cur sum n ≡ some sum
unfolding sum_loop
sum_loop_done k m cur sum n le =
    rw (and_false (not (cur == null)) (m cur).free (ltb sum n) (le→not_ltb sum n le)) refl

absorb_loop_done :
    (k : ℕ) (m : Store) (h to n : ℕ) → n ≤ (m h).size → absorb_loop (suc k) m h to n ≡ some (to, m)
unfolding absorb_loop
absorb_loop_done k m h to n le =
    rw (and_false (not (to == null)) (m to).free (ltb (m h).size n) (le→not_ltb (m h).size n le))
      refl

absorb_loop_step :
    (k : ℕ) (m : Store) (h to n : ℕ)
    → to ≢ null
    → (m to).free ≡ true
    → (m h).size < n
    → absorb_loop (suc k) m h to n
      ≡ absorb_loop k
          (set_size m h (add64 (add64 (m h).size header_size) (m to).size))
          h
          (set_size m h (add64 (add64 (m h).size header_size) (m to).size) to).next
          n
unfolding absorb_loop
absorb_loop_step k m h to n some_to free wants =
    rw (==_ne to 0 some_to, free, lt→ltb (m h).size n wants) refl

absorb_next_step :
    (s : Heap) (h b k v : ℕ)
    → (s.mem h).next ≡ b
    → b ≢ null
    → (s.mem b).free ≡ true
    → add64 (add64 (s.mem h).size header_size) (s.mem b).size ≡ v
    → s.tail ≢ b
    → b ≢ h
    → (s.mem b).next ≡ k
    → absorb_next s h ≡ record s { mem = set_prev_if (set_next (set_size s.mem h v) h k) k h }
unfolding absorb_next
absorb_next_step s h b k v e some_b free size other b_h next =
    rw (e, ==_ne b 0 some_b, free, size, ==_ne s.tail b other, ==_ne b h b_h, next) refl

module _ (s : Heap) (h p b k n : ℕ) (c d : Cell) (at : s.mem h ≡ header s.magic c p b)
    (at_b : s.mem b ≡ header s.magic d h k) (some_b : b ≢ null) (b_h : b ≢ h) (k_h : k ≢ h)
    (k_b : k ≢ b) (free_d : d.free ≡ true) (wants : c.size < n)
    (room : n ≤ c.size + header_size + d.size)
    (small : c.size + header_size + d.size < 18446744073709551616) where
  unfoldable pub grown : Store
  grown = set_size s.mem h (c.size + header_size + d.size)

  grown_self : (grown h).size ≡ c.size + header_size + d.size
  unfolding grown
  grown_self = rw (==_self h) refl

  grown-next : (grown b).next ≡ k
  unfolding grown
  grown-next = rw (==_ne b h b_h) (ap (λ (x : Header). x.next) at_b)

  pub sum_loop-one :
      (fuel : ℕ) → sum_loop (suc (suc fuel)) s.mem b c.size n ≡ some (c.size + header_size + d.size)
  unfolding sum_loop
  sum_loop-one fuel =
      let sum : add64 c.size (add64 header_size d.size) ≡ c.size + header_size + d.size =
        omega arith in
      rw (==_ne b 0 some_b, at_b, free_d, lt→ltb c.size n wants, sum)
        (sum_loop_done fuel s.mem k (c.size + header_size + d.size) n room)

  sizes : add64 (add64 (s.mem h).size header_size) (s.mem b).size ≡ c.size + header_size + d.size
  sizes = omega (arith, small, ap (λ (x : Header). x.size) at, ap (λ (x : Header). x.size) at_b)

  pub absorb_loop-one : (fuel : ℕ) → absorb_loop (suc (suc fuel)) s.mem h b n ≡ some (k, grown)
  unfolding grown
  absorb_loop-one fuel =
      absorb_loop_step (suc fuel) s.mem h b n some_b (ap (λ (x : Header). x.free) at_b ∙ free_d)
        (omega (arith, wants, ap (λ (x : Header). x.size) at))
      ∙ ap (λ v. absorb_loop (suc fuel) (set_size s.mem h v) h (set_size s.mem h v b).next n) sizes
      ∙ ap (λ t. absorb_loop (suc fuel) grown h t n) grown-next
      ∙ absorb_loop_done fuel grown h k n (omega (arith, room, grown_self))

  pub grown-absorb_next :
      s.tail ≢ b → record s { mem = set_prev_if (set_next grown h k) k h } ≡ absorb_next s h
  unfolding grown
  grown-absorb_next other = sym (
      absorb_next_step s h b k (c.size + header_size + d.size) (ap (λ (x : Header). x.next) at)
        some_b (ap (λ (x : Header). x.free) at_b ∙ free_d) sizes other b_h
        (ap (λ (x : Header). x.next) at_b))
