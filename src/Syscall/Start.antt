-- ===== src/Syscall/Start.antt =====
-- From the system call to the processor: the program that `SYSCALL_TASK_CREATE` starts gets its turn.
use kernel_c.Prelude.{
  ℕ, ◌+◌, ◌≤◌, ◌<◌, ◌≡◌, ◌≢◌, refl, sym, ap, ◌∙◌, subst, some, List, [], ◌∷◌, ◌++◌, ==_ne, arith,
  length, ℤ, pos, length-append,
}
use kernel_c.Heap.{null, header_size, align_up}
use kernel_c.Heap.Cells.{Cell, IsHeap}
use kernel_c.Heap.Focus.{address}
use kernel_c.Kmalloc.Fit.{found, first_fit}
use kernel_c.Kmalloc.Malloc.{take_cells}
use kernel_c.Fs.{read_bytes}
use kernel_c.Fs.Table.{Entry}
use kernel_c.Fs.Files.{fs_read_file_in_dir}
use kernel_c.Clock.{Timer}
use kernel_c.Clock.Ticking.{IsTimer, millis}
use kernel_c.Multitask.{Kernel, task_size, runnable}
use kernel_c.Multitask.Frames.{resumes_at}
use kernel_c.Multitask.Ring.{IsRing, IsRing-turned}
use kernel_c.Multitask.Members.{Members}
use kernel_c.Multitask.Create.{AllOwned}
use kernel_c.Multitask.Dispatch.{interrupts, eois, interrupts-gets_turn}
use kernel_c.Loader.{bin, find_program, room_for, load_and_run_program}
use kernel_c.Loader.Launch.{load_and_run_program_lem}
use kernel_c.Syscall.{System, Registers, sys_task_create, decode, string_at, returned}
use kernel_c.Syscall.Handler.{with_kernel, perform, perform_or_refuse, syscall_handler}

snoc_parts : (xs ys : List ℕ) (x y : ℕ) → xs ++ x ∷ [] ≡ ys ++ y ∷ [] → (xs ≡ ys) × (x ≡ y)
snoc_parts [] [] x y e = (refl, cc)
snoc_parts [] (b ∷ ys) x y e = absurd (omega (arith, ap length e, length-append ys (y ∷ [])))
snoc_parts (a ∷ xs) [] x y e = absurd (omega (arith, ap length e, length-append xs (x ∷ [])))
snoc_parts (a ∷ xs) (b ∷ ys) x y e =
    let heads : a ≡ b = cc in
    let tails : xs ++ x ∷ [] ≡ ys ++ y ∷ [] = cc in
    let (same, last) = snoc_parts xs ys x y tails in (cc, last)

-- the ring that a new task has joined, seen from any other member
Members-IsRing :
    (k : Kernel) (bs : List ℕ) (c : ℕ) (cs : List ℕ) (t : ℕ)
    → Members k ((bs ++ c ∷ cs) ++ t ∷ [])
    → (IsRing k.tasks c (cs ++ t ∷ bs)) × (k.task_ring ≢ null)
Members-IsRing k bs c cs t is =
    let (same, last) = snoc_parts (bs ++ c ∷ cs) is.others t k.task_ring is.order in
    (
      IsRing-turned k.tasks t bs c cs (
          subst (λ u. IsRing k.tasks u (bs ++ c ∷ cs)) (sym last)
            (subst (IsRing k.tasks k.task_ring) (sym same) is.ring)),
      λ e. is.ring.present.0 (sym e),
    )

sys_task_create-launches :
    (fuel : ℕ) (s : System) (r : Registers) (p : ℕ) (name : List ℕ) (pid : ℕ) (k : Kernel)
    → decode r ≡ some (sys_task_create p)
    → p ≢ null
    → string_at fuel s.kernel p ≡ some name
    → load_and_run_program fuel s.kernel s.volume (some name) ≡ some (pid, k)
    → syscall_handler fuel r s ≡ some (returned pid (with_kernel s k))
unfolding syscall_handler perform
sys_task_create-launches fuel s r p name pid k is_call some_name named ran =
    ap (λ c. perform_or_refuse fuel c s) is_call ∙ rw (==_ne p 0 some_name, named, ran) refl

module _ (fuel : ℕ) (s : System) (r : Registers) (p a : ℕ) (name : List ℕ)
    (is_call : decode r ≡ some (sys_task_create p)) (some_name : p ≢ null)
    (named : string_at fuel s.kernel p ≡ some (a ∷ name)) (cells : List Cell) (xs : List Cell)
    (c : Cell) (ys : List Cell) (us : List Cell) (d : Cell) (vs : List Cell)
    (is : IsHeap s.kernel.heap cells) (enough : length cells + 1 < fuel) (ts bs cs : List ℕ)
    (members : Members s.kernel ts) (running : ts ≡ bs ++ s.kernel.current ∷ cs)
    (few : length ts < fuel) (owned : AllOwned s.kernel cells ts)
    (below : s.kernel.init_task < s.kernel.heap.heap_start) (some_pid : s.kernel.next_pid ≢ 0)
    (hit : first_fit (align_up task_size) cells ≡ found xs c ys)
    (hit' : first_fit (align_up 16384) (xs ++ take_cells c (align_up task_size) ys) ≡ found us d vs)
    (cells' : List Cell) (is' : IsHeap s.kernel.user_heap cells') (enough' : length cells' < fuel)
    (set_up : s.kernel.user_heap.head ≢ null) where
  -- The call that starts a program, made by the running task with the name of a file in /bin that is not
  -- empty, where both heaps have room: it returns the next pid. Under the timer alone the new task
  -- is then the running one after at most as many interrupts as there are tasks behind the caller in
  -- the ring, plus one. Its memory is the block of the programs' heap, which holds the file's bytes, and
  -- the instruction pointer of its first frame is the address of that block.
  pub syscall_task_create-gets_turn :
      (dir : ℕ) (e : Entry) (res : ℤ) (bytes : List ℕ) (xs' : List Cell) (c' : Cell)
      (ys' : List Cell) (timer : Timer) (frames : ℕ → ℕ)
      → find_program s.volume (a ∷ name) ≡ some (dir, e)
      → e.size ≢ 0
      → fs_read_file_in_dir fuel s.volume (some (a ∷ name)) (some bin) (pos dir) e.size
        ≡ some (res, bytes)
      → room_for e.size ≢ 0
      → first_fit (align_up (room_for e.size)) cells' ≡ found xs' c' ys'
      → IsTimer timer
      → millis timer + (length cs + 1) < 4294967295000
      → (k : Kernel) × (syscall_handler fuel r s
          ≡ some (returned s.kernel.next_pid (with_kernel s k)))
        × ((k.tasks (address s.kernel.heap xs + header_size)).pid ≡ s.kernel.next_pid)
        × ((k.tasks (address s.kernel.heap xs + header_size)).user_mem
            ≡ address s.kernel.user_heap xs' + header_size)
        × (read_bytes k.user_heap.bytes
              (address s.kernel.user_heap xs' + header_size)
              (length bytes)
            ≡ bytes)
        × (resumes_at k (address s.kernel.heap xs + header_size)
            ≡ address s.kernel.user_heap xs' + header_size)
        × ((n : ℕ) × (timer' : Timer) × (k' : Kernel) × (n ≤ length cs + 1)
            × (interrupts fuel timer k frames n ≡ some (eois n, timer', k'))
            × (k'.current ≡ address s.kernel.heap xs + header_size))
  syscall_task_create-gets_turn dir e res bytes xs' c' ys' timer frames found_it some_size read
        some_room hit'' ticking small =
      let t : ℕ = address s.kernel.heap xs + header_size in
      let (k, ran, launched) =
        load_and_run_program_lem fuel s.kernel cells ts xs c ys us d vs is enough members owned
          below some_pid hit hit' s.volume a name dir e res bytes cells' xs' c' ys' found_it
          some_size read is' enough' set_up some_room hit'' in
      let (ring, some_ring) =
        Members-IsRing k bs s.kernel.current cs t
          (subst (λ l. Members k (l ++ t ∷ [])) running launched.members) in
      let (n, timer', k', few_ticks, went, turn, _) =
        interrupts-gets_turn fuel timer k frames cs t bs ticking small
          (subst (λ q. IsRing k.tasks q (cs ++ t ∷ bs)) (sym launched.same_current) ring) some_ring
          (ap runnable launched.ready)
          (omega (
            arith,
            few,
            ap length running,
            length-append bs (s.kernel.current ∷ cs),
            length-append cs (t ∷ bs),
          )) in
      (
        k,
        sys_task_create-launches fuel s r p (a ∷ name) s.kernel.next_pid k is_call some_name named
            ran,
        launched.same_pid,
        launched.its_mem,
        launched.loaded,
        launched.starts,
        (n, timer', k', few_ticks, went, turn),
      )
