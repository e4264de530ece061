-- ===== src/Multitask/Create.antt =====
-- A new task on the kernel's heap: its `task_t` is a new block, so it is not in the ring, and it goes
-- into the ring behind all others.
use kernel_c.Prelude.{
  ℕ, ◌+◌, ◌≤◌, ◌<◌, ◌≡◌, ◌≢◌, ◌⊎◌, inl, inr, refl, sym, ap, ◌∙◌, subst, List, [], ◌∷◌, ◌++◌, arith,
  Apart, Apart-append, true, false, some, length, ==_ne, add64, length-append, ltb, Bool-cases, ◌-◌,
  ◌*◌,
}
use kernel_c.Heap.{Heap, null, header_size, align_up}
use kernel_c.Heap.Cells.{Cell, cell, IsHeap}
use kernel_c.Heap.Focus.{address}
use kernel_c.Kmalloc.{malloc}
use kernel_c.Kmalloc.Fit.{found, first_fit, found_parts}
use kernel_c.Kmalloc.Malloc.{take_cells, malloc_lem}
use kernel_c.Kmalloc.Safety.{apart}
use kernel_c.Multitask.{
  Task, Kernel, task_ready, task_size, set_task, blank_task, prepare_initial_stack, insert_task,
  start_task, create, utask_create,
}
use kernel_c.Multitask.Ring.{Links-set_task, set_task-other, set_task_self}
use kernel_c.Multitask.Frames.{resumes_at, prepare_initial_stack_entry}
use kernel_c.Multitask.Members.{Members, insert_task-Members}

-- the task is the static one, or the payload of a block in use
abbrev pub Owned : Kernel → List Cell → ℕ → Type 0
Owned k cells t =
    (t ≡ k.init_task)
    ⊎ ((us : List Cell) × (d : Cell) × (vs : List Cell) × (cells ≡ us ++ d ∷ vs)
        × (d.free ≡ false)
        × (t ≡ address k.heap us + header_size))

abbrev pub AllOwned : Kernel → List Cell → List ℕ → Type 0
AllOwned k cells [] = Unit
AllOwned k cells (t ∷ ts) = Owned k cells t × AllOwned k cells ts

pub new_block-Apart :
    (k : Kernel) (cells : List Cell) (xs : List Cell) (c : Cell) (ys : List Cell) (ts : List ℕ)
    → cells ≡ xs ++ c ∷ ys
    → c.free ≡ true
    → k.init_task < k.heap.heap_start
    → AllOwned k cells ts
    → Apart (address k.heap xs + header_size) ts
new_block-Apart k cells xs c ys [] parts free below owned = tt
new_block-Apart k cells xs c ys (t ∷ ts) parts free below owned =
    (differs owned.0, new_block-Apart k cells xs c ys ts parts free below owned.1)
  where
    differs : Owned k cells t → address k.heap xs + header_size ≢ t
    differs (inl static) e = omega (arith, static, e, below)
    differs (inr (us, d, vs, there, used, at)) e =
        elim (apart xs c ys us d vs (sym parts ∙ there) free used) [
          | inl before ↦ omega (arith, before, at, e)
          | inr behind ↦ omega (arith, behind, at, e)
        ]

-- a write to a task that is not in the ring
Members-set_task :
    (k : Kernel) (ts : List ℕ) (t : ℕ) (x : Task) (q : ℕ → ℕ) (n : ℕ) (h : Heap)
    → Apart t ts
    → Members k ts
    → Members (record k { tasks = set_task k.tasks t x; qwords = q; next_pid = n; heap = h }) ts
Members-set_task k ts t x q n h new is =
    let parts = (Apart-append t is.others (k.task_ring ∷ [])).0 (subst (Apart t) is.order new) in
    record {
      others = is.others;
      order = is.order;
      ring = record {
        links =
            Links-set_task k.tasks t x k.task_ring is.others k.task_ring (parts.1.0, parts.0)
              is.ring.links;
        present = is.ring.present;
        distinct = is.ring.distinct;
      };
    }

insert_task_kept :
    (k : Kernel) (t : ℕ)
    → k.task_ring ≢ null
    → t ≢ k.task_ring
    → ((insert_task k t).tasks t ≡ record (k.tasks t) { next = (k.tasks k.task_ring).next })
      × ((insert_task k t).user_heap ≡ k.user_heap)
      × ((insert_task k t).current ≡ k.current)
      × ((insert_task k t).qwords ≡ k.qwords)
unfolding insert_task
insert_task_kept k t some_ring ne = rw (==_ne k.task_ring 0 some_ring) (
  set_task-other (set_task k.tasks t (record (k.tasks t) { next = (k.tasks k.task_ring).next }))
        k.task_ring
        (record (set_task k.tasks t (record (k.tasks t) { next = (k.tasks k.task_ring).next })
          k.task_ring) { next = t })
        t (λ e. ne (sym e))
      ∙ set_task_self k.tasks t (record (k.tasks t) { next = (k.tasks k.task_ring).next }),
  refl,
  refl,
  refl,
)

-- what the new task is, and what stays
pub record Started (k k' : Kernel) (ts : List ℕ) (t entry user_mem : ℕ) : Type 0 where
  pub members : Members k' (ts ++ t ∷ [])
  pub ready : (k'.tasks t).state ≡ task_ready
  pub same_pid : (k'.tasks t).pid ≡ k.next_pid
  pub its_mem : (k'.tasks t).user_mem ≡ user_mem
  pub same_heap : k'.user_heap ≡ k.user_heap
  pub same_current : k'.current ≡ k.current
  pub starts : resumes_at k' t ≡ entry

pub start_task-Started :
    (k : Kernel) (ts : List ℕ) (t kstack stack_size entry user_mem user_mem_size : ℕ) (h : Heap)
    → t ≢ null
    → Apart t ts
    → Members k ts
    → Started k
        (start_task (record k { heap = h }) t kstack stack_size entry user_mem user_mem_size)
        ts
        t
        entry
        user_mem
unfolding start_task
start_task-Started k ts t kstack stack_size entry user_mem user_mem_size h some_t new is = record {
  members = insert_task-Members placed t ts placed_members some_t new;
  ready = ap (λ (x : Task). x.state) its_task;
  same_pid = ap (λ (x : Task). x.pid) its_task;
  its_mem = ap (λ (x : Task). x.user_mem) its_task;
  same_heap = (insert_task_kept placed t some_ring not_last).1;
  same_current = (insert_task_kept placed t some_ring not_last).2;
  starts =
      ap (λ (x : Task). (insert_task placed t).qwords (x.regs + 8 * 17)) its_task
      ∙ ap (λ (m : ℕ → ℕ). m (frame.0 + 8 * 17)) (insert_task_kept placed t some_ring not_last).3
      ∙ prepare_initial_stack_entry k.qwords entry (add64 kstack stack_size);
}
  where
    frame : ℕ × (ℕ → ℕ)
    frame = prepare_initial_stack k.qwords entry (add64 kstack stack_size)

    task : Task
    task = record blank_task {
      pid = k.next_pid;
      state = task_ready;
      regs = frame.0;
      kstack = kstack;
      kstack_size = stack_size;
      user_mem = user_mem;
      user_mem_size = user_mem_size;
    }

    placed : Kernel
    placed = record k {
      heap = h;
      tasks = set_task k.tasks t task;
      qwords = frame.1;
      next_pid = k.next_pid + 1;
    }

    placed_members : Members placed ts
    placed_members = Members-set_task k ts t task frame.1 (k.next_pid + 1) h new is

    some_ring : k.task_ring ≢ null
    some_ring e = is.ring.present.0 (sym e)

    not_last : t ≢ k.task_ring
    not_last e =
        ((Apart-append t is.others (k.task_ring ∷ [])).0 (subst (Apart t) is.order new)).1.0 e

    its_task :
        (insert_task placed t).tasks t ≡ record task { next = (placed.tasks k.task_ring).next }
    its_task =
        (insert_task_kept placed t some_ring not_last).0
        ∙ ap (λ (x : Task). record x { next = (placed.tasks k.task_ring).next })
            (set_task_self k.tasks t task)

length-take_cells :
    (xs : List Cell) (c : Cell) (ys : List Cell) (n : ℕ)
    → length (xs ++ take_cells c n ys) ≤ length (xs ++ c ∷ ys) + 1
length-take_cells xs c ys n = elim (Bool-cases (ltb c.size (n + 48))) [
  | inl small ↦
      rw small (omega (arith, length-append xs (cell c.size false ∷ ys), length-append xs (c ∷ ys)))
  | inr large ↦ rw large (
      omega (
        arith,
        length-append xs (cell n false ∷ cell (c.size - n - header_size) true ∷ ys),
        length-append xs (c ∷ ys),
      ))
]

utask_create_found :
    (fuel : ℕ) (k : Kernel) (entry size user_mem user_mem_size t kstack : ℕ) (h h' : Heap)
    → size ≢ 0
    → t ≢ null
    → kstack ≢ null
    → malloc fuel k.heap task_size ≡ some (t, h)
    → malloc fuel h size ≡ some (kstack, h')
    → utask_create fuel k entry size user_mem user_mem_size
      ≡ some (
        ((start_task (record k { heap = h' }) t kstack size entry user_mem user_mem_size).tasks
            t).pid,
        start_task (record k { heap = h' }) t kstack size entry user_mem user_mem_size,
      )
unfolding utask_create create
utask_create_found fuel k entry size user_mem user_mem_size t kstack h h' some_size some_t
      some_stack ran ran' =
    rw
      (
        ==_ne size 0 some_size,
        ran,
        ==_ne t 0 some_t,
        ran',
        ==_ne kstack 0 some_stack,
        ==_ne t 0 some_t,
      )
      refl

-- `utask_create` where the kernel's heap has room for a `task_t` and for the stack: it returns the pid
-- that was next, and the new task, ready to run at `entry` and with the memory it was given, stands
-- behind all other tasks of the ring, which stay in their order; the programs' heap is as before, and
-- so is the running task. The tasks before are the static one and payloads of blocks in use.
pub utask_create_lem :
    (fuel : ℕ) (k : Kernel) (cells : List Cell) (ts : List ℕ)
    (entry size user_mem user_mem_size : ℕ) (xs : List Cell) (c : Cell) (ys : List Cell)
    (us : List Cell) (d : Cell) (vs : List Cell)
    → IsHeap k.heap cells
    → length cells + 1 < fuel
    → Members k ts
    → AllOwned k cells ts
    → k.init_task < k.heap.heap_start
    → size ≢ 0
    → first_fit (align_up task_size) cells ≡ found xs c ys
    → first_fit (align_up size) (xs ++ take_cells c (align_up task_size) ys) ≡ found us d vs
    → (k' : Kernel) × (utask_create fuel k entry size user_mem user_mem_size
        ≡ some (k.next_pid, k'))
      × Started k k' ts (address k.heap xs + header_size) entry user_mem
utask_create_lem fuel k cells ts entry size user_mem user_mem_size xs c ys us d vs is enough members
      owned below some_size hit hit' =
    let (parts, large, free) = found_parts (align_up task_size) cells xs c ys hit in
    let (h, ran, took) =
      malloc_lem fuel k.heap cells task_size xs c ys is (omega arith) (λ e. omega (arith, e)) hit in
    let (h', ran', took') =
      malloc_lem fuel h (xs ++ take_cells c (align_up task_size) ys) size us d vs took.is_heap
        (omega (
          arith,
          enough,
          ap (length {A = Cell}) parts,
          length-take_cells xs c ys (align_up task_size),
        ))
        some_size hit' in
    started (address k.heap xs + header_size) (address h us + header_size) h h' (omega arith)
      (omega arith) (new_block-Apart k cells xs c ys ts parts free below owned) ran ran'
  where
    started :
        (t kstack : ℕ) (h h' : Heap)
        → t ≢ null
        → kstack ≢ null
        → Apart t ts
        → malloc fuel k.heap task_size ≡ some (t, h)
        → malloc fuel h size ≡ some (kstack, h')
        → (k' : Kernel) × (utask_create fuel k entry size user_mem user_mem_size
            ≡ some (k.next_pid, k'))
          × Started k k' ts t entry user_mem
    started t kstack h h' some_t some_stack new ran ran' =
        let s =
          start_task-Started k ts t kstack size entry user_mem user_mem_size h' some_t new
            members in
        (
          start_task (record k { heap = h' }) t kstack size entry user_mem user_mem_size,
          utask_create_found fuel k entry size user_mem user_mem_size t kstack h h' some_size some_t
                some_stack ran ran'
              ∙ ap
                  (λ n. some (
                    n,
                    start_task (record k { heap = h' }) t kstack size entry user_mem user_mem_size,
                  ))
                  s.same_pid,
          s,
        )
