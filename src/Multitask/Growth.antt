-- ===== src/Multitask/Growth.antt =====
-- Tasks that are made one after the other at the end of a heap whose last block is free.
use kernel_c.Prelude.{
  ℕ, ◌+◌, ◌-◌, ◌*◌, ◌≤◌, ◌<◌, ◌≡◌, ◌≢◌, inl, inr, refl, sym, ap, ◌∙◌, subst, List, [], ◌∷◌, ◌++◌,
  append_assoc, arith, Apart, true, false, some, length, length-append, ==_ne, add64,
}
use kernel_c.Heap.{Heap, null, header_size, align_up}
use kernel_c.Heap.Cells.{Cell, cell, span, span-append, IsHeap}
use kernel_c.Heap.Focus.{address}
use kernel_c.Kmalloc.{malloc}
use kernel_c.Multitask.{
  Task, TaskStore, Kernel, kstack_default, blank_task, task_ready, set_task, task_size,
  prepare_initial_stack, insert_task, start_task, create,
}
use kernel_c.Multitask.Ring.{set_task_kept, set_task-other, set_task_self}
use kernel_c.Multitask.Frames.{prepare_initial_stack_lem}
use kernel_c.Multitask.Members.{Members}
use kernel_c.Multitask.Create.{Owned, AllOwned, Started, start_task-Started, new_block-Apart}
use kernel_c.Kmalloc.Last.{AllUsed, AllUsed-append, malloc_last}

-- The ring, the blocks in use, and a last block of `n` bytes that is free.
pub record Spare (k : Kernel) (ts : List ℕ) (used : List Cell) (n : ℕ) : Type 0 where
  pub heap : IsHeap k.heap (used ++ cell n true ∷ [])
  pub all_used : AllUsed used
  pub members : Members k ts
  pub owned : AllOwned k used ts
  pub below : k.init_task < k.heap.heap_start

Owned-more :
    (k k' : Kernel) (used more : List Cell) (t : ℕ)
    → k'.init_task ≡ k.init_task
    → k'.heap.heap_start ≡ k.heap.heap_start
    → Owned k used t
    → Owned k' (used ++ more) t
Owned-more k k' used more t same start (inl static) = inl (static ∙ sym same)
Owned-more k k' used more t same start (inr (us, d, vs, parts, in_use, at)) = inr (
  us,
  d,
  vs ++ more,
  ap (λ cs. cs ++ more) parts ∙ append_assoc us (d ∷ vs) more,
  in_use,
  at ∙ ap (λ a. a + span us + header_size) (sym start),
)

AllOwned-more :
    (k k' : Kernel) (used more : List Cell) (ts : List ℕ) (t : ℕ)
    → k'.init_task ≡ k.init_task
    → k'.heap.heap_start ≡ k.heap.heap_start
    → AllOwned k used ts
    → Owned k' (used ++ more) t
    → AllOwned k' (used ++ more) (ts ++ t ∷ [])
AllOwned-more k k' used more [] t same start owned last = (last, tt)
AllOwned-more k k' used more (q ∷ ts) t same start owned last = (
  Owned-more k k' used more q same start owned.0,
  AllOwned-more k k' used more ts t same start owned.1 last,
)

AllOwned-within :
    (k : Kernel) (used more : List Cell) (ts : List ℕ)
    → AllOwned k used ts
    → AllOwned k (used ++ more) ts
AllOwned-within k used more [] owned = tt
AllOwned-within k used more (q ∷ ts) owned =
    (Owned-more k k used more q refl refl owned.0, AllOwned-within k used more ts owned.1)

-- what a new task at `t` leaves as it was
pub record Frame (k k' : Kernel) (t : ℕ) : Type 0 where
  pub same_mem : (q : ℕ) → q ≢ t → (k'.tasks q).user_mem ≡ (k.tasks q).user_mem
  pub same_state : (q : ℕ) → q ≢ t → (k'.tasks q).state ≡ (k.tasks q).state
  pub pid_kept : (q : ℕ) → q ≢ t → (k'.tasks q).pid ≡ (k.tasks q).pid
  pub same_regs : (q : ℕ) → q ≢ t → (k'.tasks q).regs ≡ (k.tasks q).regs
  pub same_user_heap : k'.user_heap ≡ k.user_heap
  pub same_init : k'.init_task ≡ k.init_task
  pub next_pid : k'.next_pid ≡ k.next_pid + 1

-- a field other than `next`
insert_task_field {ℓ} :
    {A : Type ℓ} (f : Task → A) (k : Kernel) (t q : ℕ)
    → k.task_ring ≢ null
    → ((x : Task) (n : ℕ) → f (record x { next = n }) ≡ f x)
    → f ((insert_task k t).tasks q) ≡ f (k.tasks q)
unfolding insert_task
insert_task_field f k t q some_ring keeps =
    let linked : TaskStore =
      set_task k.tasks t (record (k.tasks t) { next = (k.tasks k.task_ring).next }) in
    rw (==_ne k.task_ring 0 some_ring) (
      set_task_kept f linked k.task_ring (record (linked k.task_ring) { next = t }) q
        (keeps (linked k.task_ring) t)
      ∙ set_task_kept f k.tasks t (record (k.tasks t) { next = (k.tasks k.task_ring).next }) q
          (keeps (k.tasks t) (k.tasks k.task_ring).next))

insert_task_rest :
    (k : Kernel) (t : ℕ)
    → k.task_ring ≢ null
    → ((insert_task k t).user_heap ≡ k.user_heap)
      × ((insert_task k t).init_task ≡ k.init_task)
      × ((insert_task k t).next_pid ≡ k.next_pid)
      × ((insert_task k t).heap ≡ k.heap)
      × ((insert_task k t).qwords ≡ k.qwords)
unfolding insert_task
insert_task_rest k t some_ring = rw (==_ne k.task_ring 0 some_ring) (refl, refl, refl, refl, refl)

start_task-Frame :
    (k : Kernel) (t kstack stack_size entry user_mem user_mem_size : ℕ)
    → k.task_ring ≢ null
    → (Frame k (start_task k t kstack stack_size entry user_mem user_mem_size) t)
      × ((start_task k t kstack stack_size entry user_mem user_mem_size).heap ≡ k.heap)
unfolding start_task
start_task-Frame k t kstack stack_size entry user_mem user_mem_size some_ring = (
  record {
    same_mem = λ q ne.
        insert_task_field (λ (x : Task). x.user_mem) placed t q some_ring (λ x n. refl)
        ∙ ap (λ (x : Task). x.user_mem) (set_task-other k.tasks t task q (λ e. ne (sym e)));
    same_state = λ q ne.
        insert_task_field (λ (x : Task). x.state) placed t q some_ring (λ x n. refl)
        ∙ ap (λ (x : Task). x.state) (set_task-other k.tasks t task q (λ e. ne (sym e)));
    pid_kept = λ q ne.
        insert_task_field (λ (x : Task). x.pid) placed t q some_ring (λ x n. refl)
        ∙ ap (λ (x : Task). x.pid) (set_task-other k.tasks t task q (λ e. ne (sym e)));
    same_regs = λ q ne.
        insert_task_field (λ (x : Task). x.regs) placed t q some_ring (λ x n. refl)
        ∙ ap (λ (x : Task). x.regs) (set_task-other k.tasks t task q (λ e. ne (sym e)));
    same_user_heap = (insert_task_rest placed t some_ring).0;
    same_init = (insert_task_rest placed t some_ring).1;
    next_pid = (insert_task_rest placed t some_ring).2;
  },
  (insert_task_rest placed t some_ring).3,
)
  where
    frame : ℕ × (ℕ → ℕ)
    frame = prepare_initial_stack k.qwords entry (add64 kstack stack_size)

    task : Task
    task = record blank_task {
      pid = k.next_pid;
      state = task_ready;
      regs = frame.0;
      kstack = kstack;
      kstack_size = stack_size;
      user_mem = user_mem;
      user_mem_size = user_mem_size;
    }

    placed : Kernel
    placed = record k {
      tasks = set_task k.tasks t task;
      qwords = frame.1;
      next_pid = k.next_pid + 1;
    }

-- the memory of a new task's stack: nothing below the block is written, and the frame lies in it
pub record Fresh (k k' : Kernel) (low t : ℕ) : Type 0 where
  pub kept : (q : ℕ) → q < low → k'.qwords q ≡ k.qwords q
  pub inside : (k'.tasks t).regs + 8 * 17 < low + 8344

start_task_stack :
    (k : Kernel) (t kstack stack_size entry user_mem user_mem_size : ℕ)
    → k.task_ring ≢ null
    → 191 ≤ stack_size
    → kstack + stack_size < 18446744073709551616
    → ((q : ℕ)
        → q < kstack
        → (start_task k t kstack stack_size entry user_mem user_mem_size).qwords q ≡ k.qwords q)
      × (((start_task k t kstack stack_size entry user_mem user_mem_size).tasks t).regs + 8 * 17
          < kstack + stack_size)
unfolding start_task
start_task_stack k t kstack stack_size entry user_mem user_mem_size some_ring large range =
    let (sp, m', made, low, high, _, _, _, other) =
      prepare_initial_stack_lem k.qwords entry kstack stack_size large range in
    let top : add64 kstack stack_size ≡ kstack + stack_size = omega (arith, range) in
    let made' : prepare_initial_stack k.qwords entry (add64 kstack stack_size) ≡ (sp, m') =
      rw top made in
    (
      λ q below.
          ap (λ (m : ℕ → ℕ). m q)
            ((insert_task_rest placed t some_ring).4 ∙ ap (λ (f : ℕ × (ℕ → ℕ)). f.1) made')
          ∙ other q (inl (omega (arith, below, low))),
      omega (
        arith,
        insert_task_field (λ (x : Task). x.regs) placed t t some_ring (λ x n. refl)
            ∙ ap (λ (x : Task). x.regs) (set_task_self k.tasks t task)
            ∙ ap (λ (f : ℕ × (ℕ → ℕ)). f.0) made',
        high,
      ),
    )
  where
    frame : ℕ × (ℕ → ℕ)
    frame = prepare_initial_stack k.qwords entry (add64 kstack stack_size)

    task : Task
    task = record blank_task {
      pid = k.next_pid;
      state = task_ready;
      regs = frame.0;
      kstack = kstack;
      kstack_size = stack_size;
      user_mem = user_mem;
      user_mem_size = user_mem_size;
    }

    placed : Kernel
    placed = record k {
      tasks = set_task k.tasks t task;
      qwords = frame.1;
      next_pid = k.next_pid + 1;
    }

-- the two blocks of a task
abbrev pub task_cells : List Cell
task_cells = cell 72 false ∷ cell 8192 false ∷ []

create_both :
    (fuel : ℕ) (k : Kernel) (entry user_mem user_mem_size t kstack : ℕ) (h h' : Heap)
    → t ≢ null
    → kstack ≢ null
    → malloc fuel k.heap task_size ≡ some (t, h)
    → malloc fuel h kstack_default ≡ some (kstack, h')
    → create fuel k entry kstack_default user_mem user_mem_size
      ≡ some (
        t,
        start_task (record k { heap = h' }) t kstack kstack_default entry user_mem user_mem_size,
      )
unfolding create
create_both fuel k entry user_mem user_mem_size t kstack h h' some_t some_stack ran ran' =
    rw (ran, ==_ne t 0 some_t, ran', ==_ne kstack 0 some_stack) refl

-- a task that was made in the free block
pub record Grown (k k' : Kernel) (ts : List ℕ) (used : List Cell) (n t entry user_mem : ℕ)
    : Type 0 where
  pub started : Started k k' ts t entry user_mem
  pub spare : Spare k' (ts ++ t ∷ []) (used ++ task_cells) (n - 8344)
  pub frame : Frame k k' t
  pub new : Apart t ts
  pub memory : Fresh k k' (address k.heap used) t
  pub next_address : address k'.heap (used ++ task_cells) ≡ address k.heap used + 8344

pub create-Grown :
    (fuel : ℕ) (k : Kernel) (ts : List ℕ) (used : List Cell) (n entry user_mem user_mem_size : ℕ)
    → Spare k ts used n
    → length used + 2 < fuel
    → 8400 ≤ n
    → (k' : Kernel) × (create fuel k entry kstack_default user_mem user_mem_size
        ≡ some (address k.heap used + header_size, k'))
      × Grown k k' ts used n (address k.heap used + header_size) entry user_mem
unfolding align_up AllUsed
create-Grown fuel k ts used n entry user_mem user_mem_size s enough room =
    let t : ℕ = address k.heap used + header_size in
    let (h, ran, took) =
      malloc_last fuel k.heap used n 72 s.heap s.all_used (omega (arith, enough))
        (λ e. omega (arith, e)) refl (omega (arith, room)) in
    let used1 : List Cell = used ++ cell 72 false ∷ [] in
    let (h', ran', took') =
      malloc_last fuel h used1 (n - 72 - header_size) 8192 took.is_heap
        (AllUsed-append used (cell 72 false ∷ []) s.all_used (refl, tt))
        (omega (arith, enough, length-append used (cell 72 false ∷ []))) (λ e. omega (arith, e))
        refl (omega (arith, room)) in
    let kstack : ℕ = address h used1 + header_size in
    let k' : Kernel =
      start_task (record k { heap = h' }) t kstack kstack_default entry user_mem user_mem_size in
    let new : Apart t ts =
      new_block-Apart k (used ++ cell n true ∷ []) used (cell n true) [] ts refl refl s.below
        (AllOwned-within k used (cell n true ∷ []) ts s.owned) in
    let (frame, heap_kept) =
      start_task-Frame (record k { heap = h' }) t kstack kstack_default entry user_mem user_mem_size
        (λ e. s.members.ring.present.0 (sym e)) in
    let kstack_at : kstack ≡ address k.heap used + 152 =
      omega (arith, took.same_start, span-append used (cell 72 false ∷ [])) in
    let fresh : ((q : ℕ) → q < kstack → k'.qwords q ≡ k.qwords q)
        × ((k'.tasks t).regs + 8 * 17 < kstack + kstack_default) =
      start_task_stack (record k { heap = h' }) t kstack kstack_default entry user_mem user_mem_size
        (λ e. s.members.ring.present.0 (sym e)) (omega arith)
        (omega (arith, kstack_at, s.heap.in_range, room, span-append used (cell n true ∷ []))) in
    let start : k'.heap.heap_start ≡ k.heap.heap_start =
      ap (λ (x : Heap). x.heap_start) heap_kept ∙ took'.same_start ∙ took.same_start in
    let started : Started k k' ts t entry user_mem =
      start_task-Started k ts t kstack kstack_default entry user_mem user_mem_size h'
        (λ e. omega (arith, e)) new s.members in
    let grown : IsHeap h' ((used ++ task_cells) ++ cell (n - 8344) true ∷ []) =
      subst (λ cs. IsHeap h' (cs ++ cell (n - 8344) true ∷ []))
        (append_assoc used (cell 72 false ∷ []) (cell 8192 false ∷ []))
        (subst (λ m. IsHeap h' ((used1 ++ cell 8192 false ∷ []) ++ cell m true ∷ [])) (minus n)
          took'.is_heap) in
    (
      k',
      create_both fuel k entry user_mem user_mem_size t kstack h h' (λ e. omega (arith, e))
          (λ e. omega (arith, e)) ran ran',
      record {
        started = started;
        spare = record {
          heap =
              subst (λ x. IsHeap x ((used ++ task_cells) ++ cell (n - 8344) true ∷ []))
                (sym heap_kept) grown;
          all_used = AllUsed-append used task_cells s.all_used (refl, (refl, tt));
          members = started.members;
          owned = AllOwned-more k k' used task_cells ts t frame.same_init start s.owned (
              inr (
                used,
                cell 72 false,
                cell 8192 false ∷ [],
                refl,
                refl,
                ap (λ a. a + span used + header_size) (sym start),
              ));
          below = omega (arith, s.below, start, frame.same_init);
        };
        frame = record {
          same_mem = frame.same_mem;
          same_state = frame.same_state;
          same_user_heap = frame.same_user_heap;
          same_init = frame.same_init;
          pid_kept = frame.pid_kept;
          same_regs = frame.same_regs;
          next_pid = frame.next_pid;
        };
        new = new;
        memory = record {
          kept = λ q below. fresh.0 q (omega (arith, below, kstack_at));
          inside = omega (arith, fresh.1, kstack_at);
        };
        next_address = omega (
          arith,
          ap (λ (x : Heap). x.heap_start) heap_kept,
          took.same_start,
          took'.same_start,
          span-append used task_cells,
        );
      },
    )
  where
    minus : (m : ℕ) → m - 72 - header_size - 8192 - header_size ≡ m - 8344
    minus m = omega arith
