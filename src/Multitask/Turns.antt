-- ===== src/Multitask/Turns.antt =====
-- Round robin: who runs next, and that every task that can run gets its turn.
use kernel_c.Prelude.{
  ℕ, zero, suc, ◌<◌, ◌≡◌, ◌≢◌, ◌⊎◌, inl, inr, refl, sym, List, [], ◌∷◌, ◌++◌, arith, Apart, some,
  length, length-append, if◌then◌else◌, ==_self, ==_ne, Bool-cases, ℕ_discrete,
}
use kernel_c.Heap.{null}
use kernel_c.Multitask.{
  TaskState, task_running, task_ready, task_blocked, task_zombie, Task, TaskStore, Kernel, set_task,
  runnable, was_running, pick_loop, pick_next, save_regs, switch_to, schedule_from_isr,
}
use kernel_c.Multitask.Ring.{Links, IsRing, IsRing-same, IsRing-turned, set_task_kept}

-- the first task of the list that can run, or NULL
unfoldable pub next_up : TaskStore → List ℕ → ℕ
next_up m [] = null
next_up m (t ∷ ts) = if runnable (m t).state then t else next_up m ts

pick_loop_lem :
    (k : ℕ) (m : TaskStore) (start it : ℕ) (ts : List ℕ)
    → length ts < k
    → Links m it ts start
    → Apart start ts
    → pick_loop k m start it ≡ some (next_up m (it ∷ ts))
unfolding pick_loop next_up
pick_loop_lem zero m start it ts room links apart = absurd (omega arith)
pick_loop_lem (suc k) m start it [] room links apart = elim (Bool-cases (runnable (m it).state)) [
  | inl yes_it ↦ rw yes_it refl
  | inr not_it ↦ rw (not_it, links, ==_self start) refl
]
pick_loop_lem (suc k) m start it (t ∷ ts) room links apart =
    let rest = pick_loop_lem k m start t ts (omega arith) links.1 apart.1 in
    elim (Bool-cases (runnable (m it).state)) [
      | inl yes_it ↦ rw yes_it refl
      | inr not_it ↦ rw (not_it, links.0, ==_ne t start (λ e. apart.0 (sym e))) rest
    ]

-- `pick_next` ends, with a round for each task, and returns the first task that can run: it looks at
-- the tasks behind the running one in the order of the ring, and at the running one last.
pub pick_next_lem :
    (fuel : ℕ) (k : Kernel) (ts : List ℕ)
    → IsRing k.tasks k.current ts
    → k.task_ring ≢ null
    → length ts < fuel
    → pick_next fuel k ≡ some (next_up k.tasks (ts ++ k.current ∷ []))
unfolding pick_next
pick_next_lem fuel k [] is some_ring room =
    rw (==_ne k.task_ring 0 some_ring, ==_ne k.current 0 (λ e. is.present.0 (sym e)), is.links)
      (pick_loop_lem fuel k.tasks k.current k.current [] room is.links tt)
pick_next_lem fuel k (t ∷ ts) is some_ring room =
    let turned : IsRing k.tasks t (ts ++ k.current ∷ []) =
      IsRing-turned k.tasks k.current [] t ts is in
    rw (==_ne k.task_ring 0 some_ring, ==_ne k.current 0 (λ e. is.present.0 (sym e)), is.links.0)
      (pick_loop_lem fuel k.tasks t t (ts ++ k.current ∷ [])
        (omega (arith, room, length-append ts (k.current ∷ []))) turned.links turned.distinct.0)

-- the tasks once the frame of the running one is saved
abbrev pub saved : Kernel → ℕ → TaskStore
saved k regs =
    let c = k.tasks k.current in
    set_task k.tasks k.current (record c { regs = regs; state = was_running c.state })

save_regs_lem :
    (k : Kernel) (regs : ℕ)
    → k.current ≢ null
    → save_regs k regs ≡ record k { tasks = saved k regs }
unfolding save_regs
save_regs_lem k regs ne = rw (==_ne k.current 0 ne) refl

pub saved-next : (k : Kernel) (regs q : ℕ) → (saved k regs q).next ≡ (k.tasks q).next
saved-next k regs q =
    set_task_kept (λ (t : Task). t.next) k.tasks k.current
      (record (k.tasks k.current) { regs = regs; state = was_running (k.tasks k.current).state }) q
      refl

runnable-was_running : (s : TaskState) → runnable (was_running s) ≡ runnable s
runnable-was_running task_running = refl
runnable-was_running task_ready = refl
runnable-was_running task_blocked = refl
runnable-was_running task_zombie = refl

pub saved-runnable :
    (k : Kernel) (regs q : ℕ) → runnable (saved k regs q).state ≡ runnable (k.tasks q).state
saved-runnable k regs q =
    set_task_kept (λ (t : Task). runnable t.state) k.tasks k.current
      (record (k.tasks k.current) { regs = regs; state = was_running (k.tasks k.current).state }) q
      (runnable-was_running (k.tasks k.current).state)

-- The state after a turn that `n` gets.
abbrev pub turned_to : Kernel → ℕ → ℕ → Kernel
turned_to k regs n = switch_to (record k { tasks = saved k regs }) n

module _ (fuel : ℕ) (k : Kernel) (ts : List ℕ) (regs : ℕ) (is : IsRing k.tasks k.current ts)
    (some_ring : k.task_ring ≢ null) (room : length ts < fuel) where
  -- the task that the timer turns to
  abbrev chosen : ℕ
  chosen = next_up (saved k regs) (ts ++ k.current ∷ [])

  picked : pick_next fuel (record k { tasks = saved k regs }) ≡ some chosen
  picked =
      pick_next_lem fuel (record k { tasks = saved k regs }) ts
        (IsRing-same k.tasks (saved k regs) k.current ts (saved-next k regs) is) some_ring room

  -- With a running task, `schedule_from_isr` ends. It saves the frame of the running task, which
  -- becomes ready if it was running, and turns to the first task of the ring that can run, that one
  -- last. If no task can run it returns the frame that it was given.
  pub schedule_from_isr_lem :
      ((chosen ≡ null)
        × (schedule_from_isr fuel k regs ≡ some (regs, record k { tasks = saved k regs })))
      ⊎ ((chosen ≢ null)
          × (schedule_from_isr fuel k regs
              ≡ some ((saved k regs chosen).regs, turned_to k regs chosen)))
  unfolding schedule_from_isr
  schedule_from_isr_lem = elim (ℕ_discrete chosen null) [
    | yes e ↦ inl (e, rw (save_regs_lem k regs (λ z. is.present.0 (sym z)), picked, e) refl)
    | no ne ↦
        inr (
          ne,
          rw (save_regs_lem k regs (λ z. is.present.0 (sym z)), picked, ==_ne chosen 0 ne) refl,
        )
  ]
