-- ===== src/Multitask/Liveness.antt =====
-- No task that can run is passed over for ever: under the timer alone it runs after at most as many
-- turns as there are tasks before it, and one more.
use kernel_c.Prelude.{
  ℕ, zero, suc, ◌+◌, ◌≤◌, ◌<◌, ◌≡◌, ◌≢◌, inl, inr, refl, sym, ap, ◌∙◌, subst, List, [], ◌∷◌, ◌++◌,
  append_assoc, arith, true, Apart, Apart-append, Option, some, ◌>>=◌, length, length-append,
  Bool-cases,
}
use kernel_c.Heap.{null}
use kernel_c.Multitask.{
  task_running, Task, TaskStore, Kernel, runnable, schedule_from_isr, switch_to,
}
use kernel_c.Multitask.Ring.{IsRing, IsRing-same, IsRing-turned, set_task_self, set_task_kept}
use kernel_c.Multitask.Turns.{
  next_up, saved, saved-next, saved-runnable, turned_to, schedule_from_isr_lem,
}

-- timer interrupts one after the other; `frames i` is the frame that interrupt number `i` saves
unfoldable pub ticks : ℕ → Kernel → (ℕ → ℕ) → ℕ → Option Kernel
ticks fuel k frames zero = some k
ticks fuel k frames (suc n) =
    schedule_from_isr fuel k (frames 0) >>= λ (out, k'). ticks fuel k' (λ i. frames (i + 1)) n

-- The task that is up is the given one or one of those before it.
data IsUp (m : TaskStore) (ys : List ℕ) (t : ℕ) : ℕ → Type 0 where
  the_task : IsUp m ys t t
  before :
      (us : List ℕ) (n : ℕ) (bs : List ℕ)
      → ys ≡ us ++ n ∷ bs
      → runnable (m n).state ≡ true
      → IsUp m ys t n

next_up-IsUp :
    (m : TaskStore) (ys : List ℕ) (t : ℕ) (rest : List ℕ)
    → runnable (m t).state ≡ true
    → IsUp m ys t (next_up m (ys ++ t ∷ rest))
unfolding next_up
next_up-IsUp m [] t rest can = rw can the_task
next_up-IsUp m (y ∷ ys) t rest can = elim (Bool-cases (runnable (m y).state)) [
  | inl first ↦ rw first (before [] y ys refl first)
  | inr skip ↦ rw skip (later (next_up-IsUp m ys t rest can))
]
  where
    later : {n : ℕ} → IsUp m ys t n → IsUp m (y ∷ ys) t n
    later the_task = the_task
    later (before us n bs parts runs) = before (y ∷ us) n bs (ap (◌∷◌ y) parts) runs

turned_to-next :
    (k : Kernel) (regs n q : ℕ) → ((turned_to k regs n).tasks q).next ≡ (k.tasks q).next
unfolding switch_to
turned_to-next k regs n q =
    set_task_kept (λ (t : Task). t.next) (saved k regs) n
      (record (saved k regs n) { state = task_running }) q refl
    ∙ saved-next k regs q

turned_to-runnable :
    (k : Kernel) (regs n q : ℕ)
    → runnable (saved k regs n).state ≡ true
    → runnable ((turned_to k regs n).tasks q).state ≡ runnable (k.tasks q).state
unfolding switch_to
turned_to-runnable k regs n q can =
    set_task_kept (λ (t : Task). runnable t.state) (saved k regs) n
      (record (saved k regs n) { state = task_running }) q (sym can)
    ∙ saved-runnable k regs q

turned_to-running : (k : Kernel) (regs n : ℕ) → ((turned_to k regs n).tasks n).state ≡ task_running
unfolding switch_to
turned_to-running k regs n =
    ap (λ (t : Task). t.state)
      (set_task_self (saved k regs) n (record (saved k regs n) { state = task_running }))

-- what holds between two interrupts: the ring of the task that runs, with `t` behind `ys`
pub record Waits (k : Kernel) (ys : List ℕ) (t : ℕ) (zs : List ℕ) : Type 0 where
  pub ring : IsRing k.tasks k.current (ys ++ t ∷ zs)
  pub some_ring : k.task_ring ≢ null
  pub can_run : runnable (k.tasks t).state ≡ true

-- the task runs after at most `b` interrupts
pub record Runs (fuel : ℕ) (k : Kernel) (frames : ℕ → ℕ) (t b : ℕ) : Type 0 where
  pub count : ℕ
  pub after : Kernel
  pub bounded : count ≤ b
  pub ran : ticks fuel k frames count ≡ some after
  pub is_current : after.current ≡ t
  pub is_running : (after.tasks t).state ≡ task_running

module _ (fuel : ℕ) (k : Kernel) (ys : List ℕ) (t : ℕ) (zs : List ℕ) (waits : Waits k ys t zs)
    (room : length (ys ++ t ∷ zs) < fuel) (regs : ℕ) where
  up : IsUp (saved k regs) ys t (next_up (saved k regs) ((ys ++ t ∷ zs) ++ k.current ∷ []))
  up = rw (append_assoc ys (t ∷ zs) (k.current ∷ [])) (
      next_up-IsUp (saved k regs) ys t (zs ++ k.current ∷ [])
        (saved-runnable k regs t ∙ waits.can_run))

  Turn : ℕ → Type 0
  Turn n =
      (n ≢ null)
      × (schedule_from_isr fuel k regs ≡ some ((saved k regs n).regs, turned_to k regs n))

  turn :
      next_up (saved k regs) ((ys ++ t ∷ zs) ++ k.current ∷ []) ≢ null
      → Turn (next_up (saved k regs) ((ys ++ t ∷ zs) ++ k.current ∷ []))
  unfolding Turn
  turn ne =
      elim (schedule_from_isr_lem fuel k (ys ++ t ∷ zs) regs waits.ring waits.some_ring room) [
        | inl idle ↦ absurd (ne idle.0)
        | inr went ↦ went
      ]

  up-ne-null : (n : ℕ) → IsUp (saved k regs) ys t n → n ≢ null
  up-ne-null n the_task e =
      ((Apart-append null (k.current ∷ ys) (t ∷ zs)).0 waits.ring.present).1.0 (sym e)
  up-ne-null n (before us _ bs parts runs) e =
      let whole : Apart null (k.current ∷ us ++ n ∷ bs) =
        rw parts at ((Apart-append null (k.current ∷ ys) (t ∷ zs)).0 waits.ring.present).0 in
      ((Apart-append null (k.current ∷ us) (n ∷ bs)).0 whole).1.0 (sym e)

  -- the ring behind a turn to a task before `t`
  Waits-turned :
      (us : List ℕ) (n : ℕ) (bs : List ℕ)
      → ys ≡ us ++ n ∷ bs
      → runnable (saved k regs n).state ≡ true
      → Waits (turned_to k regs n) bs t (zs ++ k.current ∷ us)
  unfolding switch_to
  Waits-turned us n bs parts runs = record {
    ring =
        IsRing-same k.tasks (turned_to k regs n).tasks n (bs ++ t ∷ (zs ++ k.current ∷ us))
          (turned_to-next k regs n)
          (rw (append_assoc bs (t ∷ zs) (k.current ∷ us)) at (
            IsRing-turned k.tasks k.current us n (bs ++ t ∷ zs)
              (rw (parts, append_assoc us (n ∷ bs) (t ∷ zs)) at waits.ring)));
    some_ring = waits.some_ring;
    can_run = turned_to-runnable k regs n t runs ∙ waits.can_run;
  }

shorter : (us : List ℕ) (n : ℕ) (bs ys : List ℕ) → ys ≡ us ++ n ∷ bs → length bs < length ys
shorter us n bs ys parts = omega (arith, ap length parts, length-append us (n ∷ bs))

same_length :
    (c : ℕ) (us : List ℕ) (n : ℕ) (bs : List ℕ) (t : ℕ) (zs ys : List ℕ)
    → ys ≡ us ++ n ∷ bs
    → length (bs ++ t ∷ (zs ++ c ∷ us)) ≡ length (ys ++ t ∷ zs)
same_length c us n bs t zs ys parts = omega (
  arith,
  ap length parts,
  length-append us (n ∷ bs),
  length-append bs (t ∷ (zs ++ c ∷ us)),
  length-append zs (c ∷ us),
  length-append ys (t ∷ zs),
)

ticks-step :
    (fuel : ℕ) (k : Kernel) (frames : ℕ → ℕ) (out : ℕ) (k' : Kernel) (n : ℕ)
    → schedule_from_isr fuel k (frames 0) ≡ some (out, k')
    → ticks fuel k frames (suc n) ≡ ticks fuel k' (λ i. frames (i + 1)) n
unfolding ticks
ticks-step fuel k frames out k' n ran = rw ran refl

module _ (fuel : ℕ) (k : Kernel) (frames : ℕ → ℕ) (ys : List ℕ) (t : ℕ) (zs : List ℕ)
    (waits : Waits k ys t zs) (room : length (ys ++ t ∷ zs) < fuel) where
  up_task : ℕ
  up_task = next_up (saved k (frames 0)) ((ys ++ t ∷ zs) ++ k.current ∷ [])

  first_turn :
      (n : ℕ)
      → IsUp (saved k (frames 0)) ys t n
      → up_task ≡ n
      → schedule_from_isr fuel k (frames 0)
        ≡ some ((saved k (frames 0) n).regs, turned_to k (frames 0) n)
  unfolding up_task Turn
  first_turn n is e =
      let ne = up-ne-null fuel k ys t zs waits room (frames 0) n is in
      (subst (Turn fuel k ys t zs waits room (frames 0)) e
        (turn fuel k ys t zs waits room (frames 0) (λ z. ne (sym e ∙ z)))).1

  first_Runs : (b : ℕ) → up_task ≡ t → Runs fuel k frames t (suc b)
  unfolding ticks switch_to
  first_Runs b e = record {
    count = 1;
    after = turned_to k (frames 0) t;
    bounded = omega arith;
    ran =
        ticks-step fuel k frames (saved k (frames 0) t).regs (turned_to k (frames 0) t) 0
          (first_turn t the_task e);
    is_current = refl;
    is_running = turned_to-running k (frames 0) t;
  }

  later_Runs :
      (b n : ℕ)
      → IsUp (saved k (frames 0)) ys t n
      → up_task ≡ n
      → Runs fuel (turned_to k (frames 0) n) (λ i. frames (i + 1)) t b
      → Runs fuel k frames t (suc b)
  later_Runs b n is e rest = record {
    count = suc rest.count;
    after = rest.after;
    bounded = omega (arith, rest.bounded);
    ran =
        ticks-step fuel k frames (saved k (frames 0) n).regs (turned_to k (frames 0) n) rest.count
          (first_turn n is e)
        ∙ rest.ran;
    is_current = rest.is_current;
    is_running = rest.is_running;
  }

Runs-within :
    (b fuel : ℕ) (k : Kernel) (frames : ℕ → ℕ) (ys : List ℕ) (t : ℕ) (zs : List ℕ)
    → Waits k ys t zs
    → length (ys ++ t ∷ zs) < fuel
    → length ys < b
    → Runs fuel k frames t b
unfolding up_task
Runs-within zero fuel k frames ys t zs waits room few = absurd (omega arith)
Runs-within (suc b) fuel k frames ys t zs waits room few =
    go _ (up fuel k ys t zs waits room (frames 0)) refl (λ us n bs parts runs.
      Runs-within b fuel (turned_to k (frames 0) n) (λ i. frames (i + 1)) bs t
        (zs ++ k.current ∷ us)
        (Waits-turned fuel k ys t zs waits room (frames 0) us n bs parts runs)
        (rw (same_length k.current us n bs t zs ys parts) room)
        (omega (arith, shorter us n bs ys parts, few)))
  where
    go :
        (n : ℕ)
        → IsUp (saved k (frames 0)) ys t n
        → up_task fuel k frames ys t zs waits room ≡ n
        → ((us : List ℕ) (m : ℕ) (bs : List ℕ)
            → ys ≡ us ++ m ∷ bs
            → runnable (saved k (frames 0) m).state ≡ true
            → Runs fuel (turned_to k (frames 0) m) (λ i. frames (i + 1)) t b)
        → Runs fuel k frames t (suc b)
    go n the_task e rest = first_Runs fuel k frames ys t zs waits room b e
    go n (before us _ bs parts runs) e rest =
        later_Runs fuel k frames ys t zs waits room b n (before us n bs parts runs) e
          (rest us n bs parts runs)

-- Round robin starves nobody: a task of the ring that can run, ready or running, is the running task
-- after at most as many timer interrupts as there are tasks between the running one and it, plus
-- one, whatever these tasks' states are and whatever frames the interrupts save.
pub gets_turn :
    (fuel : ℕ) (k : Kernel) (frames : ℕ → ℕ) (ys : List ℕ) (t : ℕ) (zs : List ℕ)
    → IsRing k.tasks k.current (ys ++ t ∷ zs)
    → k.task_ring ≢ null
    → runnable (k.tasks t).state ≡ true
    → length (ys ++ t ∷ zs) < fuel
    → (n : ℕ) × (k' : Kernel) × (n ≤ length ys + 1)
      × (ticks fuel k frames n ≡ some k')
      × (k'.current ≡ t)
      × ((k'.tasks t).state ≡ task_running)
gets_turn fuel k frames ys t zs ring some_ring can_run room =
    let r : Runs fuel k frames t (length ys + 1) =
      Runs-within (length ys + 1) fuel k frames ys t zs
        (record { ring = ring; some_ring = some_ring; can_run = can_run }) room (omega arith) in
    (r.count, r.after, r.bounded, r.ran, r.is_current, r.is_running)
