-- ===== src/Multitask/Exit.antt =====
-- The end of a task: `task_exit` makes it a zombie, the timer turns away from it for good, and
-- `reap_zombies` takes it out of the ring.
use kernel_c.Prelude.{
  ℕ, ◌+◌, ◌<◌, ◌≡◌, ◌≢◌, inl, inr, refl, sym, ap, ◌∙◌, subst, List, [], ◌∷◌, ◌++◌, append_assoc,
  arith, Apart, Apart-append, true, false, some, length, Bool-cases, ==_ne,
}
use kernel_c.Heap.{null}
use kernel_c.Multitask.{
  task_zombie, Task, TaskStore, Kernel, set_task, runnable, schedule_from_isr, switch_to,
}
use kernel_c.Multitask.Zombies.{cli, add_to_zombie_list, reap_zombies, task_exit}
use kernel_c.Multitask.Ring.{IsRing, IsRing-same, set_task_self, set_task_kept}
use kernel_c.Multitask.Turns.{next_up, saved, saved-runnable, turned_to, schedule_from_isr_lem}
use kernel_c.Multitask.Members.{Members}
use kernel_c.Multitask.Reap.{all_out, one_out, reap_zombies_lem}
use kernel_c.Multitask.Flag.{reap_zombies-none}

next_up-runs :
    (m : TaskStore) (ts : List ℕ) → next_up m ts ≢ null → runnable (m (next_up m ts)).state ≡ true
unfolding next_up
next_up-runs m [] ne = absurd (ne refl)
next_up-runs m (t ∷ ts) ne = elim (Bool-cases (runnable (m t).state)) [
  | inl can ↦ rw can can
  | inr not_t ↦ rw not_t (next_up-runs m ts (rw not_t at ne))
]

next_up-present :
    (m : TaskStore) (ys : List ℕ) (t : ℕ) (zs : List ℕ)
    → Apart null (ys ++ t ∷ zs)
    → runnable (m t).state ≡ true
    → next_up m (ys ++ t ∷ zs) ≢ null
unfolding next_up
next_up-present m [] t zs present can = rw can (λ e. present.0 (sym e))
next_up-present m (y ∷ ys) t zs present can = elim (Bool-cases (runnable (m y).state)) [
  | inl first ↦ rw first (λ e. present.0 (sym e))
  | inr skip ↦ rw skip (next_up-present m ys t zs present.1 can)
]

-- If some task of the ring besides the running one can run, a timer interrupt turns to a task that can
-- run: whatever task is blocked or a zombie, the running one included, is not the running task then.
pub turns_away :
    (fuel : ℕ) (k : Kernel) (ys : List ℕ) (t : ℕ) (zs : List ℕ) (regs : ℕ)
    → IsRing k.tasks k.current (ys ++ t ∷ zs)
    → k.task_ring ≢ null
    → runnable (k.tasks t).state ≡ true
    → length (ys ++ t ∷ zs) < fuel
    → (out : ℕ) × (k' : Kernel) × (schedule_from_isr fuel k regs ≡ some (out, k'))
      × ((q : ℕ) → runnable (k.tasks q).state ≡ false → k'.current ≢ q)
unfolding switch_to
turns_away fuel k ys t zs regs ring some_ring can room =
    elim (schedule_from_isr_lem fuel k (ys ++ t ∷ zs) regs ring some_ring room) [
      | inl idle ↦ absurd (present idle.0)
      | inr went ↦ (
        (saved k regs chosen).regs,
        turned_to k regs chosen,
        went.1,
        λ q stopped e.
            away q stopped
              (sym (saved-runnable k regs chosen) ∙ next_up-runs (saved k regs) _ went.0) e,
      )
    ]
  where
    chosen : ℕ
    chosen = next_up (saved k regs) ((ys ++ t ∷ zs) ++ k.current ∷ [])

    whole : Apart null (ys ++ t ∷ (zs ++ k.current ∷ []))
    whole = rw (append_assoc ys (t ∷ zs) (k.current ∷ [])) at (
        (Apart-append null (ys ++ t ∷ zs) (k.current ∷ [])).1
          (ring.present.1, (ring.present.0, tt)))

    present : next_up (saved k regs) ((ys ++ t ∷ zs) ++ k.current ∷ []) ≢ null
    present = rw (append_assoc ys (t ∷ zs) (k.current ∷ [])) (
        next_up-present (saved k regs) ys t (zs ++ k.current ∷ []) whole
          (saved-runnable k regs t ∙ can))

    away :
        (q : ℕ)
        → runnable (k.tasks q).state ≡ false
        → runnable (k.tasks chosen).state ≡ true
        → chosen ≢ q
    away q stopped runs e =
        let both : true ≡ false = sym runs ∙ ap (λ p. runnable (k.tasks p).state) e ∙ stopped in cc

module _ (k : Kernel) (code : ℕ) where
  stopped : Task
  stopped = record (k.tasks k.current) { exit_code = code; state = task_zombie }

  -- the state that `become_zombie` leaves
  exited : Kernel
  exited = record k {
    tasks =
        set_task (set_task k.tasks k.current stopped) k.current
          (record (set_task k.tasks k.current stopped k.current) { znext = null });
    zombie_list = k.current;
    interrupts = true;
  }

  exited_task : exited.tasks k.current ≡ record stopped { znext = null }
  unfolding exited
  exited_task =
      set_task_self (set_task k.tasks k.current stopped) k.current
        (record (set_task k.tasks k.current stopped k.current) { znext = null })
      ∙ ap (λ (x : Task). record x { znext = null }) (set_task_self k.tasks k.current stopped)

  exited-next : (q : ℕ) → (exited.tasks q).next ≡ (k.tasks q).next
  unfolding exited stopped
  exited-next q =
      set_task_kept (λ (x : Task). x.next) (set_task k.tasks k.current stopped) k.current
        (record (set_task k.tasks k.current stopped k.current) { znext = null }) q refl
      ∙ set_task_kept (λ (x : Task). x.next) k.tasks k.current stopped q refl

  exited-Members : (ts : List ℕ) → Members k ts → Members exited ts
  unfolding exited
  exited-Members ts is = record {
    others = is.others;
    order = is.order;
    ring = IsRing-same k.tasks exited.tasks k.task_ring is.others exited-next is.ring;
  }

  exited-ran :
      (fuel : ℕ)
      → 0 < fuel
      → k.current ≢ null
      → k.current ≢ k.init_task
      → k.zombie_list ≡ null
      → task_exit fuel k code ≡ some exited
  unfolding task_exit exited stopped add_to_zombie_list
  exited-ran fuel room some_task other none_left =
      rw
        (
          reap_zombies-none fuel (cli k) room none_left,
          ==_ne k.current 0 some_task,
          ==_ne k.current k.init_task other,
        )
        refl

-- `task_exit` of the running task, which is not the first task, with no zombies waiting: it returns, the
-- task is a zombie with the exit code and alone on the zombie list, and still in the ring, which is
-- as before. The next `reap_zombies` takes it out of the ring and leaves the others in their order.
pub task_exit_lem :
    (fuel : ℕ) (k : Kernel) (code : ℕ) (bs cs : List ℕ)
    → Members k (bs ++ k.current ∷ cs)
    → 0 < length bs + length cs
    → k.current ≢ k.init_task
    → k.zombie_list ≡ null
    → length (bs ++ k.current ∷ cs) < fuel
    → (k' : Kernel) × (task_exit fuel k code ≡ some k')
      × Members k' (bs ++ k.current ∷ cs)
      × (k'.zombie_list ≡ k.current)
      × ((k'.tasks k.current).exit_code ≡ code)
      × ((k'.tasks k.current).state ≡ task_zombie)
      × ((k'' : Kernel) × (reap_zombies fuel k' ≡ some k'')
          × Members k'' (bs ++ cs)
          × (k''.zombie_list ≡ null))
unfolding exited stopped
task_exit_lem fuel k code bs cs is several other none_left room =
    let (k'', ran, members, none_now, flag, same) =
      reap_zombies_lem fuel (exited k code) (bs ++ k.current ∷ cs) (k.current ∷ []) (bs ++ cs)
        (exited-Members k code (bs ++ k.current ∷ cs) is)
        (refl, some_task, ap (λ (x : Task). x.znext) (exited_task k code))
        (one_out bs k.current cs refl several all_out) room in
    (
      exited k code,
      exited-ran k code fuel (omega arith) some_task other none_left,
      exited-Members k code (bs ++ k.current ∷ cs) is,
      refl,
      ap (λ (x : Task). x.exit_code) (exited_task k code),
      ap (λ (x : Task). x.state) (exited_task k code),
      (k'', ran, members, none_now),
    )
  where
    whole : Apart null (bs ++ k.current ∷ cs)
    whole = subst (Apart null) (sym is.order) (
        (Apart-append null is.others (k.task_ring ∷ [])).1
          (is.ring.present.1, (is.ring.present.0, tt)))

    some_task : k.current ≢ null
    some_task e = ((Apart-append null bs (k.current ∷ cs)).0 whole).1.0 (sym e)
