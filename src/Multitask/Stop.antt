-- ===== src/Multitask/Stop.antt =====
-- `task_stop` on every branch.
use kernel_c.Prelude.{
  ℕ, zero, suc, ◌+◌, ◌<◌, ◌≡◌, ◌≢◌, refl, ap, ◌∙◌, subst, List, [], ◌∷◌, ◌++◌, arith, true, some,
  ◌>>=◌, length, length-append, Bool-cases, inl, inr, ==_ne, ==_self, ℤ, pos, negsuc, ℕ_discrete,
}
use kernel_c.Heap.{null}
use kernel_c.Multitask.{task_zombie, Task, TaskStore, Kernel, set_task}
use kernel_c.Multitask.Zombies.{
  cli, sti, add_to_zombie_list, unlink_from_ring, free_task_resources, is_pid, Stopped, returned,
  halted, stop_current, stop_other, stop_found, stop_pid, task_stop,
}
use kernel_c.Multitask.Ring.{IsRing-same, set_task_kept}
use kernel_c.Multitask.Members.{Members}
use kernel_c.Multitask.Unlink.{cut, Unlinks, unlink_from_ring-Members}
use kernel_c.Multitask.Reap.{
  Leaves, all_out, one_out, Keeps, free_task_resources-Keeps, Members-kept,
}
use kernel_c.Multitask.Listing.{with_pid, find_pid_lem}
use kernel_c.Multitask.Flag.{reap_zombies-none}

-- How `task_stop` ends: for pid 0, for a pid that no task of the ring has, for the first task with that
-- pid, and for the running task, which never returns.
pub data Stops (k : Kernel) (ts : List ℕ) : ℤ → Stopped → Type 0 where
  of_first : Stops k ts (pos zero) (returned (negsuc 0) k)
  not_there :
      (pid : ℤ) (k' : Kernel)
      → with_pid k.tasks ts pid ≡ null
      → Members k' ts
      → k'.interrupts ≡ true
      → Stops k ts pid (returned (negsuc 0) k')
  taken_out :
      (pid : ℤ) (k' : Kernel) (rest : List ℕ)
      → with_pid k.tasks ts pid ≢ k.current
      → Leaves ts (with_pid k.tasks ts pid ∷ []) rest
      → Members k' rest
      → k'.interrupts ≡ true
      → Stops k ts pid (returned (pos 0) k')
  itself :
      (pid : ℤ) (k' : Kernel) (rest : List ℕ)
      → with_pid k.tasks ts pid ≡ k.current
      → Leaves ts (k.current ∷ []) rest
      → Members k' rest
      → k'.interrupts ≡ true
      → k'.zombie_list ≡ k.current
      → Stops k ts pid (halted k')

-- where a task that was found stands
record Place (ts : List ℕ) (t : ℕ) : Type 0 where
  before : List ℕ
  behind : List ℕ
  whole : ts ≡ before ++ t ∷ behind

with_pid-Place :
    (m : TaskStore) (ts : List ℕ) (pid : ℤ)
    → with_pid m ts pid ≢ null
    → Place ts (with_pid m ts pid)
unfolding with_pid
with_pid-Place m [] pid ne = absurd (ne refl)
with_pid-Place m (t ∷ ts) pid ne = elim (Bool-cases (is_pid (m t) pid)) [
  | inl here ↦ rw here (record { before = []; behind = ts; whole = refl })
  | inr skip ↦ rw skip (later (with_pid-Place m ts pid (rw skip at ne)))
]
  where
    later : {u : ℕ} → Place ts u → Place (t ∷ ts) u
    later p = record { before = t ∷ p.before; behind = p.behind; whole = ap (◌∷◌ t) p.whole }

-- the state behind the first `reap_zombies_internal`, with no zombies waiting
abbrev calm : Kernel → Kernel
calm k = record k { zombie_list = null; interrupts = true }

calm-Members : (k : Kernel) (ts : List ℕ) → Members k ts → Members (calm k) ts
calm-Members k ts is = record { others = is.others; order = is.order; ring = is.ring }

module _ (fuel : ℕ) (k : Kernel) (t : ℕ) (bs cs : List ℕ) (is : Members k (bs ++ t ∷ cs))
    (several : 0 < length bs + length cs) (room : length bs + 1 < fuel) where
  stop_other_lem :
      (k' : Kernel) × (stop_other fuel (calm k) t ≡ some (returned (pos 0) k'))
      × Members k' (bs ++ cs)
      × (k'.interrupts ≡ true)
  unfolding stop_other
  stop_other_lem =
      let u : Unlinks fuel (calm k) t (bs ++ cs) =
        unlink_from_ring-Members fuel (calm k) bs t cs (calm-Members k (bs ++ t ∷ cs) is) several
          room in
      let freed : Kernel = free_task_resources (sti (cut (calm k) u.prev t)) t in
      let keeps : Keeps (sti (cut (calm k) u.prev t)) freed =
        free_task_resources-Keeps (sti (cut (calm k) u.prev t)) t in
      (
        calm freed,
        rw (u.ran, reap_zombies-none fuel freed (omega (arith, room)) keeps.zombies_kept) refl,
        calm-Members freed (bs ++ cs) (
            Members-kept (sti (cut (calm k) u.prev t)) freed (bs ++ cs) keeps (record {
              others = u.members.others;
              order = u.members.order;
              ring = u.members.ring;
            })),
        refl,
      )

module _ (fuel : ℕ) (k : Kernel) (bs cs : List ℕ) (is : Members k (bs ++ k.current ∷ cs))
    (several : 0 < length bs + length cs) (room : length bs + 1 < fuel)
    (some_task : k.current ≢ null) where
  marked : Kernel
  marked = record (calm k) {
    tasks = set_task k.tasks k.current (record (k.tasks k.current) { state = task_zombie });
  }

  listed : Kernel
  listed = record marked {
    tasks = set_task marked.tasks k.current (record (marked.tasks k.current) { znext = null });
    zombie_list = k.current;
  }

  listed-next : (q : ℕ) → (listed.tasks q).next ≡ (k.tasks q).next
  unfolding listed marked
  listed-next q =
      set_task_kept (λ (x : Task). x.next) marked.tasks k.current
        (record (marked.tasks k.current) { znext = null }) q refl
      ∙ set_task_kept (λ (x : Task). x.next) k.tasks k.current
          (record (k.tasks k.current) { state = task_zombie }) q refl

  listed-Members : Members listed (bs ++ k.current ∷ cs)
  unfolding listed marked
  listed-Members = record {
    others = is.others;
    order = is.order;
    ring = IsRing-same k.tasks listed.tasks k.task_ring is.others listed-next is.ring;
  }

  marked-listed : add_to_zombie_list marked k.current ≡ listed
  unfolding add_to_zombie_list listed marked
  marked-listed = rw (==_ne k.current 0 some_task) refl

  stop_current_lem :
      (k' : Kernel) × (stop_current fuel (calm k) ≡ some (halted k'))
      × Members k' (bs ++ cs)
      × (k'.interrupts ≡ true)
      × (k'.zombie_list ≡ k.current)
  unfolding stop_current marked listed
  stop_current_lem =
      let u : Unlinks fuel listed k.current (bs ++ cs) =
        unlink_from_ring-Members fuel listed bs k.current cs listed-Members several room in
      (
        sti (cut listed u.prev k.current),
        ap (λ s. unlink_from_ring fuel s k.current >>= λ (r, s'). some (halted (sti s')))
              marked-listed
            ∙ rw u.ran refl,
        record { others = u.members.others; order = u.members.order; ring = u.members.ring },
        refl,
        refl,
      )

stop_found-current :
    (fuel : ℕ) (k : Kernel) (t : ℕ)
    → t ≢ null
    → t ≡ k.current
    → stop_found fuel (calm k) t ≡ stop_current fuel (calm k)
unfolding stop_found
stop_found-current fuel k t some_t e = rw (==_ne t 0 some_t, e, ==_self k.current) refl

stop_found-other :
    (fuel : ℕ) (k : Kernel) (t : ℕ)
    → t ≢ null
    → t ≢ k.current
    → stop_found fuel (calm k) t ≡ stop_other fuel (calm k) t
unfolding stop_found
stop_found-other fuel k t some_t ne = rw (==_ne t 0 some_t, ==_ne t k.current ne) refl

stop_found-null :
    (fuel : ℕ) (k : Kernel) → stop_found fuel (calm k) null ≡ some (returned (negsuc 0) (calm k))
unfolding stop_found
stop_found-null fuel k = refl

-- how the search goes on, by the task that was found
stop_found-Stops :
    (fuel : ℕ) (k : Kernel) (ts : List ℕ) (pid : ℤ)
    → Members k ts
    → 1 < length ts
    → length ts < fuel
    → (r : Stopped) × (stop_found fuel (calm k) (with_pid k.tasks ts pid) ≡ some r)
      × Stops k ts pid r
stop_found-Stops fuel k ts pid is several room = elim (ℕ_discrete (with_pid k.tasks ts pid) null) [
  | yes e ↦ (
    returned (negsuc 0) (calm k),
    ap (stop_found fuel (calm k)) e ∙ stop_found-null fuel k,
    not_there pid (calm k) e (calm-Members k ts is) refl,
  )
  | no ne ↦ found ne (with_pid-Place k.tasks ts pid ne)
]
  where
    t : ℕ
    t = with_pid k.tasks ts pid

    several_at : (p : Place ts t) → 0 < length p.before + length p.behind
    several_at p = omega (arith, several, ap length p.whole, length-append p.before (t ∷ p.behind))

    room_at : (p : Place ts t) → length p.before + 1 < fuel
    room_at p =
        omega (arith, room, several, ap length p.whole, length-append p.before (t ∷ p.behind))

    found :
        t ≢ null
        → Place ts t
        → (r : Stopped) × (stop_found fuel (calm k) t ≡ some r) × Stops k ts pid r
    found some_t p = elim (ℕ_discrete t k.current) [
      | yes e ↦
          let here : ts ≡ p.before ++ k.current ∷ p.behind =
            p.whole ∙ ap (λ u. p.before ++ u ∷ p.behind) e in
          let (k', ran, members, on, zombie) =
            stop_current_lem fuel k p.before p.behind (subst (Members k) here is) (several_at p)
              (room_at p) (λ z. some_t (e ∙ z)) in
          (
            halted k',
            stop_found-current fuel k t some_t e ∙ ran,
            itself pid k' (p.before ++ p.behind) e
                (one_out p.before k.current p.behind here (several_at p) all_out) members on zombie,
          )
      | no ne ↦
          let (k', ran, members, on) =
            stop_other_lem fuel k t p.before p.behind (subst (Members k) p.whole is) (several_at p)
              (room_at p) in
          (
            returned (pos 0) k',
            stop_found-other fuel k t some_t ne ∙ ran,
            taken_out pid k' (p.before ++ p.behind) ne
                (one_out p.before t p.behind p.whole (several_at p) all_out) members on,
          )
    ]

stop_pid-found :
    (fuel : ℕ) (k : Kernel) (ts : List ℕ) (pid : ℤ)
    → Members k ts
    → k.zombie_list ≡ null
    → length ts < fuel
    → stop_pid fuel k pid ≡ stop_found fuel (calm k) (with_pid k.tasks ts pid)
unfolding stop_pid
stop_pid-found fuel k ts pid is none_left room =
    rw
      (
        reap_zombies-none fuel (cli k) (omega (arith, room)) none_left,
        find_pid_lem fuel (calm k) ts pid (calm-Members k ts is) (omega (arith, room)),
      )
      refl

-- With no zombies waiting and at least two tasks in the ring, `task_stop` of every pid ends, or halts in
-- the stopped task itself. Pid 0 and a pid that no task has give -1 and leave the ring as it is; else
-- the first task with that pid is out of the ring, the others stay in order and the result is 0. The
-- running task comes on the zombie list instead, and its call never returns.
pub task_stop-Stops :
    (fuel : ℕ) (k : Kernel) (ts : List ℕ) (pid : ℤ)
    → Members k ts
    → 1 < length ts
    → k.zombie_list ≡ null
    → length ts < fuel
    → (r : Stopped) × (task_stop fuel k pid ≡ some r) × Stops k ts pid r
unfolding task_stop
task_stop-Stops fuel k ts (pos zero) is several none_left room =
    (returned (negsuc 0) k, refl, of_first)
task_stop-Stops fuel k ts (pos (suc n)) is several none_left room =
    let (r, ran, stops) = stop_found-Stops fuel k ts (pos (suc n)) is several room in
    (r, stop_pid-found fuel k ts (pos (suc n)) is none_left room ∙ ran, stops)
task_stop-Stops fuel k ts (negsuc n) is several none_left room =
    let (r, ran, stops) = stop_found-Stops fuel k ts (negsuc n) is several room in
    (r, stop_pid-found fuel k ts (negsuc n) is none_left room ∙ ran, stops)
