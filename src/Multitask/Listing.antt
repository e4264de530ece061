-- ===== src/Multitask/Listing.antt =====
-- `task_list` and the search by pid, against the list of the ring's tasks.
use kernel_c.Prelude.{
  ℕ, zero, suc, ◌-◌, ◌≤◌, ◌<◌, ◌≡◌, ◌≢◌, inl, inr, refl, sym, ap, subst, List, [], ◌∷◌, ◌++◌, arith,
  Apart, Bool-cases, some, ℤ, length, if◌then◌else◌, ==_self, ==_ne,
}
use kernel_c.Heap.{null}
use kernel_c.Multitask.{TaskStore, Kernel}
use kernel_c.Multitask.Zombies.{
  TaskInfo, task_info, int_room, list_tasks_loop, task_list, sti, is_pid, find_pid_loop, find_pid,
}
use kernel_c.Multitask.Ring.{Links, IsRing, IsRing-turned}
use kernel_c.Multitask.Members.{Members}

-- what is told of the first `room` tasks
unfoldable pub infos_of : TaskStore → List ℕ → ℕ → List TaskInfo
infos_of m [] room = []
infos_of m (t ∷ ts) zero = []
infos_of m (t ∷ ts) (suc room) = task_info (m t) ∷ infos_of m ts room

-- the first task with the pid, or NULL
unfoldable pub with_pid : TaskStore → List ℕ → ℤ → ℕ
with_pid m [] pid = null
with_pid m (t ∷ ts) pid = if is_pid (m t) pid then t else with_pid m ts pid

list_tasks_loop_lem :
    (n : ℕ) (m : TaskStore) (first t : ℕ) (ts : List ℕ) (room : ℕ)
    → length ts < n
    → Links m t ts first
    → Apart first ts
    → list_tasks_loop n m first t room ≡ some (infos_of m (t ∷ ts) room)
unfolding list_tasks_loop infos_of
list_tasks_loop_lem zero m first t ts room enough links apart = absurd (omega arith)
list_tasks_loop_lem (suc n) m first t ts zero enough links apart = refl
list_tasks_loop_lem (suc n) m first t [] (suc room) enough links apart =
    rw (==_ne (suc room) 0 (λ e. omega (arith, e)), links, ==_self first) refl
list_tasks_loop_lem (suc n) m first t (u ∷ ts) (suc room) enough links apart =
    let left : suc room - 1 ≡ room = omega arith in
    rw
      (
        ==_ne (suc room) 0 (λ e. omega (arith, e)),
        links.0,
        ==_ne u first (λ e. apart.0 (sym e)),
        left,
        list_tasks_loop_lem n m first u ts room (omega arith) links.1 apart.1,
      )
      refl

find_pid_loop_lem :
    (n : ℕ) (m : TaskStore) (pid : ℤ) (first t : ℕ) (ts : List ℕ)
    → length ts < n
    → Links m t ts first
    → Apart first ts
    → find_pid_loop n m pid first t ≡ some (with_pid m (t ∷ ts) pid)
unfolding find_pid_loop with_pid
find_pid_loop_lem zero m pid first t ts enough links apart = absurd (omega arith)
find_pid_loop_lem (suc n) m pid first t [] enough links apart =
    elim (Bool-cases (is_pid (m t) pid)) [
      | inl hit ↦ rw hit refl
      | inr miss ↦ rw (miss, links, ==_self first) refl
    ]
find_pid_loop_lem (suc n) m pid first t (u ∷ ts) enough links apart =
    elim (Bool-cases (is_pid (m t) pid)) [
      | inl hit ↦ rw hit refl
      | inr miss ↦
          rw (miss, links.0, ==_ne u first (λ e. apart.0 (sym e)))
            (find_pid_loop_lem n m pid first u ts (omega arith) links.1 apart.1)
    ]

-- The walks start at the task behind `task_ring`: the list's first.
record Walk (k : Kernel) (ts : List ℕ) : Type 0 where
  first : ℕ
  rest : List ℕ
  whole : ts ≡ first ∷ rest
  start : (k.tasks k.task_ring).next ≡ first
  links : Links k.tasks first rest first
  apart : Apart first rest
  some_ring : k.task_ring ≢ null

IsRing-Walk :
    (k : Kernel) (xs : List ℕ) → IsRing k.tasks k.task_ring xs → Walk k (xs ++ k.task_ring ∷ [])
IsRing-Walk k [] ring = record {
  first = k.task_ring;
  rest = [];
  whole = refl;
  start = ring.links;
  links = ring.links;
  apart = tt;
  some_ring = λ e. ring.present.0 (sym e);
}
IsRing-Walk k (x ∷ xs) ring =
    let turned : IsRing k.tasks x (xs ++ k.task_ring ∷ []) =
      IsRing-turned k.tasks k.task_ring [] x xs ring in
    record {
      first = x;
      rest = xs ++ k.task_ring ∷ [];
      whole = refl;
      start = ring.links.0;
      links = turned.links;
      apart = turned.distinct.0;
      some_ring = λ e. ring.present.0 (sym e);
    }

Members-Walk : (k : Kernel) (ts : List ℕ) → Members k ts → Walk k ts
Members-Walk k ts is = subst (Walk k) (sym is.order) (IsRing-Walk k is.others is.ring)

-- `task_list` ends, reports pid and state of the tasks of the ring in their order, as many as fit, and
-- leaves the interrupts on.
pub task_list_lem :
    (fuel : ℕ) (k : Kernel) (ts : List ℕ) (max : ℕ)
    → Members k ts
    → length ts ≤ fuel
    → task_list fuel k max ≡ some (infos_of k.tasks ts (int_room max), sti k)
unfolding task_list
task_list_lem fuel k ts max is enough =
    let w : Walk k ts = Members-Walk k ts is in
    rw
      (
        ==_ne k.task_ring 0 w.some_ring,
        w.start,
        list_tasks_loop_lem fuel k.tasks w.first w.first w.rest (int_room max)
            (omega (arith, ap length w.whole)) w.links w.apart,
        w.whole,
      )
      refl

-- The search by pid ends at the first task of the list with that pid, or at NULL.
pub find_pid_lem :
    (fuel : ℕ) (k : Kernel) (ts : List ℕ) (pid : ℤ)
    → Members k ts
    → length ts ≤ fuel
    → find_pid fuel k pid ≡ some (with_pid k.tasks ts pid)
unfolding find_pid
find_pid_lem fuel k ts pid is enough =
    let w : Walk k ts = Members-Walk k ts is in
    rw
      (
        ==_ne k.task_ring 0 w.some_ring,
        w.start,
        find_pid_loop_lem fuel k.tasks pid w.first w.first w.rest (omega (arith, ap length w.whole))
            w.links w.apart,
        w.whole,
      )
      refl
