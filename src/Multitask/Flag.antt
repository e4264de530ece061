-- ===== src/Multitask/Flag.antt =====
-- `task_is_alive`: its answer, and what it leaves the interrupt flag at.
use kernel_c.Prelude.{
  ℕ, zero, suc, ◌≤◌, ◌<◌, ◌≡◌, refl, ap, List, [], ◌∷◌, arith, Bool, true, false, not, some, ℤ, pos,
  negsuc, length, length-append, if◌then◌else◌, ◌==◌,
}
use kernel_c.Heap.{null}
use kernel_c.Multitask.{TaskStore, Kernel}
use kernel_c.Multitask.Zombies.{is_zombie, reap_loop, reap_zombies, alive_pid, task_is_alive, cli}
use kernel_c.Multitask.Members.{Members}
use kernel_c.Multitask.Listing.{with_pid, find_pid_lem}

-- the answer in terms of the list of tasks
abbrev pub is_alive : TaskStore → List ℕ → ℤ → Bool
is_alive m ts (pos zero) = true
is_alive m ts (pos (suc n)) =
    let t = with_pid m ts (pos (suc n)) in if t == null then false else not (is_zombie (m t).state)
is_alive m ts (negsuc n) = false

abbrev pub is_positive : ℤ → Bool
is_positive (pos zero) = false
is_positive (pos (suc n)) = true
is_positive (negsuc n) = false

Members-length : (k : Kernel) (ts : List ℕ) → Members k ts → 0 < length ts
Members-length k ts is =
    omega (arith, ap length is.order, length-append is.others (k.task_ring ∷ []))

pub reap_zombies-none :
    (fuel : ℕ) (k : Kernel)
    → 0 < fuel
    → k.zombie_list ≡ null
    → reap_zombies fuel k ≡ some (record k { zombie_list = null; interrupts = true })
unfolding reap_zombies reap_loop
reap_zombies-none zero k room none_left = absurd (omega arith)
reap_zombies-none (suc fuel) k room none_left = simp none_left refl

alive_pid_lem :
    (fuel : ℕ) (k : Kernel) (ts : List ℕ) (n : ℕ)
    → Members k ts
    → k.zombie_list ≡ null
    → length ts ≤ fuel
    → alive_pid fuel k (pos (suc n))
      ≡ some (is_alive k.tasks ts (pos (suc n)), record k { zombie_list = null; interrupts = true })
unfolding alive_pid
alive_pid_lem fuel k ts n is none_left enough =
    rw
      (
        reap_zombies-none fuel (cli k) (omega (arith, Members-length k ts is)) none_left,
        find_pid_lem fuel (record k { zombie_list = null; interrupts = false }) ts (pos (suc n))
            (record { others = is.others; order = is.order; ring = is.ring }) enough,
      )
      refl

-- With no zombies waiting, `task_is_alive` returns. It says of pid 0 that it is alive, of a negative pid
-- that it is not, and of any other whether the first task of the ring with that pid is there and is
-- no zombie. It leaves the interrupts on for a positive pid, and off for pid 0 and for a negative pid.
pub task_is_alive_lem :
    (fuel : ℕ) (k : Kernel) (ts : List ℕ) (pid : ℤ)
    → Members k ts
    → k.zombie_list ≡ null
    → length ts ≤ fuel
    → (k' : Kernel) × (task_is_alive fuel k pid ≡ some (is_alive k.tasks ts pid, k'))
      × (k'.interrupts ≡ is_positive pid)
      × (k'.tasks ≡ k.tasks)
      × (k'.task_ring ≡ k.task_ring)
unfolding task_is_alive
task_is_alive_lem fuel k ts (pos zero) is none_left enough = (cli k, refl, refl, refl, refl)
task_is_alive_lem fuel k ts (negsuc n) is none_left enough = (cli k, refl, refl, refl, refl)
task_is_alive_lem fuel k ts (pos (suc n)) is none_left enough = (
  record k { zombie_list = null; interrupts = true },
  alive_pid_lem fuel k ts n is none_left enough,
  refl,
  refl,
  refl,
)
