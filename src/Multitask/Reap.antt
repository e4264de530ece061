-- ===== src/Multitask/Reap.antt =====
-- `reap_zombies` takes every zombie out of the ring and gives its memory back.
use kernel_c.Prelude.{
  ℕ, zero, suc, ◌+◌, ◌≤◌, ◌<◌, ◌≡◌, ◌≢◌, refl, sym, ap, ◌∙◌, List, [], ◌∷◌, ◌++◌, arith, true,
  Bool-cases, inl, inr, some, length, length-append, if◌then◌else◌, ◌==◌, ==_ne, ◌||◌, subst,
}
use kernel_c.Heap.{Heap, null}
use kernel_c.Kmalloc.{free}
use kernel_c.Multitask.{Task, TaskStore, Kernel}
use kernel_c.Multitask.Zombies.{
  free_user_mem, free_task_resources, reap_loop, reap_zombies, cli, sti,
}
use kernel_c.Multitask.Ring.{IsRing, IsRing-same, set_task_kept}
use kernel_c.Multitask.Members.{Members}
use kernel_c.Multitask.Unlink.{cut, Unlinks, unlink_from_ring-Members}

-- `znext` leads from `z` through the zombies of the list to NULL.
abbrev pub Zombies : TaskStore → ℕ → List ℕ → Type 0
Zombies m z [] = z ≡ null
Zombies m z (y ∷ zs) = (z ≡ y) × (y ≢ null) × Zombies m (m y).znext zs

-- Taking the zombies out of a list of tasks, one after the other, leaves another list.
pub data Leaves : List ℕ → List ℕ → List ℕ → Type 0 where
  all_out : {ts : List ℕ} → Leaves ts [] ts
  one_out :
      {ts zs rest : List ℕ} (bs : List ℕ) (z : ℕ) (cs : List ℕ)
      → ts ≡ bs ++ z ∷ cs
      → 0 < length bs + length cs
      → Leaves (bs ++ cs) zs rest
      → Leaves ts (z ∷ zs) rest

Zombies-same :
    (m m' : TaskStore) (z : ℕ) (zs : List ℕ)
    → ((q : ℕ) → (m' q).znext ≡ (m q).znext)
    → Zombies m z zs
    → Zombies m' z zs
Zombies-same m m' z [] same p = p
Zombies-same m m' z (y ∷ zs) same p =
    (p.0, p.1, Zombies-same m m' (m' y).znext zs same (rw (same y) p.2))

-- What giving the memory of a task back leaves as it is.
pub record Keeps (k k' : Kernel) : Type 0 where
  pub next_kept : (q : ℕ) → (k'.tasks q).next ≡ (k.tasks q).next
  pub znext_kept : (q : ℕ) → (k'.tasks q).znext ≡ (k.tasks q).znext
  pub ring_kept : k'.task_ring ≡ k.task_ring
  pub zombies_kept : k'.zombie_list ≡ k.zombie_list
  pub current_kept : k'.current ≡ k.current
  pub flag_kept : k'.interrupts ≡ k.interrupts

Keeps-self : (k : Kernel) → Keeps k k
Keeps-self k = record {
  next_kept = λ q. refl;
  znext_kept = λ q. refl;
  ring_kept = refl;
  zombies_kept = refl;
  current_kept = refl;
  flag_kept = refl;
}

free_user_mem-Keeps : (k : Kernel) (t : ℕ) → Keeps k (free_user_mem k t)
unfolding free_user_mem
free_user_mem-Keeps k t = elim (Bool-cases ((k.tasks t).user_mem == null)) [
  | inl nothing ↦ simp nothing (Keeps-self k)
  | inr some_mem ↦ simp some_mem (record {
    next_kept = λ q.
        set_task_kept (λ (x : Task). x.next) k.tasks t
          (record (k.tasks t) { user_mem = null; user_mem_size = 0 }) q refl;
    znext_kept = λ q.
        set_task_kept (λ (x : Task). x.znext) k.tasks t
          (record (k.tasks t) { user_mem = null; user_mem_size = 0 }) q refl;
    ring_kept = refl;
    zombies_kept = refl;
    current_kept = refl;
    flag_kept = refl;
  })
]

-- a change of the kernel's heap alone, behind what keeps
Keeps-heap : (k k' : Kernel) (h : Heap) → Keeps k k' → Keeps k (record k' { heap = h })
Keeps-heap k k' h keeps = record {
  next_kept = keeps.next_kept;
  znext_kept = keeps.znext_kept;
  ring_kept = keeps.ring_kept;
  zombies_kept = keeps.zombies_kept;
  current_kept = keeps.current_kept;
  flag_kept = keeps.flag_kept;
}

Keeps-then : (k k' k'' : Kernel) → Keeps k k' → Keeps k' k'' → Keeps k k''
Keeps-then k k' k'' p q = record {
  next_kept = λ r. q.next_kept r ∙ p.next_kept r;
  znext_kept = λ r. q.znext_kept r ∙ p.znext_kept r;
  ring_kept = q.ring_kept ∙ p.ring_kept;
  zombies_kept = q.zombies_kept ∙ p.zombies_kept;
  current_kept = q.current_kept ∙ p.current_kept;
  flag_kept = q.flag_kept ∙ p.flag_kept;
}

free_stack-Keeps :
    (k : Kernel) (stack : ℕ) (h : Heap)
    → Keeps k (if stack == null then k else record k { heap = h })
free_stack-Keeps k stack h = elim (Bool-cases (stack == null)) [
  | inl nothing ↦ rw nothing (Keeps-self k)
  | inr some_stack ↦ rw some_stack (Keeps-heap k k h (Keeps-self k))
]

pub free_task_resources-Keeps : (k : Kernel) (t : ℕ) → Keeps k (free_task_resources k t)
unfolding free_task_resources
free_task_resources-Keeps k t =
    let k1 : Kernel =
      if (k.tasks t).kstack == null
      then k
      else record k { heap = free k.heap (k.tasks t).kstack } in
    elim (Bool-cases (t == null || t == k.init_task)) [
      | inl kept ↦ rw kept (Keeps-self k)
      | inr gone ↦ rw gone (
          Keeps-heap k (free_user_mem k1 t) _ (
            Keeps-then k k1 (free_user_mem k1 t)
              (free_stack-Keeps k (k.tasks t).kstack (free k.heap (k.tasks t).kstack))
              (free_user_mem-Keeps k1 t)))
    ]

-- the ring and the zombies behind one round of the loop
pub Members-kept : (k k' : Kernel) (ts : List ℕ) → Keeps k k' → Members k ts → Members k' ts
Members-kept k k' ts keeps is = record {
  others = is.others;
  order = is.order ∙ ap (λ r. is.others ++ r ∷ []) (sym keeps.ring_kept);
  ring =
      subst (λ r. IsRing k'.tasks r is.others) (sym keeps.ring_kept)
        (IsRing-same k.tasks k'.tasks k.task_ring is.others keeps.next_kept is.ring);
}

after_round : Kernel → ℕ → ℕ → Kernel
after_round k z p = free_task_resources (sti (cut (cli k) p z)) z

round-znext : (k : Kernel) (z p q : ℕ) → ((after_round k z p).tasks q).znext ≡ (k.tasks q).znext
unfolding after_round
round-znext k z p q =
    (free_task_resources-Keeps (sti (cut (cli k) p z)) z).znext_kept q
    ∙ set_task_kept (λ (x : Task). x.znext) k.tasks p
        (record (k.tasks p) { next = (k.tasks z).next }) q refl

-- what the loop leaves
pub record Reaped (n fuel : ℕ) (k : Kernel) (z : ℕ) (rest : List ℕ) : Type 0 where
  pub after : Kernel
  pub ran : reap_loop n fuel k z ≡ some after
  pub members : Members after rest
  pub no_zombies : after.zombie_list ≡ k.zombie_list
  pub same_current : after.current ≡ k.current
  pub flag : after.interrupts ≡ true

round-flag : (k : Kernel) (z p : ℕ) → (after_round k z p).interrupts ≡ true
unfolding after_round
round-flag k z p = (free_task_resources-Keeps (sti (cut (cli k) p z)) z).flag_kept

round-Members :
    (k : Kernel) (z p : ℕ) (ts : List ℕ)
    → Members (cut (cli k) p z) ts
    → Members (after_round k z p) ts
unfolding after_round
round-Members k z p ts is =
    Members-kept (sti (cut (cli k) p z)) (free_task_resources (sti (cut (cli k) p z)) z) ts
      (free_task_resources-Keeps (sti (cut (cli k) p z)) z)
      (record { others = is.others; order = is.order; ring = is.ring })

round_Reaped :
    (n fuel : ℕ) (k : Kernel) (z y : ℕ) (ts rest : List ℕ) (u : Unlinks fuel (cli k) y ts)
    → z ≡ y
    → y ≢ null
    → Reaped n fuel (after_round k y u.prev) (k.tasks y).znext rest
    → Reaped (suc n) fuel k z rest
unfolding reap_loop after_round
round_Reaped n fuel k z y ts rest u e some_y r = record {
  after = r.after;
  ran = rw (e, ==_ne y 0 some_y, u.ran) r.ran;
  members = r.members;
  no_zombies =
      r.no_zombies ∙ (free_task_resources-Keeps (sti (cut (cli k) u.prev y)) y).zombies_kept;
  same_current =
      r.same_current ∙ (free_task_resources-Keeps (sti (cut (cli k) u.prev y)) y).current_kept;
  flag = r.flag;
}

Leaves-length : {ts zs rest : List ℕ} → Leaves ts zs rest → length zs ≤ length ts
Leaves-length all_out = omega arith
Leaves-length (one_out bs z cs parts several leaves) =
    omega
      (arith, Leaves-length leaves, ap length parts, length-append bs (z ∷ cs), length-append bs cs)

reap_loop_lem :
    (n fuel : ℕ) (k : Kernel) (z : ℕ) (ts zs rest : List ℕ)
    → length zs < n
    → length ts < fuel
    → k.interrupts ≡ true
    → Zombies k.tasks z zs
    → Members k ts
    → Leaves ts zs rest
    → Reaped n fuel k z rest
unfolding reap_loop
reap_loop_lem zero fuel k z ts zs rest enough room on links is leaves = absurd (omega arith)
reap_loop_lem (suc n) fuel k z ts [] rest enough room on links is all_out = record {
  after = k;
  ran = rw links refl;
  members = is;
  no_zombies = refl;
  same_current = refl;
  flag = on;
}
reap_loop_lem (suc n) fuel k z ts (y ∷ zs) rest enough room on links is
      (one_out bs _ cs parts several leaves) =
    let count : length ts ≡ length bs + suc (length cs) =
      ap length parts ∙ length-append bs (y ∷ cs) in
    let u : Unlinks fuel (cli k) y (bs ++ cs) =
      unlink_from_ring-Members fuel (cli k) bs y cs
        (subst (Members (cli k)) parts
          (record { others = is.others; order = is.order; ring = is.ring }))
        several (omega (arith, room, count)) in
    round_Reaped n fuel k z y (bs ++ cs) rest u links.0 links.1 (
      reap_loop_lem n fuel (after_round k y u.prev) (k.tasks y).znext (bs ++ cs) zs rest
        (omega (arith, enough)) (omega (arith, room, count, length-append bs cs))
        (round-flag k y u.prev)
        (Zombies-same k.tasks (after_round k y u.prev).tasks (k.tasks y).znext zs
          (round-znext k y u.prev) links.2)
        (round-Members k y u.prev (bs ++ cs) u.members) leaves)

-- `reap_zombies` takes every task of the zombie list out of the ring, in the order of the list, and
-- returns with an empty zombie list and the interrupts on. The other tasks stay in the ring in
-- their order. Fuel for one round more than there are tasks is enough.
pub reap_zombies_lem :
    (fuel : ℕ) (k : Kernel) (ts zs rest : List ℕ)
    → Members k ts
    → Zombies k.tasks k.zombie_list zs
    → Leaves ts zs rest
    → length ts < fuel
    → (k' : Kernel) × (reap_zombies fuel k ≡ some k')
      × Members k' rest
      × (k'.zombie_list ≡ null)
      × (k'.interrupts ≡ true)
      × (k'.current ≡ k.current)
unfolding reap_zombies
reap_zombies_lem fuel k ts zs rest is links leaves room =
    let start : Kernel = record k { zombie_list = null; interrupts = true } in
    let r : Reaped fuel fuel start k.zombie_list rest =
      reap_loop_lem fuel fuel start k.zombie_list ts zs rest
        (omega (arith, room, Leaves-length leaves)) room refl links
        (record { others = is.others; order = is.order; ring = is.ring }) leaves in
    (r.after, r.ran, r.members, r.no_zombies, r.flag, r.same_current)
