-- ===== src/Multitask/Unlink.antt =====
-- `unlink_from_ring` takes a task out of the ring, and leaves the others in order.
use kernel_c.Prelude.{
  ℕ, zero, suc, ◌+◌, ◌<◌, ◌≡◌, ◌≢◌, ◌⊎◌, inl, inr, refl, sym, ap, ◌∙◌, subst, List, [], ◌∷◌, ◌++◌,
  append_assoc, append-nil, arith, Apart, Apart-append, some, pos, length, if◌then◌else◌, ◌==◌,
  ==_self, ==_ne,
}
use kernel_c.Heap.{null}
use kernel_c.Multitask.{Task, TaskStore, Kernel}
use kernel_c.Multitask.Zombies.{set_next, unlink_loop, unlink_from_ring}
use kernel_c.Multitask.Ring.{
  Links, IsRing, Links-append, IsRing-turned, set_task-other, set_task_self,
}
use kernel_c.Multitask.Members.{Members, Links-moved}

-- the last task on the way from `a` through the list
last_of : ℕ → List ℕ → ℕ
last_of a [] = a
last_of a (x ∷ xs) = last_of x xs

last_of-append : (a : ℕ) (xs : List ℕ) (p : ℕ) → last_of a (xs ++ p ∷ []) ≡ p
unfolding last_of
last_of-append a [] p = refl
last_of-append a (x ∷ xs) p = last_of-append x xs p

-- what the round that finds `t` behind `prev` leaves
abbrev pub cut : Kernel → ℕ → ℕ → Kernel
cut k prev t = record k {
  tasks = set_next k.tasks prev (k.tasks t).next;
  task_ring = if k.task_ring == t then prev else k.task_ring;
}

unlink_loop_found :
    (n : ℕ) (k : Kernel) (t prev first : ℕ)
    → unlink_loop (suc n) k t prev t first ≡ some (pos 0, cut k prev t)
unfolding unlink_loop
unlink_loop_found n k t prev first = rw (==_self t) refl

unlink_loop_lem :
    (n : ℕ) (k : Kernel) (t prev x : ℕ) (xs : List ℕ) (first : ℕ)
    → length xs + 1 < n
    → Links k.tasks x xs t
    → Apart first (xs ++ t ∷ [])
    → Apart t (x ∷ xs)
    → unlink_loop n k t prev x first ≡ some (pos 0, cut k (last_of x xs) t)
unfolding unlink_loop last_of
unlink_loop_lem zero k t prev x xs first room links apart other = absurd (omega arith)
unlink_loop_lem (suc zero) k t prev x xs first room links apart other = absurd (omega arith)
unlink_loop_lem (suc (suc n)) k t prev x [] first room links apart other =
    rw (==_ne x t (λ e. other.0 (sym e)), links, ==_ne t first (λ e. apart.0 (sym e)))
      (unlink_loop_found n k t x first)
unlink_loop_lem (suc (suc n)) k t prev x (y ∷ xs) first room links apart other =
    rw (==_ne x t (λ e. other.0 (sym e)), links.0, ==_ne y first (λ e. apart.0 (sym e)))
      (unlink_loop_lem (suc n) k t x y xs first (omega arith) links.1 apart.1 other.1)

-- the ring without `t`, seen from the task `p` before it
removed :
    (m : TaskStore) (t p : ℕ) (xs : List ℕ)
    → IsRing m t (xs ++ p ∷ [])
    → IsRing (set_next m p (m t).next) p xs
removed m t p xs is = record {
  links =
      Links-moved m (set_next m p (m t).next) p p t p xs p
        (λ r ne _.
          ap (λ (x : Task). x.next)
            (set_task-other m p (record (m p) { next = (m t).next }) r (λ e. ne (sym e))))
        parts.distinct.0.1 parts.distinct.0.1
        (ap (λ (x : Task). x.next) (set_task_self m p (record (m p) { next = (m t).next })))
        ((Links-append m t xs p [] t).0 is.links).0;
  present = (parts.present.0, parts.present.1.1);
  distinct = (parts.distinct.0.1, parts.distinct.1.1);
}
  where
    parts : IsRing m p (t ∷ xs)
    parts = IsRing-turned m t xs p [] is

init_of : ℕ → List ℕ → List ℕ
init_of x [] = []
init_of x (y ∷ ys) = x ∷ init_of y ys

init_of-last_of : (x : ℕ) (xs : List ℕ) → x ∷ xs ≡ init_of x xs ++ last_of x xs ∷ []
unfolding init_of last_of
init_of-last_of x [] = refl
init_of-last_of x (y ∷ ys) = ap (◌∷◌ x) (init_of-last_of y ys)

-- the places of `t` in a list with the last element `z`
snoc_split :
    (xs : List ℕ) (z : ℕ) (bs : List ℕ) (t : ℕ) (cs : List ℕ)
    → xs ++ z ∷ [] ≡ bs ++ t ∷ cs
    → ((cs ≡ []) × (t ≡ z) × (xs ≡ bs))
      ⊎ ((ds : List ℕ) × (cs ≡ ds ++ z ∷ []) × (xs ≡ bs ++ t ∷ ds))
snoc_split [] z [] t cs e = inl (cc, cc, refl)
snoc_split [] z (b ∷ []) t cs e = absurd cc
snoc_split [] z (b ∷ b' ∷ bs) t cs e = absurd cc
snoc_split (x ∷ xs) z [] t cs e = inr (xs, cc, cc)
snoc_split (x ∷ xs) z (b ∷ bs) t cs e =
    let same : x ≡ b = cc in
    elim (snoc_split xs z bs t cs cc) [
      | inl (nothing, at, parts) ↦ inl (nothing, at, cc)
      | inr (ds, back, parts) ↦ inr (ds, back, cc)
    ]

-- the ring of `z` from its first task on, with `t` behind `x` and `xs`
unlink_behind :
    (fuel : ℕ) (k : Kernel) (t x : ℕ) (xs rest : List ℕ)
    → IsRing k.tasks k.task_ring (x ∷ xs ++ rest)
    → t ≢ null
    → Links k.tasks x xs t
    → Apart x (xs ++ t ∷ [])
    → Apart t (x ∷ xs)
    → k.task_ring ≢ x
    → length xs + 1 < fuel
    → unlink_from_ring fuel k t ≡ some (pos 0, cut k (last_of x xs) t)
unfolding unlink_from_ring
unlink_behind fuel k t x xs rest ring some_t links apart other ne room =
    rw
      (
        ==_ne k.task_ring 0 (λ e. ring.present.0 (sym e)),
        ==_ne t 0 some_t,
        ring.links.0,
        ==_ne x k.task_ring (λ e. ne (sym e)),
      )
      (unlink_loop_lem fuel k t k.task_ring x xs x room links apart other)

-- what `unlink_from_ring` does to the ring
pub record Unlinks (fuel : ℕ) (k : Kernel) (t : ℕ) (ts : List ℕ) : Type 0 where
  pub prev : ℕ
  pub ran : unlink_from_ring fuel k t ≡ some (pos 0, cut k prev t)
  pub members : Members (cut k prev t) ts

-- `t` is the last task
unlink_last :
    (fuel : ℕ) (k : Kernel) (x : ℕ) (xs : List ℕ)
    → IsRing k.tasks k.task_ring (x ∷ xs)
    → length xs + 1 < fuel
    → Unlinks fuel k k.task_ring (x ∷ xs)
unlink_last fuel k x xs ring room =
    let p : ℕ = last_of x xs in
    record {
      prev = p;
      ran =
          unlink_behind fuel k k.task_ring x xs [] (rw (append-nil xs) ring)
            (λ e. ring.present.0 (sym e)) ring.links.1
            ((IsRing-turned k.tasks k.task_ring [] x xs ring).distinct.0) ring.distinct.0
            ring.distinct.0.0 room;
      members = record {
        others = init_of x xs;
        order = init_of-last_of x xs ∙ ap (λ r. init_of x xs ++ r ∷ []) (sym moved);
        ring =
            subst (λ r. IsRing (cut k p k.task_ring).tasks r (init_of x xs)) (sym moved)
              (removed k.tasks k.task_ring p (init_of x xs)
                (subst (IsRing k.tasks k.task_ring) (init_of-last_of x xs) ring));
      };
    }
  where
    moved : (if k.task_ring == k.task_ring then last_of x xs else k.task_ring) ≡ last_of x xs
    moved = rw (==_self k.task_ring) refl

module _ (fuel : ℕ) (k : Kernel) (t : ℕ) (ds : List ℕ) where
  stays : k.task_ring ≢ t → (p : ℕ) → (cut k p t).task_ring ≡ k.task_ring
  stays ne p = rw (==_ne k.task_ring t ne) refl

  -- `t` is the first task
  unlink_first :
      IsRing k.tasks k.task_ring (t ∷ ds) → 0 < fuel → Unlinks fuel k t (ds ++ k.task_ring ∷ [])
  unfolding unlink_from_ring
  unlink_first ring room = record {
    prev = k.task_ring;
    ran =
        rw
          (
            ==_ne k.task_ring 0 (λ e. ring.present.0 (sym e)),
            ==_ne t 0 (λ e. ring.present.1.0 (sym e)),
            ring.links.0,
            ==_ne t k.task_ring (λ e. ring.distinct.0.0 (sym e)),
          )
          (found fuel room);
    members = record {
      others = ds;
      order = ap (λ r. ds ++ r ∷ []) (sym (stays ring.distinct.0.0 k.task_ring));
      ring =
          subst (λ r. IsRing (cut k k.task_ring t).tasks r ds)
            (sym (stays ring.distinct.0.0 k.task_ring))
            (removed k.tasks t k.task_ring ds (IsRing-turned k.tasks k.task_ring [] t ds ring));
    };
  }
    where
      found :
          (n : ℕ) → 0 < n → unlink_loop n k t k.task_ring t t ≡ some (pos 0, cut k k.task_ring t)
      found zero lt = absurd (omega arith)
      found (suc n) lt = unlink_loop_found n k t k.task_ring t

  -- `t` stands behind `x` and `xs`
  unlink_inner :
      (x : ℕ) (xs : List ℕ)
      → IsRing k.tasks k.task_ring ((x ∷ xs) ++ t ∷ ds)
      → length xs + 1 < fuel
      → Unlinks fuel k t ((x ∷ xs) ++ (ds ++ k.task_ring ∷ []))
  unlink_inner x xs ring room = record {
    prev = p;
    ran =
        unlink_behind fuel k t x xs (t ∷ ds) ring (λ e. turned.present.0 (sym e)) way.1
          ((Apart-append x xs (t ∷ [])).1 (
            ((Apart-append x xs (t ∷ ds)).0 ring.distinct.1.0).0,
            (((Apart-append x xs (t ∷ ds)).0 ring.distinct.1.0).1.0, tt),
          ))
          ((Apart-append t ds (k.task_ring ∷ x ∷ xs)).0 turned.distinct.0).1.1 ring.distinct.0.0
          room;
    members = record {
      others = (x ∷ xs) ++ ds;
      order =
          sym (append_assoc (x ∷ xs) ds (k.task_ring ∷ []))
          ∙ ap (λ r. ((x ∷ xs) ++ ds) ++ r ∷ []) (sym (stays not_t p));
      ring = subst (λ r. IsRing (cut k p t).tasks r ((x ∷ xs) ++ ds)) (sym (stays not_t p)) ring';
    };
  }
    where
      p : ℕ
      p = last_of x xs

      turned : IsRing k.tasks t (ds ++ k.task_ring ∷ x ∷ xs)
      turned = IsRing-turned k.tasks k.task_ring (x ∷ xs) t ds ring

      way : Links k.tasks k.task_ring (x ∷ xs) t
      way = ((Links-append k.tasks k.task_ring (x ∷ xs) t ds k.task_ring).0 ring.links).0

      not_t : k.task_ring ≢ t
      not_t = ((Apart-append k.task_ring (x ∷ xs) (t ∷ ds)).0 ring.distinct.0).1.0

      ring' : IsRing (set_next k.tasks p (k.tasks t).next) k.task_ring ((x ∷ xs) ++ ds)
      ring' =
          subst (IsRing (set_next k.tasks p (k.tasks t).next) k.task_ring)
            (sym (append_assoc (init_of x xs) (p ∷ []) ds)
              ∙ ap (λ l. l ++ ds) (sym (init_of-last_of x xs)))
            (IsRing-turned (set_next k.tasks p (k.tasks t).next) p ds k.task_ring (init_of x xs) (
              removed k.tasks t p (ds ++ k.task_ring ∷ init_of x xs) (
                subst (IsRing k.tasks t)
                  (ap (λ l. ds ++ k.task_ring ∷ l) (init_of-last_of x xs)
                    ∙ sym (append_assoc ds (k.task_ring ∷ init_of x xs) (p ∷ [])))
                  turned)))

-- `unlink_from_ring` of any task of a ring of two or more returns 0 and takes out that task alone: the
-- others stay, in their order, and `task_ring` is the last of them.
pub unlink_from_ring-Members :
    (fuel : ℕ) (k : Kernel) (bs : List ℕ) (t : ℕ) (cs : List ℕ)
    → Members k (bs ++ t ∷ cs)
    → 0 < length bs + length cs
    → length bs + 1 < fuel
    → Unlinks fuel k t (bs ++ cs)
unlink_from_ring-Members fuel k bs t cs is several room =
    elim (snoc_split is.others k.task_ring bs t cs (sym is.order)) [
      | inl (nothing, at, parts) ↦
          last bs cs nothing at (subst (IsRing k.tasks k.task_ring) parts is.ring) several room
      | inr (ds, back, parts) ↦
          inner bs ds (subst (IsRing k.tasks k.task_ring) parts is.ring) room
            (λ l. subst (λ r. Unlinks fuel k t (l ++ r)) (sym back))
    ]
  where
    last :
        (bs cs : List ℕ)
        → cs ≡ []
        → t ≡ k.task_ring
        → IsRing k.tasks k.task_ring bs
        → 0 < length bs + length cs
        → length bs + 1 < fuel
        → Unlinks fuel k t (bs ++ cs)
    last [] cs e at ring several room = absurd (omega (arith, ap length e, several))
    last (x ∷ xs) cs e at ring several room =
        rw (e, append-nil xs, at) (unlink_last fuel k x xs ring (omega arith))

    inner :
        (bs ds : List ℕ)
        → IsRing k.tasks k.task_ring (bs ++ t ∷ ds)
        → length bs + 1 < fuel
        → ((l : List ℕ)
            → Unlinks fuel k t (l ++ (ds ++ k.task_ring ∷ []))
            → Unlinks fuel k t (l ++ cs))
        → Unlinks fuel k t (bs ++ cs)
    inner [] ds ring room back = back [] (unlink_first fuel k t ds ring (omega arith))
    inner (x ∷ xs) ds ring room back =
        back (x ∷ xs) (unlink_inner fuel k t ds x xs ring (omega arith))
