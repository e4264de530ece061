-- ===== src/Multitask/Ring.antt =====
-- The ring of tasks, seen from any of its members: the links lead from the member through the other
-- tasks and back to it.
use kernel_c.Prelude.{
  ℕ, ◌≡◌, ◌≢◌, ◌↔◌, refl, sym, ap, ◌∙◌, List, [], ◌∷◌, ◌++◌, Apart, AllApart, Apart-append,
  AllApart-swap, ==_self, ==_ne, ℕ_discrete,
}
use kernel_c.Heap.{null}
use kernel_c.Multitask.{Task, TaskStore, set_task}

-- From `a` on, `next` leads through the tasks of the list to `b`.
abbrev pub Links : TaskStore → ℕ → List ℕ → ℕ → Type 0
Links m a [] b = (m a).next ≡ b
Links m a (t ∷ ts) b = ((m a).next ≡ t) × Links m t ts b

-- The ring of `c` and the tasks `ts`, in the order of `next` from `c` on.
pub record IsRing (m : TaskStore) (c : ℕ) (ts : List ℕ) : Type 0 where
  pub links : Links m c ts c
  pub present : Apart null (c ∷ ts)
  pub distinct : AllApart (c ∷ ts)

pub Links-append :
    (m : TaskStore) (a : ℕ) (xs : List ℕ) (t : ℕ) (ys : List ℕ) (b : ℕ)
    → Links m a (xs ++ t ∷ ys) b ↔ (Links m a xs t × Links m t ys b)
Links-append m a [] t ys b = (λ p. p, λ p. p)
Links-append m a (x ∷ xs) t ys b =
    let ih = Links-append m x xs t ys b in
    (λ p. ((p.0, (ih.0 p.1).0), (ih.0 p.1).1), λ p. (p.0.0, ih.1 (p.0.1, p.1)))

-- only the links of the tasks on the way matter
pub Links-same :
    (m m' : TaskStore) (a : ℕ) (xs : List ℕ) (b : ℕ)
    → ((q : ℕ) → (m' q).next ≡ (m q).next)
    → Links m a xs b
    → Links m' a xs b
Links-same m m' a [] b same p = same a ∙ p
Links-same m m' a (x ∷ xs) b same p = (same a ∙ p.0, Links-same m m' x xs b same p.1)

pub IsRing-same :
    (m m' : TaskStore) (c : ℕ) (ts : List ℕ)
    → ((q : ℕ) → (m' q).next ≡ (m q).next)
    → IsRing m c ts
    → IsRing m' c ts
IsRing-same m m' c ts same is = record {
  links = Links-same m m' c ts c same is.links;
  present = is.present;
  distinct = is.distinct;
}

pub set_task-other : (m : TaskStore) (p : ℕ) (t : Task) (q : ℕ) → p ≢ q → set_task m p t q ≡ m q
set_task-other m p t q ne = rw (==_ne q p (λ e. ne (sym e))) refl

pub set_task_self : (m : TaskStore) (p : ℕ) (t : Task) → set_task m p t p ≡ t
set_task_self m p t = rw (==_self p) refl

-- a write to a task that is not on the way
pub Links-set_task :
    (m : TaskStore) (p : ℕ) (t : Task) (a : ℕ) (xs : List ℕ) (b : ℕ)
    → Apart p (a ∷ xs)
    → Links m a xs b
    → Links (set_task m p t) a xs b
Links-set_task m p t a [] b apart l = ap (λ (x : Task). x.next) (set_task-other m p t a apart.0) ∙ l
Links-set_task m p t a (x ∷ xs) b apart l = (
  ap (λ (x : Task). x.next) (set_task-other m p t a apart.0) ∙ l.0,
  Links-set_task m p t x xs b apart.1 l.1,
)

-- The same ring, seen from another member.
pub IsRing-turned :
    (m : TaskStore) (c : ℕ) (xs : List ℕ) (t : ℕ) (ys : List ℕ)
    → IsRing m c (xs ++ t ∷ ys)
    → IsRing m t (ys ++ c ∷ xs)
IsRing-turned m c xs t ys is = record {
  links = (Links-append m t ys c xs t).1 (split.1, split.0);
  present = (Apart-append null (t ∷ ys) (c ∷ xs)).1 (there.1, there.0);
  distinct = AllApart-swap (c ∷ xs) (t ∷ ys) is.distinct;
}
  where
    split : Links m c xs t × Links m t ys c
    split = (Links-append m c xs t ys c).0 is.links

    there : Apart null (c ∷ xs) × Apart null (t ∷ ys)
    there = (Apart-append null (c ∷ xs) (t ∷ ys)).0 is.present

-- a write to a task that leaves what `f` reads of it
pub set_task_kept {ℓ} :
    {A : Type ℓ} (f : Task → A) (m : TaskStore) (p : ℕ) (t : Task) (q : ℕ)
    → f t ≡ f (m p)
    → f (set_task m p t q) ≡ f (m q)
set_task_kept f m p t q h = elim (ℕ_discrete q p) [
  | yes e ↦ ap f (ap (set_task m p t) e ∙ set_task_self m p t) ∙ h ∙ ap (λ i. f (m i)) (sym e)
  | no ne ↦ ap f (set_task-other m p t q (λ e. ne (sym e)))
]
