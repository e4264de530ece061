-- ===== src/Multitask/Members.antt =====
-- The ring as a list of tasks in the order of their creation: what goes in comes last, what goes out
-- leaves the others in order.
use kernel_c.Prelude.{
  ℕ, ◌≡◌, ◌≢◌, refl, sym, ap, ◌∙◌, subst, List, [], ◌∷◌, ◌++◌, Apart, AllApart, Apart-append,
  AllApart-swap, ==_ne,
}
use kernel_c.Heap.{null}
use kernel_c.Multitask.{Task, TaskStore, Kernel, set_task, blank_task, scheduler_init, insert_task}
use kernel_c.Multitask.Ring.{Links, IsRing, Links-append, set_task-other, set_task_self}

-- The tasks of the ring, from the one behind `task_ring` on; `task_ring` is the last.
pub record Members (k : Kernel) (ts : List ℕ) : Type 0 where
  pub others : List ℕ
  pub order : ts ≡ others ++ k.task_ring ∷ []
  pub ring : IsRing k.tasks k.task_ring others

-- Other links, and another start with the same link: what lies between stays.
pub Links-moved :
    (m m' : TaskStore) (p q a a' : ℕ) (xs : List ℕ) (b : ℕ)
    → ((r : ℕ) → r ≢ p → r ≢ q → (m' r).next ≡ (m r).next)
    → Apart p xs
    → Apart q xs
    → (m' a').next ≡ (m a).next
    → Links m a xs b
    → Links m' a' xs b
Links-moved m m' p q a a' [] b same at_p at_q start l = start ∙ l
Links-moved m m' p q a a' (x ∷ xs) b same at_p at_q start l = (
  start ∙ l.0,
  Links-moved m m' p q x x xs b same at_p.1 at_q.1
      (same x (λ e. at_p.0 (sym e)) (λ e. at_q.0 (sym e))) l.1,
)

-- `scheduler_init` makes a ring of the first task alone.
pub scheduler_init-Members :
    (k : Kernel) → k.init_task ≢ null → Members (scheduler_init k) (k.init_task ∷ [])
unfolding scheduler_init
scheduler_init-Members k ne = record {
  others = [];
  order = refl;
  ring = record {
    links =
        ap (λ (t : Task). t.next)
          (set_task_self k.tasks k.init_task (record blank_task { next = k.init_task }));
    present = ((λ e. ne (sym e)), tt);
    distinct = (tt, tt);
  };
}

module _ (k : Kernel) (t : ℕ) (ts : List ℕ) (is : Members k ts) (present : t ≢ null)
    (new : Apart t ts) where
  linked : TaskStore
  linked = set_task k.tasks t (record (k.tasks t) { next = (k.tasks k.task_ring).next })

  relinked : TaskStore
  relinked = set_task linked k.task_ring (record (linked k.task_ring) { next = t })

  not_last : t ≢ k.task_ring
  not_last e =
      ((Apart-append t is.others (k.task_ring ∷ [])).0 (subst (Apart t) is.order new)).1.0 e

  relinked-other : (r : ℕ) → r ≢ t → r ≢ k.task_ring → (relinked r).next ≡ (k.tasks r).next
  unfolding relinked linked
  relinked-other r ne_t ne_last =
      ap (λ (x : Task). x.next)
        (set_task-other linked k.task_ring (record (linked k.task_ring) { next = t }) r
            (λ e. ne_last (sym e))
          ∙ set_task-other k.tasks t (record (k.tasks t) { next = (k.tasks k.task_ring).next }) r
              (λ e. ne_t (sym e)))

  relinked-new : (relinked t).next ≡ (k.tasks k.task_ring).next
  unfolding relinked linked
  relinked-new =
      ap (λ (x : Task). x.next)
        (set_task-other linked k.task_ring (record (linked k.task_ring) { next = t }) t
            (λ e. not_last (sym e))
          ∙ set_task_self k.tasks t (record (k.tasks t) { next = (k.tasks k.task_ring).next }))

  relinked-last : (relinked k.task_ring).next ≡ t
  unfolding relinked
  relinked-last =
      ap (λ (x : Task). x.next)
        (set_task_self linked k.task_ring (record (linked k.task_ring) { next = t }))

  -- `insert_task` puts a task that is not in the ring behind all that are.
  pub insert_task-Members : Members (insert_task k t) (ts ++ t ∷ [])
  unfolding insert_task relinked linked
  insert_task-Members = rw (==_ne k.task_ring 0 (λ e. is.ring.present.0 (sym e))) (record {
    others = ts;
    order = refl;
    ring = record {
      links =
          subst (λ l. Links relinked t l t) (sym is.order)
            ((Links-append relinked t is.others k.task_ring [] t).1 (
              Links-moved k.tasks relinked t k.task_ring k.task_ring t is.others k.task_ring
                  relinked-other
                  ((Apart-append t is.others (k.task_ring ∷ [])).0 (subst (Apart t) is.order new)).0
                  is.ring.distinct.0 relinked-new is.ring.links,
              relinked-last,
            ));
      present = (
        (λ e. present (sym e)),
        subst (Apart null) (sym is.order) (
            (Apart-append null is.others (k.task_ring ∷ [])).1
              (is.ring.present.1, (is.ring.present.0, tt))),
      );
      distinct = (
        new,
        subst AllApart (sym is.order) (AllApart-swap (k.task_ring ∷ []) is.others is.ring.distinct),
      );
    };
  })
