-- ===== src/Multitask/Tests.antt =====
-- A ring of three tasks, a heap with room for a fourth, and the theorems at these inputs.
use kernel_c.Prelude.{
  pos, ℕ, ◌+◌, ◌*◌, ◌%◌, ◌≤◌, ◌<◌, ◌≡◌, ◌≢◌, ◌⊎◌, inl, inr, refl, true, false, some, negsuc, [],
  ◌∷◌, arith,
}
use kernel_c.Heap.{null, align_up}
use kernel_c.Heap.Cells.{cell}
use kernel_c.Kmalloc.Fit.{first_fit}
use kernel_c.Multitask.{
  task_running, task_zombie, Kernel, prepare_initial_stack, insert_task, utask_create, runnable,
  pick_next, schedule_from_isr,
}
use kernel_c.Multitask.Zombies.{
  Stopped, task_stop, reap_zombies, task_info, task_list, task_is_alive, sti, task_exit,
}
use kernel_c.Multitask.Turns.{next_up, saved, turned_to, pick_next_lem, schedule_from_isr_lem}
use kernel_c.Multitask.Liveness.{ticks, gets_turn}
use kernel_c.Multitask.Members.{Members, insert_task-Members}
use kernel_c.Multitask.Unlink.{Unlinks, unlink_from_ring-Members}
use kernel_c.Multitask.Reap.{all_out, one_out, reap_zombies_lem}
use kernel_c.Multitask.Listing.{infos_of, task_list_lem}
use kernel_c.Multitask.Flag.{task_is_alive_lem}
use kernel_c.Multitask.Frames.{prepare_initial_stack_lem}
use kernel_c.Clock.{Timer}
use kernel_c.Clock.Ticking.{millis}
use kernel_c.Multitask.Dispatch.{interrupts, eois, interrupts-gets_turn}
use kernel_c.Multitask.Stop.{Stops, task_stop-Stops}
use kernel_c.Multitask.Exit.{turns_away, task_exit_lem}
use kernel_c.Multitask.Create.{Started, utask_create_lem}
use kernel_c.Multitask.Sample.{
  first_task, second_task, sample_cells, sample, sample-IsRing, sample-Members, reaped,
  reaped-Members, sample-IsHeap,
}

gets_turn_run :
    (n : ℕ) × (k' : Kernel) × (n ≤ 1)
    × (ticks 9 sample (λ i. 0x7000 + i) n ≡ some k')
    × (k'.current ≡ 0x100028)
    × ((k'.tasks 0x100028).state ≡ task_running)
gets_turn_run =
    gets_turn 9 sample (λ i. 0x7000 + i) [] 0x100028 (0x3000 ∷ []) sample-IsRing
      (λ e. omega (arith, e)) refl (omega arith)

pick_next_lem_run : pick_next 9 sample ≡ some 0x100028
unfolding next_up
pick_next_lem_run =
    pick_next_lem 9 sample (0x100028 ∷ 0x3000 ∷ []) sample-IsRing (λ e. omega (arith, e))
      (omega arith)

schedule_from_isr_lem_run :
    ((0x100028 ≡ null)
      × (schedule_from_isr 9 sample 0x7000
          ≡ some (0x7000, record sample { tasks = saved sample 0x7000 })))
    ⊎ ((0x100028 ≢ null)
        × (schedule_from_isr 9 sample 0x7000 ≡ some (0x8000, turned_to sample 0x7000 0x100028)))
unfolding next_up
schedule_from_isr_lem_run =
    schedule_from_isr_lem 9 sample (0x100028 ∷ 0x3000 ∷ []) 0x7000 sample-IsRing
      (λ e. omega (arith, e)) (omega arith)

insert_task-Members_run :
    Members (insert_task sample 0x5000) (0x1000 ∷ 0x100028 ∷ 0x3000 ∷ 0x5000 ∷ [])
insert_task-Members_run =
    insert_task-Members sample 0x5000 (0x1000 ∷ 0x100028 ∷ 0x3000 ∷ []) sample-Members
      (λ e. omega (arith, e))
      ((λ e. omega (arith, e)), ((λ e. omega (arith, e)), ((λ e. omega (arith, e)), tt)))

unlink_from_ring-Members_example : Unlinks 9 sample 0x100028 (0x1000 ∷ 0x3000 ∷ [])
unlink_from_ring-Members_example =
    unlink_from_ring-Members 9 sample (0x1000 ∷ []) 0x100028 (0x3000 ∷ []) sample-Members
      (omega arith) (omega arith)

reap_zombies_lem_example :
    (k' : Kernel) × (reap_zombies 9 sample ≡ some k')
    × Members k' (0x1000 ∷ 0x100028 ∷ [])
    × (k'.zombie_list ≡ null)
    × (k'.interrupts ≡ true)
    × (k'.current ≡ 0x1000)
reap_zombies_lem_example =
    reap_zombies_lem 9 sample (0x1000 ∷ 0x100028 ∷ 0x3000 ∷ []) (0x3000 ∷ [])
      (0x1000 ∷ 0x100028 ∷ []) sample-Members (refl, (λ e. omega (arith, e)), refl)
      (one_out (0x1000 ∷ 0x100028 ∷ []) 0x3000 [] refl (omega arith) all_out) (omega arith)

task_list_lem_run :
    task_list 9 sample 2 ≡ some (task_info first_task ∷ task_info second_task ∷ [], sti sample)
unfolding infos_of
task_list_lem_run =
    task_list_lem 9 sample (0x1000 ∷ 0x100028 ∷ 0x3000 ∷ []) 2 sample-Members (omega arith)

task_is_alive_lem_example :
    (k' : Kernel) × (task_is_alive 9 reaped (negsuc 4) ≡ some (false, k'))
    × (k'.interrupts ≡ false)
    × (k'.tasks ≡ reaped.tasks)
    × (k'.task_ring ≡ 0x100028)
task_is_alive_lem_example =
    task_is_alive_lem 9 reaped (0x1000 ∷ 0x100028 ∷ []) (negsuc 4) reaped-Members refl (omega arith)

prepare_initial_stack_lem_run :
    (sp : ℕ) × (m' : ℕ → ℕ) × (prepare_initial_stack (λ a. 0) 0x1234 0xA000 ≡ (sp, m'))
    × (0x8000 ≤ sp)
    × (sp + 8 * 22 ≤ 0xA000)
    × (sp % 16 ≡ 0)
    × (m' (sp + 8 * 17) ≡ 0x1234)
    × (m' (sp + 8 * 19) ≡ 0x202)
    × ((q : ℕ) → (q < sp) ⊎ (sp + 8 * 22 ≤ q) → m' q ≡ 0)
prepare_initial_stack_lem_run =
    prepare_initial_stack_lem (λ a. 0) 0x1234 0x8000 0x2000 (omega arith) (omega arith)

utask_create_lem_run :
    (k' : Kernel) × (utask_create 9 reaped 0x1234 8192 0x9000 64 ≡ some (3, k'))
    × Started reaped k' (0x1000 ∷ 0x100028 ∷ []) 0x1000A0 0x1234 0x9000
unfolding first_fit align_up
utask_create_lem_run =
    utask_create_lem 9 reaped sample_cells (0x1000 ∷ 0x100028 ∷ []) 0x1234 8192 0x9000 64
      (cell 80 false ∷ []) (cell 20000 true) [] (cell 80 false ∷ cell 72 false ∷ [])
      (cell 19888 true) [] sample-IsHeap (omega arith) reaped-Members
      (inl refl, (inr ([], cell 80 false, cell 20000 true ∷ [], refl, refl, refl), tt))
      (omega arith) (λ e. omega (arith, e)) refl refl

abbrev sample_timer : Timer
sample_timer = record {
  tick_time = 999;
  seconds = 59;
  system_clock = record { hh = 23; mm = 59; ss = 59 };
}

interrupts-gets_turn_example :
    (n : ℕ) × (t' : Timer) × (k' : Kernel) × (n ≤ 1)
    × (interrupts 9 sample_timer sample (λ i. 0x7000 + i) n ≡ some (eois n, t', k'))
    × (k'.current ≡ 0x100028)
    × (millis t' ≡ 59999 + n)
interrupts-gets_turn_example =
    interrupts-gets_turn 9 sample_timer sample (λ i. 0x7000 + i) [] 0x100028 (0x3000 ∷ [])
      (record {
        ticks = omega arith;
        time = record { hour = omega arith; minute = omega arith; second = omega arith };
      })
      (omega arith) sample-IsRing (λ e. omega (arith, e)) refl (omega arith)

turns_away_example :
    (out : ℕ) × (k' : Kernel) × (schedule_from_isr 9 sample 0x7000 ≡ some (out, k'))
    × ((q : ℕ) → runnable (sample.tasks q).state ≡ false → k'.current ≢ q)
turns_away_example =
    turns_away 9 sample [] 0x100028 (0x3000 ∷ []) 0x7000 sample-IsRing (λ e. omega (arith, e)) refl
      (omega arith)

-- the second task is the running one
abbrev second_runs : Kernel
second_runs = record reaped { current = 0x100028 }

second_runs-Members : Members second_runs (0x1000 ∷ 0x100028 ∷ [])
second_runs-Members = record {
  others = reaped-Members.others;
  order = reaped-Members.order;
  ring = reaped-Members.ring;
}

task_exit_lem_example :
    (k' : Kernel) × (task_exit 9 second_runs 7 ≡ some k')
    × Members k' (0x1000 ∷ 0x100028 ∷ [])
    × (k'.zombie_list ≡ 0x100028)
    × ((k'.tasks 0x100028).exit_code ≡ 7)
    × ((k'.tasks 0x100028).state ≡ task_zombie)
    × ((k2 : Kernel) × (reap_zombies 9 k' ≡ some k2)
        × Members k2 (0x1000 ∷ [])
        × (k2.zombie_list ≡ null))
task_exit_lem_example =
    task_exit_lem 9 second_runs 7 (0x1000 ∷ []) [] second_runs-Members (omega arith)
      (λ e. omega (arith, e)) refl (omega arith)

task_stop-Stops_example :
    (r : Stopped) × (task_stop 9 reaped (pos 1) ≡ some r)
    × Stops reaped (0x1000 ∷ 0x100028 ∷ []) (pos 1) r
task_stop-Stops_example =
    task_stop-Stops 9 reaped (0x1000 ∷ 0x100028 ∷ []) (pos 1) reaped-Members (omega arith) refl
      (omega arith)
