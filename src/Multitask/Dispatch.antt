-- ===== src/Multitask/Dispatch.antt =====
-- `isr_timer_dispatch` of time/timer.c: one interrupt counts the millisecond, tells the interrupt
-- controller that it is done, and lets the scheduler choose the frame to return to.
use kernel_c.Prelude.{
  ℕ, zero, suc, ◌+◌, ◌≤◌, ◌<◌, ◌≡◌, ◌≢◌, refl, List, [], ◌∷◌, ◌++◌, arith, true, Option, none, some,
  ◌>>=◌, length,
}
use kernel_c.Heap.{null}
use kernel_c.Port.{PortWrite, pic_send_eoi}
use kernel_c.Clock.{Timer, count_tick}
use kernel_c.Clock.Ticking.{run_ticks, IsTimer, millis, run_ticks_counts}
use kernel_c.Multitask.{Kernel, runnable, schedule_from_isr}
use kernel_c.Multitask.Ring.{IsRing}
use kernel_c.Multitask.Liveness.{ticks, gets_turn}

-- what one interrupt leaves: the frame to return to, the port writes, the counters and the tasks
unfoldable pub isr_timer_dispatch :
    ℕ → Timer → Kernel → ℕ → Option (ℕ × List PortWrite × Timer × Kernel)
isr_timer_dispatch fuel t k regs =
    schedule_from_isr fuel k regs >>= λ (out, k'). some (out, pic_send_eoi 0, count_tick t, k')

-- `n` interrupts, with all port writes in order
pub interrupts : ℕ → Timer → Kernel → (ℕ → ℕ) → ℕ → Option (List PortWrite × Timer × Kernel)
unfolding isr_timer_dispatch
interrupts fuel t k frames zero = some ([], t, k)
interrupts fuel t k frames (suc n) =
    isr_timer_dispatch fuel t k (frames 0) >>= λ (out, sent, t', k').
    interrupts fuel t' k' (λ i. frames (i + 1)) n >>= λ (more, t'', k'').
    some (sent ++ more, t'', k'')

-- one end-of-interrupt for each of `n` interrupts
pub eois : ℕ → List PortWrite
eois zero = []
eois (suc n) = pic_send_eoi 0 ++ eois n

-- the two ways to run the interrupts, seen from the result of the scheduler
interrupts_step :
    (fuel : ℕ) (t : Timer) (frames : ℕ → ℕ) (n : ℕ) (k' : Kernel) (r : Option (ℕ × Kernel))
    → ((k1 : Kernel)
        → ticks fuel k1 frames n ≡ some k'
        → interrupts fuel (count_tick t) k1 frames n
          ≡ some (eois n, run_ticks n (count_tick t), k'))
    → (r >>= λ (out, k1). ticks fuel k1 frames n) ≡ some k'
    → ((r >>= λ (out, k1).
          let d : ℕ × List PortWrite × Timer × Kernel = (out, pic_send_eoi 0, count_tick t, k1) in
          some d)
        >>= λ (out, sent, t1, k1). interrupts fuel t1 k1 frames n >>= λ (more, t2, k2).
            let all : List PortWrite × Timer × Kernel = (sent ++ more, t2, k2) in some all)
      ≡ some (pic_send_eoi 0 ++ eois n, run_ticks n (count_tick t), k')
interrupts_step fuel t frames n k' none ih ran = absurd cc
interrupts_step fuel t frames n k' (some (out, k1)) ih ran = rw (ih k1 ran) refl

interrupts_lem :
    (n fuel : ℕ) (t : Timer) (k : Kernel) (frames : ℕ → ℕ) (k' : Kernel)
    → ticks fuel k frames n ≡ some k'
    → interrupts fuel t k frames n ≡ some (eois n, run_ticks n t, k')
unfolding interrupts ticks eois run_ticks isr_timer_dispatch
interrupts_lem zero fuel t k frames k' ran = cc
interrupts_lem (suc n) fuel t k frames k' ran =
    interrupts_step fuel t (λ i. frames (i + 1)) n k' (schedule_from_isr fuel k (frames 0))
      (λ k1. interrupts_lem n fuel (count_tick t) k1 (λ i. frames (i + 1)) k') ran

-- The timer interrupt as a whole: a task of the ring that can run is the running one after at most as
-- many interrupts as there are tasks between the running one and it, plus one. By then exactly as many
-- milliseconds more are counted, and each interrupt was acknowledged once, as long as the 32-bit
-- count of seconds does not wrap.
pub interrupts-gets_turn :
    (fuel : ℕ) (t : Timer) (k : Kernel) (frames : ℕ → ℕ) (ys : List ℕ) (q : ℕ) (zs : List ℕ)
    → IsTimer t
    → millis t + (length ys + 1) < 4294967295000
    → IsRing k.tasks k.current (ys ++ q ∷ zs)
    → k.task_ring ≢ null
    → runnable (k.tasks q).state ≡ true
    → length (ys ++ q ∷ zs) < fuel
    → (n : ℕ) × (t' : Timer) × (k' : Kernel) × (n ≤ length ys + 1)
      × (interrupts fuel t k frames n ≡ some (eois n, t', k'))
      × (k'.current ≡ q)
      × (millis t' ≡ millis t + n)
interrupts-gets_turn fuel t k frames ys q zs is small ring some_ring can room =
    let (n, k', few, ran, turn, running) =
      gets_turn fuel k frames ys q zs ring some_ring can room in
    (
      n,
      run_ticks n t,
      k',
      few,
      interrupts_lem n fuel t k frames k' ran,
      turn,
      (run_ticks_counts n t is (omega (arith, small, few))).1,
    )
