-- ===== src/Multitask/Frames.antt =====
-- The first frame of a task lies inside its stack.
use kernel_c.Prelude.{
  ℕ, zero, suc, ◌+◌, ◌-◌, ◌*◌, ◌%◌, ◌/◌, ◌≤◌, ◌<◌, ◌≡◌, ◌⊎◌, inl, refl, ap, ◌∙◌, List, [], ◌∷◌,
  arith, length, get_or, if◌then◌else◌, ◌==◌,
}
use kernel_c.Multitask.{Kernel, initial_frame, write_qwords, initial_sp, prepare_initial_stack}

write_qwords-other :
    (m : ℕ → ℕ) (p : ℕ) (vs : List ℕ) (q : ℕ)
    → (q < p) ⊎ (p + 8 * length vs ≤ q)
    → write_qwords m p vs q ≡ m q
write_qwords-other m p [] q far = refl
write_qwords-other m p (v ∷ vs) q far =
    write_qwords-other (λ r. if r == p then v else m r) (p + 8) vs q (ground arith) ∙ ground arith

write_qwords-get_or :
    (m : ℕ → ℕ) (p : ℕ) (vs : List ℕ) (i d : ℕ)
    → i < length vs
    → write_qwords m p vs (p + 8 * i) ≡ get_or vs i d
write_qwords-get_or m p [] i d lt = absurd (omega arith)
write_qwords-get_or m p (v ∷ vs) zero d lt =
    write_qwords-other (λ r. if r == p then v else m r) (p + 8) vs (p + 8 * 0) (inl (omega arith))
    ∙ ground arith
write_qwords-get_or m p (v ∷ vs) (suc i) d lt =
    ap (write_qwords (λ r. if r == p then v else m r) (p + 8) vs) (omega arith)
    ∙ write_qwords-get_or (λ r. if r == p then v else m r) (p + 8) vs i d (omega arith)

-- where the frame that a task resumes from keeps the instruction pointer
abbrev pub resumes_at : Kernel → ℕ → ℕ
resumes_at k t = k.qwords ((k.tasks t).regs + 8 * 17)

pub prepare_initial_stack_entry :
    (m : ℕ → ℕ) (entry top : ℕ)
    → (prepare_initial_stack m entry top).1 ((prepare_initial_stack m entry top).0 + 8 * 17) ≡ entry
unfolding prepare_initial_stack
prepare_initial_stack_entry m entry top =
    write_qwords-get_or m (initial_sp top) (initial_frame entry top) 17 0 (omega arith)

-- For a stack of at least 191 bytes the first frame lies inside the stack, at a multiple of 16. It holds
-- the entry point where `iretq` takes the instruction pointer and 0x202, with interrupts on, where it
-- takes the flags; nothing outside the frame is written.
pub prepare_initial_stack_lem :
    (m : ℕ → ℕ) (entry kstack size : ℕ)
    → 191 ≤ size
    → kstack + size < 18446744073709551616
    → (sp : ℕ) × (m' : ℕ → ℕ) × (prepare_initial_stack m entry (kstack + size) ≡ (sp, m'))
      × (kstack ≤ sp)
      × (sp + 8 * 22 ≤ kstack + size)
      × (sp % 16 ≡ 0)
      × (m' (sp + 8 * 17) ≡ entry)
      × (m' (sp + 8 * 19) ≡ 0x202)
      × ((q : ℕ) → (q < sp) ⊎ (sp + 8 * 22 ≤ q) → m' q ≡ m q)
unfolding prepare_initial_stack
prepare_initial_stack_lem m entry kstack size large range =
    let at : initial_sp (kstack + size) ≡ (kstack + size) / 16 * 16 - 176 =
      sp_lem (kstack + size) (omega arith) range in
    (
      initial_sp (kstack + size),
      write_qwords m (initial_sp (kstack + size)) (initial_frame entry (kstack + size)),
      refl,
      omega (arith, at),
      omega (arith, at),
      omega (arith, at),
      write_qwords-get_or m (initial_sp (kstack + size)) (initial_frame entry (kstack + size)) 17 0
          (omega arith),
      write_qwords-get_or m (initial_sp (kstack + size)) (initial_frame entry (kstack + size)) 19 0
          (omega arith),
      λ q far.
          write_qwords-other m (initial_sp (kstack + size)) (initial_frame entry (kstack + size)) q
            far,
    )
  where
    sp_lem :
        (top : ℕ) → 191 ≤ top → top < 18446744073709551616 → initial_sp top ≡ top / 16 * 16 - 176
    sp_lem top le lt = omega arith
