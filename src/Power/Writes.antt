-- ===== src/Power/Writes.antt =====
-- What `power_off` writes, and where.
use kernel_c.Prelude.{
  ℕ, ◌+◌, ◌/◌, ◌%◌, ◌≤◌, ◌≡◌, ◌≢◌, refl, Bool, true, false, ◌&&◌, List, [], ◌∷◌, ◌++◌,
  if◌then◌else◌, ◌==◌, ==_ne, leb, arith, Bool-cases, inl, inr, leb→le, ℕ_discrete,
}
use kernel_c.Port.{outb, outw}
use kernel_c.Power.{
  Memory, read_u32, PowerWrite, port, memory, io_wait, write_pm, emulator_fallback, Pm1,
}
use kernel_c.Power.Off.{
  sleep_value, sleep_type, sleep_writes, dsdt_address, find_pm1, find_fadt, power_off,
}

-- `SLP_EN`, bit 13, is set, and but for it only the three bits of the sleep type may be
abbrev pub IsSleep : ℕ → Type 0
IsSleep v = (v / 8192 ≡ 1) × (v % 1024 ≡ 0)

-- the delay on port 0x80, or a sleep value to a port or to memory that is not NULL
abbrev pub IsPowerWrite : PowerWrite → Type 0
IsPowerWrite (port (outb p v)) = (p ≡ 0x80) × (v ≡ 0)
IsPowerWrite (port (outw p v)) = (p ≤ 0xFFFF) × IsSleep v
IsPowerWrite (memory a v) = (a ≢ 0) × IsSleep v

abbrev pub ArePowerWrites : List PowerWrite → Type 0
ArePowerWrites [] = Unit
ArePowerWrites (w ∷ ws) = IsPowerWrite w × ArePowerWrites ws

ArePowerWrites-append :
    (xs ys : List PowerWrite) → ArePowerWrites xs → ArePowerWrites ys → ArePowerWrites (xs ++ ys)
ArePowerWrites-append [] ys is is' = is'
ArePowerWrites-append (x ∷ xs) ys is is' = (is.0, ArePowerWrites-append xs ys is.1 is')

sleep_value-IsSleep : (s5a : ℕ) → IsSleep (sleep_value s5a)
unfolding sleep_value
sleep_value-IsSleep s5a = (omega arith, omega arith)

write_pm-ArePowerWrites :
    (addr : ℕ) (io : Bool) (v : ℕ) → IsSleep v → ArePowerWrites (write_pm addr io v)
unfolding write_pm
write_pm-ArePowerWrites addr io v is = elim (ℕ_discrete addr 0) [
  | yes e ↦ rw e tt
  | no ne ↦ rw (==_ne addr 0 ne) (elim (Bool-cases (io && leb addr 0xFFFF)) [
    | inl small ↦ rw small (((leb→le addr 0xFFFF (second io (leb addr 0xFFFF) small)), is), tt)
    | inr large ↦ rw large ((ne, is), tt)
  ])
]
  where
    second : (a b : Bool) → (a && b) ≡ true → b ≡ true
    second true b h = h
    second false b h = absurd cc

sleep_writes-ArePowerWrites : (m : Memory) (fadt : ℕ) → ArePowerWrites (sleep_writes m fadt)
unfolding sleep_writes
sleep_writes-ArePowerWrites m fadt =
    writes (find_pm1 m fadt (read_u32 m (fadt + 4)))
      (sleep_type m (dsdt_address m fadt (read_u32 m (fadt + 4))))
  where
    writes :
        (pm1 : Pm1) (s5a : ℕ)
        → ArePowerWrites (
            write_pm pm1.a_addr pm1.io (sleep_value s5a)
            ++ (write_pm pm1.b_addr pm1.io (sleep_value s5a) ++ io_wait))
    writes pm1 s5a =
        ArePowerWrites-append (write_pm pm1.a_addr pm1.io (sleep_value s5a)) _
          (write_pm-ArePowerWrites pm1.a_addr pm1.io (sleep_value s5a) (sleep_value-IsSleep s5a))
          (ArePowerWrites-append (write_pm pm1.b_addr pm1.io (sleep_value s5a)) io_wait
            (write_pm-ArePowerWrites pm1.b_addr pm1.io (sleep_value s5a) (sleep_value-IsSleep s5a))
            ((refl, refl), tt))

fallback-ArePowerWrites : ArePowerWrites emulator_fallback
fallback-ArePowerWrites = (
  ((omega arith), (omega arith, omega arith)),
  ((refl, refl), (((omega arith), (omega arith, omega arith)), ((refl, refl), tt))),
)

-- Whatever the memory holds, `power_off` writes nothing but zeros to port 0x80 and 16-bit values with
-- `SLP_EN` set and no bit but that and the sleep type, to a port or to an address that is not NULL.
pub power_off-ArePowerWrites : (m : Memory) → ArePowerWrites (power_off m)
unfolding power_off
power_off-ArePowerWrites m = ArePowerWrites-append emulator_fallback _ fallback-ArePowerWrites (
    ArePowerWrites-append (if find_fadt m == 0 then [] else sleep_writes m (find_fadt m))
      emulator_fallback (middle (find_fadt m)) fallback-ArePowerWrites)
  where
    middle : (fadt : ℕ) → ArePowerWrites (if fadt == 0 then [] else sleep_writes m fadt)
    middle fadt = elim (Bool-cases (fadt == 0)) [
      | inl null ↦ rw null tt
      | inr there ↦ rw there (sleep_writes-ArePowerWrites m fadt)
    ]
