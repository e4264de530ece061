-- ===== src/Power/Off.antt =====
-- `power_off` of power/poweroff.c, from the tables to the writes, and power/reboot.c.
use kernel_c.Prelude.{
  ℕ, zero, suc, ◌+◌, ◌*◌, ◌%◌, ◌/◌, Bool, true, ◌&&◌, ◌||◌, not, Option, none, some, List, [], ◌∷◌,
  ◌++◌, if◌then◌else◌, ◌==◌, leb,
}
use kernel_c.Port.{PortWrite, outb}
use kernel_c.Power.{
  Memory, read_u32, read_u64, find_rsdp, find_table, map_sdt, sig_facp, sdt_size, gas_size, find_s5,
  PowerWrite, io_wait, write_pm, emulator_fallback, Pm1, no_pm1, candidate_offsets,
  try_find_gas_in_fadt,
}

-- the test on a copy in the last loop
abbrev pub is_gas : Memory → ℕ → Bool
is_gas m gas =
    not (read_u64 m (gas + 4) == 0)
    && (m gas == 0 || m gas == 1)
    && leb 1 (m (gas + 1))
    && leb (m (gas + 1)) 64

-- the last search, over the whole table, from offset `i` on
unfoldable pub scan_loop : ℕ → Memory → ℕ → ℕ → ℕ → Pm1 → Pm1
scan_loop zero m fadt len i s = s
scan_loop (suc n) m fadt len i s =
    let gas = fadt + i in
    let addr = read_u64 m (gas + 4) in
    let with_a = scan_loop n m fadt len (i + 4) (record s { a_addr = addr; io = m gas == 0 }) in
    let rest = scan_loop n m fadt len (i + 4) s in
    if leb (i + gas_size) len
    then (if is_gas m gas
        then (if s.a_addr == 0
            then with_a
            else if s.b_addr == 0
            then record s { b_addr = addr; io = s.io || m gas == 0 }
            else rest)
        else rest)
    else s

-- where the DSDT is, 0 if no table says it
unfoldable pub dsdt_address : Memory → ℕ → ℕ → ℕ
dsdt_address m fadt len =
    let x = if leb 140 len then read_u64 m (fadt + 140) else 0 in
    if x == 0 then (if leb 44 len then read_u32 m (fadt + 40) else 0) else x

-- the two 32-bit fields, which are ports
unfoldable pub fixed_pm1 : Memory → ℕ → ℕ → Pm1
fixed_pm1 m fadt len =
    if leb 72 len
    then record { a_addr = read_u32 m (fadt + 64); b_addr = read_u32 m (fadt + 68); io = true }
    else record { a_addr = 0; b_addr = 0; io = true }

-- a search that runs only where those before found nothing
unfoldable pub or_search : Pm1 → (Pm1 → Pm1) → Pm1
or_search s search = if no_pm1 s then search s else s

unfoldable pub find_pm1 : Memory → ℕ → ℕ → Pm1
unfolding or_search fixed_pm1 try_find_gas_in_fadt scan_loop
find_pm1 m fadt len =
    or_search (or_search (fixed_pm1 m fadt len) (try_find_gas_in_fadt m fadt len candidate_offsets))
      (scan_loop len m fadt len sdt_size)

-- `SLP_TYP` and `PM1_SLP_EN`
unfoldable pub sleep_value : ℕ → ℕ
sleep_value s5a = s5a % 8 * 1024 + 8192

-- `s5a`: 5 where the DSDT does not say
abbrev pub s5a_or_default : Option (ℕ × ℕ) → ℕ
s5a_or_default none = 5
s5a_or_default (some (s5a, s5b)) = s5a

unfoldable pub sleep_type : Memory → ℕ → ℕ
sleep_type m dsdt = s5a_or_default (if dsdt == 0 then none else find_s5 m dsdt)

-- from the FADT on
unfoldable pub sleep_writes : Memory → ℕ → List PowerWrite
unfolding find_pm1 sleep_type dsdt_address sleep_value
sleep_writes m fadt =
    let len = read_u32 m (fadt + 4) in
    let pm1 = find_pm1 m fadt len in
    let value = sleep_value (sleep_type m (dsdt_address m fadt len)) in
    write_pm pm1.a_addr pm1.io value ++ (write_pm pm1.b_addr pm1.io value ++ io_wait)

-- the root table that the RSDP names
unfoldable pub use_xsdt : Memory → ℕ → Bool
use_xsdt m rsdp = leb 2 (m (rsdp + 15)) && not (read_u64 m (rsdp + 24) == 0)

unfoldable pub root_table : Memory → ℕ → ℕ
unfolding use_xsdt
root_table m rsdp = if use_xsdt m rsdp then read_u64 m (rsdp + 24) else read_u32 m (rsdp + 16)

-- the FADT, 0 where one of the searches fails
unfoldable pub find_fadt : Memory → ℕ
unfolding root_table use_xsdt
find_fadt m =
    let rsdp = find_rsdp m in
    let table = root_table m rsdp in
    let fadt = find_table m table sig_facp (use_xsdt m rsdp) in
    if rsdp == 0 then 0 else if table == 0 then 0 else if fadt == 0 then 0 else map_sdt m fadt

unfoldable pub power_off : Memory → List PowerWrite
unfolding find_fadt sleep_writes
power_off m =
    let fadt = find_fadt m in
    emulator_fallback ++ ((if fadt == 0 then [] else sleep_writes m fadt) ++ emulator_fallback)

-- `status` is what port 0x64 reads, one byte for each round
pub wait_kbc : List ℕ → Option (List ℕ)
wait_kbc [] = none
wait_kbc (status ∷ more) =
    let rest = wait_kbc more in if status / 2 % 2 == 0 then some more else rest

-- up to the reset; `none` means that the bytes ran out while the controller was busy
unfoldable pub reboot_system : List ℕ → Option (List PortWrite)
unfolding wait_kbc
reboot_system status = elim (wait_kbc status) [
  | none ↦ none
  | some more ↦ some (outb 0x64 0xFE ∷ [])
]
