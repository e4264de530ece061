-- ===== src/Power.antt =====
-- power/poweroff.c and power/reboot.c: the search of the ACPI tables and the writes that turn the
-- machine off. Physical memory is a map from addresses to bytes; `phys_to_virt` is the identity, so only
-- address 0 is NULL. What a function leaves is the list of its writes in order; each ends in a loop
-- of `hlt`, unless the machine is off before. Sums of addresses do not wrap.
pub mod Tables
pub mod Off
pub mod Writes
mod Tests
use kernel_c.Prelude.{
  ℕ, zero, suc, ◌+◌, ◌-◌, ◌*◌, ◌/◌, ◌%◌, Bool, true, false, ◌&&◌, ◌||◌, not, Option, none, some,
  List, [], ◌∷◌, ◌++◌, if◌then◌else◌, ◌==◌, ltb, leb, u8, u16, add64, ℤ, pos, negsuc,
}
use kernel_c.Port.{PortWrite, outb, outw}
use kernel_c.CString.{byte_diff}

abbrev pub Memory : Type 0
Memory = ℕ → ℕ

-- against a constant of the source, byte by byte
abbrev pub memcmp_simple : Memory → ℕ → List ℕ → ℤ
memcmp_simple m p [] = pos 0
memcmp_simple m p (c ∷ cs) =
    let rest = memcmp_simple m (p + 1) cs in if m p == c then rest else byte_diff (m p) c

-- `memcmp_simple(...) == 0`
abbrev pub same_bytes : Memory → ℕ → List ℕ → Bool
same_bytes m p cs = elim (memcmp_simple m p cs) [ pos n ↦ n == 0 | negsuc n ↦ false ]

abbrev pub checksum_loop : Memory → ℕ → ℕ → ℕ → ℕ
checksum_loop m p zero s = s
checksum_loop m p (suc n) s = checksum_loop m (p + 1) n (u8 (s + m p))

unfoldable pub checksum_ok : Memory → ℕ → ℕ → Bool
checksum_ok m p n = checksum_loop m p n 0 == 0

abbrev pub read_u32 : Memory → ℕ → ℕ
read_u32 m p = m p + 256 * (m (p + 1) + 256 * (m (p + 2) + 256 * m (p + 3)))

abbrev pub read_u64 : Memory → ℕ → ℕ
read_u64 m p = read_u32 m p + 4294967296 * read_u32 m (p + 4)

-- "RSD PTR ", "FACP", "_S5_"
abbrev pub sig_rsdp : List ℕ
sig_rsdp = 82 ∷ 83 ∷ 68 ∷ 32 ∷ 80 ∷ 84 ∷ 82 ∷ 32 ∷ []

abbrev pub sig_facp : List ℕ
sig_facp = 70 ∷ 65 ∷ 67 ∷ 80 ∷ []

abbrev pub sig_s5 : List ℕ
sig_s5 = 95 ∷ 83 ∷ 53 ∷ 95 ∷ []

-- the fields of `rsdp2_t`: `revision` at 15, `rsdt_address` at 16, `length` at 20, `xsdt_address` at 24
unfoldable pub is_rsdp : Memory → ℕ → Bool
unfolding checksum_ok
is_rsdp m a =
    same_bytes m a sig_rsdp
    && (leb 2 (m (a + 15))
          && not (read_u32 m (a + 20) == 0)
          && checksum_ok m a (read_u32 m (a + 20))
        || checksum_ok m a 20)

-- the loop from `a` on, with `n` addresses left
unfoldable pub rsdp_loop : ℕ → Memory → ℕ → ℕ
unfolding is_rsdp
rsdp_loop zero m a = 0
rsdp_loop (suc n) m a = let rest = rsdp_loop n m (a + 16) in if is_rsdp m a then a else rest

-- 8192 addresses from 0xE0000 to 0xFFFF0
unfoldable pub find_rsdp : Memory → ℕ
unfolding rsdp_loop
find_rsdp m = rsdp_loop 8192 m 0xE0000

-- `sizeof(acpi_sdt_hdr_t)` and `sizeof(acpi_gas_t)`
abbrev pub sdt_size : ℕ
sdt_size = 36

abbrev pub gas_size : ℕ
gas_size = 12

-- the table's length is at 4; a result of 0 is NULL
unfoldable pub map_sdt : Memory → ℕ → ℕ
unfolding checksum_ok
map_sdt m phys =
    let len = read_u32 m (phys + 4) in
    if phys == 0
    then 0
    else if ltb len sdt_size || ltb 0x200000 len
    then 0
    else if not (checksum_ok m phys len)
    then 0
    else phys

-- the entry at `p`, of the XSDT or of the RSDT
abbrev pub entry_at : Memory → Bool → ℕ → ℕ
entry_at m true p = read_u64 m p
entry_at m false p = read_u32 m p

abbrev pub entry_size : Bool → ℕ
entry_size true = 8
entry_size false = 4

-- both loops of `find_table`, with `n` entries left from `p` on
unfoldable pub table_loop : ℕ → Memory → Bool → List ℕ → ℕ → ℕ
unfolding map_sdt
table_loop zero m xsdt sig p = 0
table_loop (suc n) m xsdt sig p =
    let rest = table_loop n m xsdt sig (p + entry_size xsdt) in
    let e = entry_at m xsdt p in if not (map_sdt m e == 0) && same_bytes m e sig then e else rest

unfoldable pub find_table : Memory → ℕ → List ℕ → Bool → ℕ
unfolding table_loop
find_table m table sig xsdt =
    let entries = (read_u32 m (table + 4) - sdt_size) / entry_size xsdt in
    if map_sdt m table == 0 then 0 else table_loop entries m xsdt sig (table + sdt_size)

-- the loop of `find_s5` from offset `i` on; the result is what goes to `*slp_a` and `*slp_b`
unfoldable pub s5_loop : ℕ → Memory → ℕ → ℕ → ℕ → Option (ℕ × ℕ)
s5_loop zero m p len i = none
s5_loop (suc n) m p len i =
    let rest = s5_loop n m p len (i + 1) in
    if ltb (i + 4) len
    then (if same_bytes m (p + i) sig_s5 && ltb (i + 4 + 6) len
        then some (m (p + (i + 4) + 5), m (p + (i + 4) + 7))
        else rest)
    else none

-- `none` is -1
unfoldable pub find_s5 : Memory → ℕ → Option (ℕ × ℕ)
unfolding s5_loop
find_s5 m dsdt =
    let len = read_u32 m (dsdt + 4) in
    if map_sdt m dsdt == 0 then none else s5_loop len m dsdt len 0

-- a write to a port or, two bytes wide, to memory
pub data PowerWrite : Type 0 where
  port : PortWrite → PowerWrite
  memory : ℕ → ℕ → PowerWrite

abbrev pub io_wait : List PowerWrite
io_wait = port (outb 0x80 0) ∷ []

unfoldable pub write_pm : ℕ → Bool → ℕ → List PowerWrite
write_pm addr is_io value =
    if addr == 0
    then []
    else if is_io && leb addr 0xFFFF
    then port (outw addr value) ∷ []
    else memory addr value ∷ []

abbrev pub emulator_fallback : List PowerWrite
emulator_fallback = port (outw 0x604 0x2000) ∷ io_wait ++ (port (outw 0x4004 0x2000) ∷ io_wait)

-- the two PM1 control registers, 0 where none is found, and whether they are ports
pub record Pm1 : Type 0 where
  pub a_addr : ℕ
  pub b_addr : ℕ
  pub io : Bool

-- the first `if` of a round of `try_find_gas_in_fadt`, and the second; `gas` is the address of a copy
unfoldable pub take_a : Memory → ℕ → ℕ → ℕ → Pm1 → Pm1
take_a m fadt len off s =
    let gas = fadt + off in
    if leb (off + gas_size) len && not (read_u64 m (gas + 4) == 0)
    then record s { a_addr = read_u64 m (gas + 4); io = m gas == 0 }
    else s

unfoldable pub take_b : Memory → ℕ → ℕ → ℕ → Pm1 → Pm1
take_b m fadt len off s =
    let gas = fadt + off in
    if leb (off + gas_size) len && not (read_u64 m (gas + 4) == 0)
    then record s { b_addr = read_u64 m (gas + 4); io = s.io || m gas == 0 }
    else s

abbrev pub candidate_offsets : List (ℕ × ℕ)
candidate_offsets =
    (76, 84) ∷ (80, 88) ∷ (92, 100) ∷ (100, 108) ∷ (116, 124) ∷ (128, 136) ∷ (140, 148) ∷ []

abbrev pub no_pm1 : Pm1 → Bool
no_pm1 s = s.a_addr == 0 && s.b_addr == 0

-- the loop over the candidates that are left
unfoldable pub try_find_gas_in_fadt : Memory → ℕ → ℕ → List (ℕ × ℕ) → Pm1 → Pm1
unfolding take_a take_b
try_find_gas_in_fadt m fadt len [] s = s
try_find_gas_in_fadt m fadt len ((off_a, off_b) ∷ cs) s =
    let s' = take_b m fadt len off_b (take_a m fadt len off_a s) in
    let rest = try_find_gas_in_fadt m fadt len cs s' in if no_pm1 s' then rest else s'
