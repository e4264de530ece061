-- ===== src/Power/Tests.antt =====
-- Tables in a memory of a few hundred bytes, and the theorems at this memory.
use kernel_c.Prelude.{
  ℕ, ◌+◌, ◌-◌, ◌*◌, ◌%◌, ◌<◌, ◌≤◌, ◌≡◌, ◌≢◌, ◌⊎◌, refl, false, some, List, [], ◌∷◌, get_or,
  if◌then◌else◌, ltb, arith,
}
use kernel_c.Port.{outb}
use kernel_c.Power.{
  Memory, read_u32, is_rsdp, find_rsdp, sig_facp, map_sdt, entry_at, entry_size, find_table,
  find_s5,
}
use kernel_c.Power.Off.{find_fadt, dsdt_address, power_off, reboot_system}
use kernel_c.Power.Tables.{
  Found, find_rsdp_lem, byte_sum, is_table, map_sdt_lem, find_table_lem, FoundS5, find_s5_lem,
}
use kernel_c.Power.Writes.{ArePowerWrites, power_off-ArePowerWrites}

-- an RSDP, an RSDT with one entry, an FADT and a DSDT
abbrev sample_bytes : List ℕ
sample_bytes =
    82 ∷ 83 ∷ 68 ∷ 32 ∷ 80 ∷ 84 ∷ 82 ∷ 32 ∷ 179 ∷ 0 ∷ 0 ∷ 0 ∷ 0 ∷ 0 ∷ 0 ∷ 0 ∷ 32 ∷ 0 ∷ 14 ∷ 0 ∷ 0
    ∷ 0 ∷ 0 ∷ 0 ∷ 0 ∷ 0 ∷ 0 ∷ 0 ∷ 0 ∷ 0 ∷ 0 ∷ 0 ∷ 82 ∷ 83 ∷ 68 ∷ 84 ∷ 40 ∷ 0 ∷ 0 ∷ 0 ∷ 0 ∷ 61 ∷ 0
    ∷ 0 ∷ 0 ∷ 0 ∷ 0 ∷ 0 ∷ 0 ∷ 0 ∷ 0 ∷ 0 ∷ 0 ∷ 0 ∷ 0 ∷ 0 ∷ 0 ∷ 0 ∷ 0 ∷ 0 ∷ 0 ∷ 0 ∷ 0 ∷ 0 ∷ 0 ∷ 0 ∷ 0
    ∷ 0 ∷ 80 ∷ 0 ∷ 14 ∷ 0 ∷ 0 ∷ 0 ∷ 0 ∷ 0 ∷ 0 ∷ 0 ∷ 0 ∷ 0 ∷ 70 ∷ 65 ∷ 67 ∷ 80 ∷ 76 ∷ 0 ∷ 0 ∷ 0 ∷ 0
    ∷ 226 ∷ 0 ∷ 0 ∷ 0 ∷ 0 ∷ 0 ∷ 0 ∷ 0 ∷ 0 ∷ 0 ∷ 0 ∷ 0 ∷ 0 ∷ 0 ∷ 0 ∷ 0 ∷ 0 ∷ 0 ∷ 0 ∷ 0 ∷ 0 ∷ 0 ∷ 0
    ∷ 0 ∷ 0 ∷ 0 ∷ 0 ∷ 0 ∷ 0 ∷ 0 ∷ 0 ∷ 160 ∷ 0 ∷ 14 ∷ 0 ∷ 0 ∷ 0 ∷ 0 ∷ 0 ∷ 0 ∷ 0 ∷ 0 ∷ 0 ∷ 0 ∷ 0 ∷ 0
    ∷ 0 ∷ 0 ∷ 0 ∷ 0 ∷ 0 ∷ 0 ∷ 0 ∷ 0 ∷ 0 ∷ 4 ∷ 6 ∷ 0 ∷ 0 ∷ 0 ∷ 0 ∷ 0 ∷ 0 ∷ 0 ∷ 0 ∷ 0 ∷ 0 ∷ 0 ∷ 0 ∷ 0
    ∷ 0 ∷ 68 ∷ 83 ∷ 68 ∷ 84 ∷ 48 ∷ 0 ∷ 0 ∷ 0 ∷ 0 ∷ 75 ∷ 0 ∷ 0 ∷ 0 ∷ 0 ∷ 0 ∷ 0 ∷ 0 ∷ 0 ∷ 0 ∷ 0 ∷ 0
    ∷ 0 ∷ 0 ∷ 0 ∷ 0 ∷ 0 ∷ 0 ∷ 0 ∷ 0 ∷ 0 ∷ 0 ∷ 0 ∷ 0 ∷ 0 ∷ 0 ∷ 0 ∷ 95 ∷ 83 ∷ 53 ∷ 95 ∷ 0 ∷ 0 ∷ 0 ∷ 0
    ∷ 0 ∷ 13 ∷ 0 ∷ 3 ∷ []

abbrev sample : Memory
sample a = if ltb a 0xE0000 then 0 else get_or sample_bytes (a - 0xE0000) 0

sample_fadt : find_fadt sample ≡ 0xE0050
unfolding find_fadt find_rsdp find_table map_sdt
sample_fadt = refl

sample_dsdt : dsdt_address sample 0xE0050 76 ≡ 0xE00A0
unfolding dsdt_address
sample_dsdt = refl

sample_s5 : find_s5 sample 0xE00A0 ≡ some (13, 3)
unfolding find_s5 map_sdt
sample_s5 = refl

reboot_run : reboot_system (3 ∷ 2 ∷ 1 ∷ 2 ∷ []) ≡ some (outb 0x64 0xFE ∷ [])
unfolding reboot_system
reboot_run = refl

find_rsdp_lem_example :
    Found (λ i. is_rsdp sample (0xE0000 + 16 * i)) (λ i. 0xE0000 + 16 * i) 8192 (find_rsdp sample)
find_rsdp_lem_example = find_rsdp_lem sample

find_table_lem_run :
    Found
      (λ i. is_table sample sig_facp (entry_at sample false (0xE0020 + 36 + entry_size false * i)))
      (λ i. entry_at sample false (0xE0020 + 36 + entry_size false * i))
      1
      0xE0050
unfolding find_table map_sdt
find_table_lem_run = find_table_lem sample 0xE0020 sig_facp false (λ e. omega (arith, e))

map_sdt_lem_run :
    ((map_sdt sample 0xE0051 ≡ 0xE0051)
      × (◌≢◌ {A = ℕ} 0xE0051 0)
      × (36 ≤ read_u32 sample 0xE0055)
      × (read_u32 sample 0xE0055 ≤ 0x200000)
      × (byte_sum sample 0xE0051 (read_u32 sample 0xE0055) % 256 ≡ 0))
    ⊎ ((map_sdt sample 0xE0051 ≡ 0)
        × ((◌≡◌ {A = ℕ} 0xE0051 0)
            ⊎ (read_u32 sample 0xE0055 < 36)
            ⊎ (0x200000 < read_u32 sample 0xE0055)
            ⊎ (byte_sum sample 0xE0051 (read_u32 sample 0xE0055) % 256 ≢ 0)))
map_sdt_lem_run = map_sdt_lem sample 0xE0051

find_s5_lem_example : FoundS5 sample 0xE00A0 48 0 (some (13, 3))
unfolding find_s5 map_sdt
find_s5_lem_example = find_s5_lem sample 0xE00A0 (λ e. omega (arith, e))

power_off-ArePowerWrites_example : ArePowerWrites (power_off sample)
power_off-ArePowerWrites_example = power_off-ArePowerWrites sample
