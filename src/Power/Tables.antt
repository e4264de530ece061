-- ===== src/Power/Tables.antt =====
-- What the searches of power/poweroff.c find: the first place that passes the tests.
use kernel_c.Prelude.{
  ℕ, zero, suc, ◌+◌, ◌-◌, ◌*◌, ◌/◌, ◌%◌, ◌<◌, ◌≤◌, ◌≡◌, ◌≢◌, ◌↔◌, ◌⊎◌, inl, inr, refl, sym, ap, ◌∙◌,
  Bool, true, false, ◌&&◌, ◌||◌, not, Option, none, some, if◌then◌else◌, ◌==◌, ==_ne, ==_iff, ltb,
  arith, Bool-cases, u8, le→not_ltb, List, ℕ_discrete, subst,
}
use kernel_c.Power.{
  Memory, same_bytes, checksum_loop, checksum_ok, read_u32, sig_s5, is_rsdp, rsdp_loop, find_rsdp,
  map_sdt, entry_at, entry_size, table_loop, find_table, s5_loop, find_s5,
}

-- the first of `n` places that passes, as a value, or 0
pub data Found (ok : ℕ → Bool) (value : ℕ → ℕ) (n r : ℕ) : Type 0 where
  hit :
      (i : ℕ)
      → i < n
      → ok i ≡ true
      → ((j : ℕ) → j < i → ok j ≡ false)
      → r ≡ value i
      → Found ok value n r
  miss : ((j : ℕ) → j < n → ok j ≡ false) → r ≡ 0 → Found ok value n r

below_suc :
    (ok : ℕ → Bool) (n : ℕ)
    → ok 0 ≡ false
    → ((j : ℕ) → j < n → ok (j + 1) ≡ false)
    → (j : ℕ) → j < n + 1
    → ok j ≡ false
below_suc ok n first rest zero lt = first
below_suc ok n first rest (suc j) lt = ap ok (omega arith) ∙ rest j (omega arith)

Found-suc :
    (ok : ℕ → Bool) (value : ℕ → ℕ) (n r : ℕ)
    → ok 0 ≡ false
    → Found (λ i. ok (i + 1)) (λ i. value (i + 1)) n r
    → Found ok value (suc n) r
Found-suc ok value n r first (hit i lt yes_i before e) =
    hit (i + 1) (omega arith) yes_i (below_suc ok i first before) e
Found-suc ok value n r first (miss none_of e) =
    miss (λ j lt. below_suc ok n first none_of j (omega arith)) e

pub byte_sum : Memory → ℕ → ℕ → ℕ
byte_sum m p zero = 0
byte_sum m p (suc n) = m p + byte_sum m (p + 1) n

checksum_loop_lem :
    (m : Memory) (p n s : ℕ) → s < 256 → checksum_loop m p n s ≡ (s + byte_sum m p n) % 256
unfolding byte_sum
checksum_loop_lem m p zero s lt = omega arith
checksum_loop_lem m p (suc n) s lt =
    checksum_loop_lem m (p + 1) n (u8 (s + m p)) (omega arith) ∙ omega arith

-- `checksum_ok` holds exactly if the bytes add up to a multiple of 256.
pub checksum_ok_lem :
    (m : Memory) (p n : ℕ) → (checksum_ok m p n ≡ true) ↔ (byte_sum m p n % 256 ≡ 0)
unfolding checksum_ok
checksum_ok_lem m p n =
    let sum : checksum_loop m p n 0 ≡ byte_sum m p n % 256 =
      checksum_loop_lem m p n 0 (omega arith) ∙ omega arith in
    (
      λ h. sym sum ∙ (==_iff (checksum_loop m p n 0) 0).0 h,
      λ e. (==_iff (checksum_loop m p n 0) 0).1 (sum ∙ e),
    )

rsdp_loop_lem :
    (n : ℕ) (m : Memory) (a : ℕ) (at : ℕ → ℕ)
    → ((i : ℕ) → at i ≡ a + 16 * i)
    → Found (λ i. is_rsdp m (at i)) at n (rsdp_loop n m a)
unfolding rsdp_loop
rsdp_loop_lem zero m a at place = miss (λ j lt. absurd (omega arith)) refl
rsdp_loop_lem (suc n) m a at place =
    let first : at 0 ≡ a = omega (arith, place 0) in
    elim (Bool-cases (is_rsdp m a)) [
      | inl good ↦ rw good (
          hit 0 (omega arith) (ap (is_rsdp m) first ∙ good) (λ j lt. absurd (omega arith))
            (sym first))
      | inr bad ↦ rw bad (
          Found-suc (λ i. is_rsdp m (at i)) at n (rsdp_loop n m (a + 16))
            (ap (is_rsdp m) first ∙ bad)
            (rsdp_loop_lem n m (a + 16) (λ i. at (i + 1)) (λ i. omega (arith, place (i + 1)))))
    ]

-- `find_rsdp` returns the first multiple of 16 from 0xE0000 to 0xFFFF0 where the signature and a checksum
-- are right, and 0 exactly if there is none.
pub find_rsdp_lem :
    (m : Memory)
    → Found (λ i. is_rsdp m (0xE0000 + 16 * i)) (λ i. 0xE0000 + 16 * i) 8192 (find_rsdp m)
unfolding find_rsdp
find_rsdp_lem m = rsdp_loop_lem 8192 m 0xE0000 (λ i. 0xE0000 + 16 * i) (λ i. refl)

-- A table that `map_sdt` accepts.
abbrev pub is_table : Memory → List ℕ → ℕ → Bool
is_table m sig e = not (map_sdt m e == 0) && same_bytes m e sig

map_sdt_cases :
    (phys len sum : ℕ) (t : Bool)
    → (t ≡ true) ↔ (sum ≡ 0)
    → (((if phys == 0
            then 0
            else if ltb len 36 || ltb 0x200000 len
            then 0
            else if not t
            then 0
            else phys)
          ≡ phys)
        × (phys ≢ 0)
        × (36 ≤ len)
        × (len ≤ 0x200000)
        × (sum ≡ 0))
      ⊎ (((if phys == 0
              then 0
              else if ltb len 36 || ltb 0x200000 len
              then 0
              else if not t
              then 0
              else phys)
            ≡ 0)
          × ((phys ≡ 0) ⊎ (len < 36) ⊎ (0x200000 < len) ⊎ (sum ≢ 0)))
map_sdt_cases phys len sum true iff = ground (arith, iff.0 refl)
map_sdt_cases phys len sum false iff =
    let bad : sum ≢ 0 = λ e. cc (iff.1 e) in inr (ground arith, inr (inr (inr bad)))

-- `map_sdt` accepts a pointer exactly if it is not NULL, the length in the header is from 36 to 2 MiB and
-- the checksum is right, and then returns it; otherwise it returns NULL.
pub map_sdt_lem :
    (m : Memory) (phys : ℕ)
    → ((map_sdt m phys ≡ phys)
        × (phys ≢ 0)
        × (36 ≤ read_u32 m (phys + 4))
        × (read_u32 m (phys + 4) ≤ 0x200000)
        × (byte_sum m phys (read_u32 m (phys + 4)) % 256 ≡ 0))
      ⊎ ((map_sdt m phys ≡ 0)
          × ((phys ≡ 0)
              ⊎ (read_u32 m (phys + 4) < 36)
              ⊎ (0x200000 < read_u32 m (phys + 4))
              ⊎ (byte_sum m phys (read_u32 m (phys + 4)) % 256 ≢ 0)))
unfolding map_sdt
map_sdt_lem m phys =
    map_sdt_cases phys (read_u32 m (phys + 4)) (byte_sum m phys (read_u32 m (phys + 4)) % 256)
      (checksum_ok m phys (read_u32 m (phys + 4))) (checksum_ok_lem m phys (read_u32 m (phys + 4)))

table_loop_lem :
    (n : ℕ) (m : Memory) (xsdt : Bool) (sig : List ℕ) (p : ℕ) (at : ℕ → ℕ)
    → ((i : ℕ) → at i ≡ p + entry_size xsdt * i)
    → Found
        (λ i. is_table m sig (entry_at m xsdt (at i)))
        (λ i. entry_at m xsdt (at i))
        n
        (table_loop n m xsdt sig p)
unfolding table_loop
table_loop_lem zero m xsdt sig p at place = miss (λ j lt. absurd (omega arith)) refl
table_loop_lem (suc n) m xsdt sig p at place =
    let first : at 0 ≡ p = place 0 ∙ omega arith in
    let ok : ℕ → Bool = λ i. is_table m sig (entry_at m xsdt (at i)) in
    let here : ok 0 ≡ is_table m sig (entry_at m xsdt p) =
      ap (λ q. is_table m sig (entry_at m xsdt q)) first in
    elim (Bool-cases (is_table m sig (entry_at m xsdt p))) [
      | inl good ↦ rw good (
          hit 0 (omega arith) (here ∙ good) (λ j lt. absurd (omega arith))
            (ap (entry_at m xsdt) (sym first)))
      | inr bad ↦ rw bad (
          Found-suc ok (λ i. entry_at m xsdt (at i)) n _ (here ∙ bad)
            (table_loop_lem n m xsdt sig (p + entry_size xsdt) (λ i. at (i + 1))
              (next_place xsdt p at place)))
    ]
  where
    next_place :
        (xsdt : Bool) (p : ℕ) (at : ℕ → ℕ)
        → ((i : ℕ) → at i ≡ p + entry_size xsdt * i)
        → (i : ℕ) → at (i + 1) ≡ (p + entry_size xsdt) + entry_size xsdt * i
    next_place true p at place i = omega (arith, place (i + 1))
    next_place false p at place i = omega (arith, place (i + 1))

-- In a root table that `map_sdt` accepts, `find_table` returns the first entry that points to an accepted
-- table with the signature, and 0 if there is none. It looks at as many entries as fit between the
-- header and the length, 8 bytes each in an XSDT and 4 in an RSDT.
pub find_table_lem :
    (m : Memory) (table : ℕ) (sig : List ℕ) (xsdt : Bool)
    → map_sdt m table ≢ 0
    → Found
        (λ i. is_table m sig (entry_at m xsdt (table + 36 + entry_size xsdt * i)))
        (λ i. entry_at m xsdt (table + 36 + entry_size xsdt * i))
        ((read_u32 m (table + 4) - 36) / entry_size xsdt)
        (find_table m table sig xsdt)
unfolding find_table
find_table_lem m table sig xsdt ne = rw (==_ne (map_sdt m table) 0 ne) (
    table_loop_lem ((read_u32 m (table + 4) - 36) / entry_size xsdt) m xsdt sig (table + 36)
      (λ i. table + 36 + entry_size xsdt * i) (λ i. refl))

-- the sleep types stand 9 and 11 bytes behind the name
abbrev pub is_s5 : Memory → ℕ → ℕ → ℕ → Bool
is_s5 m p len i = same_bytes m (p + i) sig_s5 && ltb (i + 10) len

-- what `find_s5` says for the name at `i`, or that there is none
pub data FoundS5 (m : Memory) (p len start : ℕ) : Option (ℕ × ℕ) → Type 0 where
  s5_hit :
      (i : ℕ)
      → start ≤ i
      → is_s5 m p len i ≡ true
      → ((j : ℕ) → start ≤ j → j < i → is_s5 m p len j ≡ false)
      → FoundS5 m p len start (some (m (p + i + 9), m (p + i + 11)))
  s5_miss : ((j : ℕ) → start ≤ j → is_s5 m p len j ≡ false) → FoundS5 m p len start none

s5_value :
    (m : Memory) (p i : ℕ)
    → ◌≡◌ {A = Option (ℕ × ℕ)}
        (some (m (p + (i + 4) + 5), m (p + (i + 4) + 7)))
        (some (m (p + i + 9), m (p + i + 11)))
s5_value m p i =
    let a : p + (i + 4) + 5 ≡ p + i + 9 = omega arith in
    let b : p + (i + 4) + 7 ≡ p + i + 11 = omega arith in rw (a, b) refl

s5_test :
    (m : Memory) (p len i : ℕ)
    → (same_bytes m (p + i) sig_s5 && ltb (i + 4 + 6) len) ≡ is_s5 m p len i
s5_test m p len i = let e : i + 4 + 6 ≡ i + 10 = omega arith in rw e refl

no_room : (m : Memory) (p len j : ℕ) → len ≤ j + 10 → is_s5 m p len j ≡ false
no_room m p len j le = elim (Bool-cases (same_bytes m (p + j) sig_s5)) [
  | inl same ↦ rw (same, le→not_ltb (j + 10) len le) refl
  | inr other ↦ rw other refl
]

FoundS5-suc :
    (m : Memory) (p len i : ℕ) (r : Option (ℕ × ℕ))
    → is_s5 m p len i ≡ false
    → FoundS5 m p len (i + 1) r
    → FoundS5 m p len i r
FoundS5-suc m p len i r first (s5_hit k le good before) = s5_hit k (omega arith) good (λ j from lt.
    elim (ℕ_discrete j i) [
      | yes e ↦ ap (is_s5 m p len) e ∙ first
      | no ne ↦ before j (omega (arith, from, ne)) lt
    ])
FoundS5-suc m p len i r first (s5_miss none_of) = s5_miss (λ j from. elim (ℕ_discrete j i) [
  | yes e ↦ ap (is_s5 m p len) e ∙ first
  | no ne ↦ none_of j (omega (arith, from, ne))
])

s5_loop_lem :
    (n : ℕ) (m : Memory) (p len i : ℕ) → len ≤ n + i → FoundS5 m p len i (s5_loop n m p len i)
unfolding s5_loop
s5_loop_lem zero m p len i enough =
    s5_miss (λ j from. no_room m p len j (omega (arith, from, enough)))
s5_loop_lem (suc n) m p len i enough = elim (Bool-cases (ltb (i + 4) len)) [
  | inr out ↦ rw out (s5_miss (λ j from. no_room m p len j (ground (arith, out, from))))
  | inl in_table ↦
      rw (in_table, s5_test m p len i)
        (elim (Bool-cases (is_s5 m p len i)) [
          | inl good ↦ rw good (
              subst (FoundS5 m p len i) (sym (s5_value m p i))
                (s5_hit i (omega arith) good (λ j from lt. absurd (omega (arith, from, lt)))))
          | inr bad ↦ rw bad (
              FoundS5-suc m p len i (s5_loop n m p len (i + 1)) bad
                (s5_loop_lem n m p len (i + 1) (omega (arith, enough))))
        ])
]

-- In a DSDT that `map_sdt` accepts, `find_s5` finds the first `_S5_` with more than ten bytes between its
-- first byte and the end of the table, and returns the bytes 9 and 11 behind that; the second
-- may be the one just past the table. Without such a name it fails.
pub find_s5_lem :
    (m : Memory) (dsdt : ℕ)
    → map_sdt m dsdt ≢ 0
    → FoundS5 m dsdt (read_u32 m (dsdt + 4)) 0 (find_s5 m dsdt)
unfolding find_s5
find_s5_lem m dsdt ne =
    rw (==_ne (map_sdt m dsdt) 0 ne)
      (s5_loop_lem (read_u32 m (dsdt + 4)) m dsdt (read_u32 m (dsdt + 4)) 0 (omega arith))
