-- ===== src/Fs/Table/Tree.antt =====
-- The entries in use form a tree by parent indices, and what makes or removes one entry keeps it so.
use kernel_c.Prelude.{
  ℕ, zero, suc, ◌+◌, ◌≤◌, ◌<◌, ◌≡◌, ◌≢◌, inl, inr, refl, ap, ◌∙◌, arith, Bool, true, false, not,
  none, some, if◌then◌else◌, ◌==◌, ==_ne, ==_self, Bool-cases, ℕ_discrete, Option-cases, lt→not_leb,
}
use kernel_c.Fs.Table.{
  Entry, Entries, max_entries, put, set_used, first_entry, find_free_entry, is_child, has_children,
}

-- The root is a directory in use and has no parent. Every other entry in use has a parent that is a
-- directory in use and of smaller depth, for some depth of the entries: so the parents run into no cycle.
pub record IsTree (es : Entries) : Type 0 where
  pub root_used : (es 0).used ≡ true
  pub root_dir : (es 0).is_dir ≡ true
  pub root_parent : (es 0).parent ≡ 0xFFFF
  pub parent_below :
      (i : ℕ) → 0 < i → i < max_entries → (es i).used ≡ true → (es i).parent < max_entries
  pub parent_used :
      (i : ℕ) → 0 < i → i < max_entries → (es i).used ≡ true → (es (es i).parent).used ≡ true
  pub parent_dir :
      (i : ℕ) → 0 < i → i < max_entries → (es i).used ≡ true → (es (es i).parent).is_dir ≡ true
  pub depth : ℕ → ℕ
  pub parent_above :
      (i : ℕ) → 0 < i → i < max_entries → (es i).used ≡ true → depth (es i).parent < depth i

-- the entry `n` steps up
abbrev pub ancestor : Entries → ℕ → ℕ → ℕ
ancestor es zero i = i
ancestor es (suc n) i = ancestor es n (es i).parent

-- What a tree is for: from every entry in use the parents lead to the root.
pub root_above :
    (es : Entries) (fuel i : ℕ) (is : IsTree es)
    → i < max_entries
    → (es i).used ≡ true
    → is.depth i < fuel
    → (n : ℕ) × (ancestor es n i ≡ 0)
root_above es zero i is lt used deep = absurd (omega arith)
root_above es (suc fuel) zero is lt used deep = (0, refl)
root_above es (suc fuel) (suc i) is lt used deep =
    let (n, e) =
      root_above es fuel (es (suc i)).parent is (is.parent_below (suc i) (omega arith) lt used)
        (is.parent_used (suc i) (omega arith) lt used)
        (omega (arith, deep, is.parent_above (suc i) (omega arith) lt used)) in
    (suc n, e)

pub first_entry_found :
    (test : ℕ → Bool) (k i r : ℕ)
    → first_entry test k i ≡ some r
    → (i ≤ r) × (r < i + k) × (test r ≡ true)
unfolding first_entry
first_entry_found test zero i r e = absurd cc
first_entry_found test (suc k) i r e = elim (Bool-cases (test i)) [
  | inl hit ↦ let same : i ≡ r = ground arith in (omega arith, omega arith, cc)
  | inr miss ↦
      let found : (i + 1 ≤ r) × (r < i + 1 + k) × (test r ≡ true) =
        first_entry_found test k (i + 1) r (rw miss at e) in
      (omega arith, omega arith, found.2)
]

pub first_entry-none :
    (test : ℕ → Bool) (k i : ℕ)
    → first_entry test k i ≡ none
    → (j : ℕ) → i ≤ j
    → j < i + k
    → test j ≡ false
unfolding first_entry
first_entry-none test zero i e j lo hi = absurd (omega arith)
first_entry-none test (suc k) i e j lo hi = elim (Bool-cases (test i)) [
  | inl hit ↦ absurd (ground arith)
  | inr miss ↦ elim (ℕ_discrete j i) [
    | yes same ↦ cc
    | no ne ↦ first_entry-none test k (i + 1) (rw miss at e) j (omega arith) (omega arith)
  ]
]

put_self : (es : Entries) (i : ℕ) (e : Entry) → put es i e i ≡ e
put_self es i e = rw (==_self i) refl

put_other : (es : Entries) (i j : ℕ) (e : Entry) → j ≢ i → put es i e j ≡ es j
put_other es i j e ne = rw (==_ne j i ne) refl

-- a new entry below a directory
pub IsTree-new :
    (es : Entries) (i p : ℕ) (e : Entry)
    → IsTree es
    → 0 < i
    → (es i).used ≡ false
    → p < max_entries
    → (es p).used ≡ true
    → (es p).is_dir ≡ true
    → e.parent ≡ p
    → IsTree (put es i e)
IsTree-new es i p e is lo unused below used dir at = record {
  root_used =
      ap (λ (x : Entry). x.used) (put_other es i 0 e (λ z. omega (arith, lo, z))) ∙ is.root_used;
  root_dir =
      ap (λ (x : Entry). x.is_dir) (put_other es i 0 e (λ z. omega (arith, lo, z))) ∙ is.root_dir;
  root_parent =
      ap (λ (x : Entry). x.parent) (put_other es i 0 e (λ z. omega (arith, lo, z)))
      ∙ is.root_parent;
  parent_below = λ j jlo jhi u. elim (ℕ_discrete j i) [
    | yes same ↦ rw (same, put_self es i e, at) below
    | no ne ↦
        rw (put_other es i j e ne) (is.parent_below j jlo jhi (rw (put_other es i j e ne) at u))
  ];
  parent_used = λ j jlo jhi u. elim (ℕ_discrete j i) [
    | yes same ↦
        rw (same, put_self es i e)
          (ap (λ q. (put es i e q).used) at
            ∙ ap (λ (x : Entry). x.used) (put_other es i p e (apart p used))
            ∙ used)
    | no ne ↦ kept_used j ne (is.parent_used j jlo jhi (rw (put_other es i j e ne) at u))
  ];
  parent_dir = λ j jlo jhi u. elim (ℕ_discrete j i) [
    | yes same ↦
        rw (same, put_self es i e)
          (ap (λ q. (put es i e q).is_dir) at
            ∙ ap (λ (x : Entry). x.is_dir) (put_other es i p e (apart p used))
            ∙ dir)
    | no ne ↦
        kept_dir j ne (is.parent_used j jlo jhi (rw (put_other es i j e ne) at u))
          (is.parent_dir j jlo jhi (rw (put_other es i j e ne) at u))
  ];
  depth = λ j. if j == i then is.depth p + 1 else is.depth j;
  parent_above = λ j jlo jhi u. elim (ℕ_discrete j i) [
    | yes same ↦ rw (same, put_self es i e, at, ==_ne p i (apart p used), ==_self i) (omega arith)
    | no ne ↦
        let v : (es j).used ≡ true = rw (put_other es i j e ne) at u in
        rw
          (
            put_other es i j e ne,
            ==_ne (es j).parent i (apart (es j).parent (is.parent_used j jlo jhi v)),
            ==_ne j i ne,
          )
          (is.parent_above j jlo jhi v)
  ];
}
  where
    apart : (q : ℕ) → (es q).used ≡ true → q ≢ i
    apart q u z = cc (ap (λ j. (es j).used) z)

    kept_used :
        (j : ℕ)
        → j ≢ i
        → (es (es j).parent).used ≡ true
        → (put es i e (put es i e j).parent).used ≡ true
    kept_used j ne u =
        rw (put_other es i j e ne, put_other es i (es j).parent e (apart (es j).parent u)) u

    kept_dir :
        (j : ℕ)
        → j ≢ i
        → (es (es j).parent).used ≡ true
        → (es (es j).parent).is_dir ≡ true
        → (put es i e (put es i e j).parent).is_dir ≡ true
    kept_dir j ne u d =
        rw (put_other es i j e ne, put_other es i (es j).parent e (apart (es j).parent u)) d

-- an entry that is nobody's parent goes
pub IsTree-gone :
    (es : Entries) (i : ℕ)
    → IsTree es
    → 0 < i
    → ((j : ℕ) → 0 < j → j < max_entries → (es j).used ≡ true → (es j).parent ≢ i)
    → IsTree (set_used es i false)
IsTree-gone es i is lo childless = record {
  root_used =
      ap (λ (x : Entry). x.used)
        (put_other es i 0 (record (es i) { used = false }) (λ z. omega (arith, lo, z)))
      ∙ is.root_used;
  root_dir =
      ap (λ (x : Entry). x.is_dir)
        (put_other es i 0 (record (es i) { used = false }) (λ z. omega (arith, lo, z)))
      ∙ is.root_dir;
  root_parent =
      ap (λ (x : Entry). x.parent)
        (put_other es i 0 (record (es i) { used = false }) (λ z. omega (arith, lo, z)))
      ∙ is.root_parent;
  parent_below = λ j jlo jhi u.
      let ne : j ≢ i = other j u in
      rw (here j ne) (is.parent_below j jlo jhi (rw (here j ne) at u));
  parent_used = λ j jlo jhi u.
      let ne : j ≢ i = other j u in
      let v : (es j).used ≡ true = rw (here j ne) at u in
      rw (here j ne, here (es j).parent (childless j jlo jhi v)) (is.parent_used j jlo jhi v);
  parent_dir = λ j jlo jhi u.
      let ne : j ≢ i = other j u in
      let v : (es j).used ≡ true = rw (here j ne) at u in
      rw (here j ne, here (es j).parent (childless j jlo jhi v)) (is.parent_dir j jlo jhi v);
  depth = is.depth;
  parent_above = λ j jlo jhi u.
      let ne : j ≢ i = other j u in
      rw (here j ne) (is.parent_above j jlo jhi (rw (here j ne) at u));
}
  where
    here : (j : ℕ) → j ≢ i → set_used es i false j ≡ es j
    here j ne = put_other es i j (record (es i) { used = false }) ne

    other : (j : ℕ) → (set_used es i false j).used ≡ true → j ≢ i
    other j u z = ground arith

pub find_free_entry_lem :
    (es : Entries) (i : ℕ)
    → find_free_entry es ≡ some i
    → (0 < i) × (i < max_entries) × ((es i).used ≡ false)
unfolding find_free_entry
find_free_entry_lem es i e =
    let found : (1 ≤ i) × (i < 1 + 511) × (not (es i).used ≡ true) =
      first_entry_found (λ j. not (es j).used) 511 1 i e in
    (found.0, omega (arith, found.1), ground arith)

pub has_children_lem :
    (es : Entries) (i : ℕ)
    → i < max_entries
    → has_children es i ≡ false
    → (j : ℕ) → j < max_entries
    → (es j).used ≡ true
    → (es j).parent ≢ i
unfolding has_children
has_children_lem es i below childless j lt used z =
    elim (Option-cases (first_entry (is_child es i) max_entries 0)) [
      | inl e ↦
          let no : is_child es i j ≡ false =
            first_entry-none (is_child es i) max_entries 0 e j (omega arith) (omega arith) in
          ground arith
      | inr hit ↦ absurd (cc (rw (lt→not_leb max_entries i below, hit.1) at childless))
    ]
