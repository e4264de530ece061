-- ===== src/Fs/Files/Search.antt =====
-- What a search of the table of entries by name finds.
use kernel_c.Prelude.{
  ℕ, zero, suc, ◌+◌, refl, ◌≤◌, ◌<◌, ◌≡◌, ◌≢◌, inl, inr, refl, ap, ◌∙◌, arith, Bool, true, false,
  not, ◌&&◌, none, some, ◌>>=◌, List, length, if◌then◌else◌, ==_self, pos, Option-cases, ℕ_discrete,
}
use kernel_c.Fs.Table.{
  Entries, max_entries, name_max, first_entry, entry_index, is_child, nameeq, new_entry,
}
use kernel_c.Fs.Table.Tree.{first_entry_found, first_entry-none}
use kernel_c.Fs.Table.Names.{nameeq-take}
use kernel_c.Fs.Files.{matches, nonempty, fs_find_in_dir, same_file, duplicate}

-- the only index with a property is the one found
pub first_entry-only :
    (test : ℕ → Bool) (k j : ℕ)
    → j < k
    → test j ≡ true
    → ((i : ℕ) → i < k → i ≢ j → test i ≡ false)
    → first_entry test k 0 ≡ some j
first_entry-only test k j below holds others = elim (Option-cases (first_entry test k 0)) [
  | inl e ↦ absurd (cc (first_entry-none test k 0 e j (omega arith) (omega (arith, below)), holds))
  | inr (r, e) ↦
      let (_, hi, hit) = first_entry_found test k 0 r e in
      elim (ℕ_discrete r j) [
        | yes same ↦ e ∙ ap some same
        | no ne ↦ absurd (cc (others r (omega (arith, hi)) ne, hit))
      ]
]

-- a condition that implies another that no index has
first_entry-none_by :
    (test weaker : ℕ → Bool) (k : ℕ)
    → ((i : ℕ) → test i ≡ true → weaker i ≡ true)
    → first_entry weaker k 0 ≡ none
    → first_entry test k 0 ≡ none
first_entry-none_by test weaker k implies e = elim (Option-cases (first_entry test k 0)) [
  | inl missing ↦ missing
  | inr (r, found) ↦
      let (_, hi, hit) = first_entry_found test k 0 r found in
      absurd (cc (first_entry-none weaker k 0 e r (omega arith) (omega (arith, hi)), implies r hit))
]

file_matches :
    (child dir names exts other : Bool)
    → ((child && not dir && names) && exts) ≡ true
    → (child && (if dir then other else names && exts)) ≡ true
file_matches child dir names exts other e = ground arith

pub duplicate-none :
    (es : Entries) (name ext : List ℕ) (p : ℕ)
    → first_entry (matches es name ext p) max_entries 0 ≡ none
    → duplicate es name (some ext) p ≡ some false
unfolding duplicate
duplicate-none es name ext p e =
    rw
      (
        duplicate,
        first_entry-none_by (λ i. same_file es name p i && nameeq (es i).ext ext name_max)
            (matches es name ext p) max_entries
            (λ i t.
              file_matches (is_child es p i) (es i).is_dir (nameeq (es i).name name name_max)
                (nameeq (es i).ext ext name_max)
                (not (nonempty ext) && nameeq (es i).name name name_max) t)
            e,
      )
      refl

-- the new entry of a file is the one that a search by its name finds
pub new_entry_found :
    (es es' : Entries) (name ext : List ℕ) (p i c n : ℕ)
    → i < max_entries
    → length name ≤ 63
    → length ext ≤ 63
    → first_entry (matches es name ext p) max_entries 0 ≡ none
    → es' i ≡ record (new_entry name ext p false c) { size = n }
    → ((j : ℕ) → j ≢ i → es' j ≡ es j)
    → first_entry (matches es' name ext p) max_entries 0 ≡ some i
new_entry_found es es' name ext p i c n below short xshort missing here others =
    first_entry-only (matches es' name ext p) max_entries i below
      (rw (here, ==_self p, (nameeq-take name).1 short, (nameeq-take ext).1 xshort) refl)
      (λ j lt ne. rw (others j ne) (
        first_entry-none (matches es name ext p) max_entries 0 missing j (omega arith)
          (omega (arith, lt))))

pub entry_index-below : (p : ℕ) → p < max_entries → entry_index (pos p) ≡ some p
entry_index-below p below = ground arith

pub fs_find_in_dir_entry :
    (es : Entries) (name ext : List ℕ) (p : ℕ)
    → p < max_entries
    → fs_find_in_dir es (some name) (some ext) (pos p)
      ≡ first_entry (matches es name ext p) max_entries 0
unfolding fs_find_in_dir
fs_find_in_dir_entry es name ext p below =
    ap (λ o. o >>= λ q. first_entry (matches es name ext q) max_entries 0)
      (entry_index-below p below)

pub first_entry-same :
    (f g : ℕ → Bool) (k i : ℕ) → ((j : ℕ) → f j ≡ g j) → first_entry f k i ≡ first_entry g k i
unfolding first_entry
first_entry-same f g zero i same = refl
first_entry-same f g (suc k) i same = rw (same i, first_entry-same f g k (i + 1) same) refl
