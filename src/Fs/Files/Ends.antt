-- ===== src/Fs/Files/Ends.antt =====
-- What `write_contents` and `overwrite` leave: they return, and keep the tree.
use kernel_c.Prelude.{
  ℕ, ◌*◌, ◌≤◌, ◌<◌, ◌≡◌, inl, inr, refl, sym, ap, ◌∙◌, arith, Option, some, ◌>>=◌, ℤ, pos, negsuc,
  List, length, ==_self, ==_ne, ℕ_discrete, u32,
}
use kernel_c.Fs.{Fat, fat_entries, end_of_chain, cluster_size, set_fat, alloc_cluster}
use kernel_c.Fs.Chains.{alloc_cluster_lem, free_cluster_chain_ends}
use kernel_c.Fs.Roundtrip.{fs_read-write}
use kernel_c.Fs.Table.{Entry, Entries, Volume, put}
use kernel_c.Fs.Table.Tree.{IsTree}
use kernel_c.Fs.Files.{set_file_size, write_contents, start_over, overwrite}
use kernel_c.Fs.Files.Made.{write_contents-ends}

-- only these three fields matter
IsTree-same :
    (es es' : Entries)
    → ((i : ℕ) → (es' i).used ≡ (es i).used)
    → ((i : ℕ) → (es' i).is_dir ≡ (es i).is_dir)
    → ((i : ℕ) → (es' i).parent ≡ (es i).parent)
    → IsTree es
    → IsTree es'
IsTree-same es es' used dir parent is = record {
  root_used = used 0 ∙ is.root_used;
  root_dir = dir 0 ∙ is.root_dir;
  root_parent = parent 0 ∙ is.root_parent;
  parent_below = λ i lo hi u. rw (parent i) (is.parent_below i lo hi (sym (used i) ∙ u));
  parent_used =
      λ i lo hi u. rw (parent i) (used (es i).parent ∙ is.parent_used i lo hi (sym (used i) ∙ u));
  parent_dir =
      λ i lo hi u. rw (parent i) (dir (es i).parent ∙ is.parent_dir i lo hi (sym (used i) ∙ u));
  depth = is.depth;
  parent_above = λ i lo hi u. rw (parent i) (is.parent_above i lo hi (sym (used i) ∙ u));
}

-- a new size, or a new first cluster
IsTree-changed :
    (es : Entries) (i c n : ℕ)
    → IsTree es
    → IsTree (put es i (record (es i) { first_cluster = c; size = n }))
IsTree-changed es i c n is =
    IsTree-same es (put es i e) (keeps (λ e. e.used) refl) (keeps (λ e. e.is_dir) refl)
      (keeps (λ e. e.parent) refl) is
  where
    e : Entry
    e = record (es i) { first_cluster = c; size = n }

    keeps : {A : Type 0} (f : Entry → A) → f e ≡ f (es i) → (j : ℕ) → f (put es i e j) ≡ f (es j)
    keeps f same j = elim (ℕ_discrete j i) [
      | yes here ↦
          ap (λ q. f (put es i e q)) here ∙ rw (==_self i) same ∙ ap (λ q. f (es q)) (sym here)
      | no ne ↦ rw (==_ne j i ne) refl
    ]

-- the file's chain is one cluster, at its end
pub record IsStart (v : Volume) (i : ℕ) : Type 0 where
  pub lo : 2 ≤ (v.entries i).first_cluster
  pub hi : (v.entries i).first_cluster < fat_entries
  pub at_end : v.fat (v.entries i).first_cluster ≡ end_of_chain

-- the call returns, with a tree
unfoldable pub Ends : Option (ℤ × Volume) → Type 0
Ends o = (r : ℤ × Volume) × (o ≡ some r) × IsTree r.1.entries

write_contents_empty :
    (fuel : ℕ) (v : Volume) (idx : ℕ) (content : List ℕ)
    → length content ≡ 0
    → write_contents fuel v idx content
      ≡ some (
        pos 0,
        record (set_file_size v idx 0) {
          fat = set_fat v.fat (v.entries idx).first_cluster end_of_chain;
        },
      )
unfolding write_contents
write_contents_empty fuel v idx content e = rw e refl

pub write_contents-Ends :
    (fuel : ℕ) (v : Volume) (idx : ℕ) (content : List ℕ)
    → length content ≤ fuel * cluster_size
    → IsStart v idx
    → IsTree v.entries
    → Ends (write_contents fuel v idx content)
unfolding Ends
write_contents-Ends fuel v idx content room start is = elim (ℕ_discrete (length content) 0) [
  | yes e ↦ (
    _,
    write_contents_empty fuel v idx content e,
    IsTree-changed v.entries idx (v.entries idx).first_cluster 0 is,
  )
  | no ne ↦
      let (s, stored, _, _, _, _) =
        fs_read-write fuel v.fat v.disk (v.entries idx).first_cluster content start.lo start.hi
          start.at_end (omega (arith, ne)) room in
      (
        _,
        write_contents-ends fuel v idx content s (omega (arith, ne)) stored,
        IsTree-changed v.entries idx (v.entries idx).first_cluster (u32 s.count) is,
      )
]

start_over-Ends :
    (fuel : ℕ) (v : Volume) (idx : ℕ) (content : List ℕ) (f : Fat)
    → length content ≤ fuel * cluster_size
    → IsTree v.entries
    → Ends (start_over fuel v idx content (alloc_cluster f))
unfolding Ends start_over
start_over-Ends fuel v idx content f room is = elim (alloc_cluster_lem f) [
  | inl (full, _) ↦ ((negsuc 4, record v { fat = f }), ap (start_over fuel v idx content) full, is)
  | inr (c, got, lo, hi, _, _) ↦
      let es : Entries = put v.entries idx (record (v.entries idx) { first_cluster = c }) in
      let begun : Volume = record v {
        entries = es;
        fat = set_fat (set_fat f c end_of_chain) c end_of_chain;
      } in
      let cluster : (es idx).first_cluster ≡ c = rw (==_self idx) refl in
      let (r, ran, tree) =
        write_contents-Ends fuel begun idx content room
          (record { lo = rw cluster lo; hi = rw cluster hi; at_end = rw (cluster, ==_self c) refl })
          (IsTree-changed v.entries idx c (v.entries idx).size is) in
      (
        r,
        ap (start_over fuel v idx content) got ∙ rw (==_ne c 0 (λ z. omega (arith, z, lo))) ran,
        tree,
      )
]

pub overwrite-Ends :
    (fuel : ℕ) (v : Volume) (idx : ℕ) (content : List ℕ)
    → fat_entries < fuel
    → length content ≤ fuel * cluster_size
    → IsTree v.entries
    → Ends (overwrite fuel v idx content)
unfolding Ends overwrite
overwrite-Ends fuel v idx content enough room is =
    let (f, freed) = free_cluster_chain_ends fuel v.fat (v.entries idx).first_cluster enough in
    let (r, ran, tree) = start_over-Ends fuel v idx content f room is in
    (r, ap (λ o. o >>= λ g. start_over fuel v idx content (alloc_cluster g)) freed ∙ ran, tree)
