-- ===== src/Fs/Roundtrip/Stored.antt =====
-- What a write leaves: a round that stops in its cluster, and one that goes on in a new one.
use kernel_c.Prelude.{
  ℕ, suc, ◌+◌, ◌-◌, ◌≤◌, ◌<◌, ◌≡◌, ◌≢◌, ◌⊎◌, inl, inr, refl, ap, ◌∙◌, sym, arith, some, List, ◌++◌,
  length, if◌then◌else◌, ◌==◌, ==_self, ==_ne,
}
use Prim.Native.Nat.{min}
use kernel_c.Fs.{
  Fat, Disk, Written, wrote, fat_entries, end_of_chain, cluster_size, set_fat, get_cluster,
  read_bytes, write_bytes, take, drop, read_loop,
}
use kernel_c.Fs.Bytes.{read_bytes-same, read-write_bytes, length-take, length-drop}
use kernel_c.Fs.Roundtrip.Rounds.{
  chunk_apart, length-take_le, take-length-take, take_add, read_loop_last, read_loop_next,
}

-- What a write leaves that started at the last cluster `cur` of a chain, with `w` bytes before it: `n`
-- of the bytes are stored, they can be read, and no cluster in use but `cur` has changed.
pub record Stores (k : ℕ) (fat : Fat) (disk : Disk) (cur : ℕ) (bytes : List ℕ) (w : ℕ) (s : Written)
    : Type 0 where
  pub n : ℕ
  pub count_is : s.count ≡ w + n
  pub at_most : n ≤ length bytes
  pub readable : read_loop k s.fat s.disk cur n ≡ some (take n bytes)
  pub complete : (n ≡ length bytes) ⊎ ((j : ℕ) → 2 ≤ j → j < fat_entries → s.fat j ≢ 0)
  pub in_use : s.fat cur ≢ 0
  pub fat_kept : (q : ℕ) → q ≢ cur → fat q ≢ 0 → s.fat q ≡ fat q
  pub disk_kept :
      (q a : ℕ)
      → 2 ≤ q
      → q < fat_entries
      → q ≢ cur
      → fat q ≢ 0
      → get_cluster q ≤ a
      → a < get_cluster q + cluster_size
      → s.disk a ≡ disk a

pub read_chunk :
    (d : Disk) (at : ℕ) (bytes : List ℕ)
    → read_bytes (write_bytes d at (take cluster_size bytes)) at (min (length bytes) cluster_size)
      ≡ take cluster_size bytes
read_chunk d at bytes =
    ap (read_bytes (write_bytes d at (take cluster_size bytes)) at)
      (sym (length-take cluster_size bytes))
    ∙ read-write_bytes d at (take cluster_size bytes)

module _ (k : ℕ) (fat : Fat) (disk : Disk) (cur : ℕ) (bytes : List ℕ) (w : ℕ) (lo : 2 ≤ cur)
    (hi : cur < fat_entries) (at_end : fat cur ≡ end_of_chain) (some_left : 0 < length bytes) where
  unfoldable pub stopped : Written
  stopped =
      wrote (set_fat fat cur end_of_chain)
        (write_bytes disk (get_cluster cur) (take cluster_size bytes))
        (w + length (take cluster_size bytes))

  -- a write that ends in the cluster `cur`
  pub stopped-Stores :
      ((length bytes ≤ cluster_size) ⊎ ((j : ℕ) → 2 ≤ j → j < fat_entries → fat j ≢ 0))
      → Stores (suc k) fat disk cur bytes w stopped
  unfolding stopped
  stopped-Stores why = record {
    n = length (take cluster_size bytes);
    count_is = refl;
    at_most = omega (arith, length-take cluster_size bytes);
    readable =
        read_loop_last k (set_fat fat cur end_of_chain)
          (write_bytes disk (get_cluster cur) (take cluster_size bytes)) cur
          (length (take cluster_size bytes)) lo hi (set_fat_self cur)
          (omega (arith, length-take cluster_size bytes, some_left))
        ∙ ap some (
            ap
              (read_bytes (write_bytes disk (get_cluster cur) (take cluster_size bytes))
                (get_cluster cur))
              short
            ∙ read-write_bytes disk (get_cluster cur) (take cluster_size bytes)
            ∙ sym (take_chunk));
    complete = elim why [
      | inl fits ↦ inl (omega (arith, length-take cluster_size bytes, fits))
      | inr full ↦ inr (λ j jlo jhi z. full j jlo jhi (kept_zero j z))
    ];
    in_use = λ z. kept_zero_self z;
    fat_kept = λ q ne _. ground arith;
    disk_kept = λ q a qlo qhi ne _ from to.
        chunk_apart disk cur (take cluster_size bytes) q a lo hi qlo qhi ne
          (length-take_le cluster_size bytes) from to;
  }
    where
      set_fat_self : (c : ℕ) → (if c == c then end_of_chain else fat c) ≡ end_of_chain
      set_fat_self c = rw (==_self c) refl

      short : min (length (take cluster_size bytes)) cluster_size ≡ length (take cluster_size bytes)
      short = omega (arith, length-take cluster_size bytes)

      take_chunk : take (length (take cluster_size bytes)) bytes ≡ take cluster_size bytes
      take_chunk = take-length-take cluster_size bytes

      kept_zero : (j : ℕ) → (if j == cur then end_of_chain else fat j) ≡ 0 → fat j ≡ 0
      kept_zero j z = ground arith

      kept_zero_self : (if cur == cur then end_of_chain else fat cur) ≡ 0 → ⊥
      kept_zero_self z = ground arith

  -- a write that goes on in the new cluster `nc`
  pub linked-Stores :
      (nc : ℕ) (s : Written)
      → 2 ≤ nc
      → nc < fat_entries
      → fat nc ≡ 0
      → cluster_size < length bytes
      → Stores k
          (set_fat (set_fat fat nc end_of_chain) cur nc)
          (write_bytes disk (get_cluster cur) (take cluster_size bytes))
          nc
          (drop cluster_size bytes)
          (w + length (take cluster_size bytes))
          s
      → Stores (suc k) fat disk cur bytes w s
  linked-Stores nc s nlo nhi free long rest = record {
    n = cluster_size + rest.n;
    count_is = omega (arith, rest.count_is, length-take cluster_size bytes, long);
    at_most = omega (arith, rest.at_most, length-drop cluster_size bytes, long);
    readable =
        read_loop_next k s.fat s.disk cur (cluster_size + rest.n)
          (take rest.n (drop cluster_size bytes)) lo hi (λ e. omega (arith, e, link, nhi))
          (omega arith) (onward ∙ rest.readable)
        ∙ ap some (
            ap (λ l. l ++ take rest.n (drop cluster_size bytes)) here
            ∙ sym (take_add cluster_size rest.n (cluster_size + rest.n) bytes refl));
    complete = elim rest.complete [
      | inl all ↦ inl (omega (arith, all, length-drop cluster_size bytes, long))
      | inr full ↦ inr full
    ];
    in_use = λ z. omega (arith, z, link, nlo);
    fat_kept = λ q ne used. rest.fat_kept q (other q used) (used_on q ne used) ∙ kept q ne used;
    disk_kept = λ q a qlo qhi ne used from to.
        rest.disk_kept q a qlo qhi (other q used) (used_on q ne used) from to
        ∙ chunk_apart disk cur (take cluster_size bytes) q a lo hi qlo qhi ne
            (length-take_le cluster_size bytes) from to;
  }
    where
      other : (q : ℕ) → fat q ≢ 0 → q ≢ nc
      other q used e = used (ap fat e ∙ free)

      apart : cur ≢ nc
      apart e = omega (arith, ap fat e, free, at_end)

      kept : (q : ℕ) → q ≢ cur → fat q ≢ 0 → set_fat (set_fat fat nc end_of_chain) cur nc q ≡ fat q
      kept q ne used = rw (==_ne q cur ne, ==_ne q nc (other q used)) refl

      used_on : (q : ℕ) → q ≢ cur → fat q ≢ 0 → set_fat (set_fat fat nc end_of_chain) cur nc q ≢ 0
      used_on q ne used z = used (sym (kept q ne used) ∙ z)

      linked : set_fat (set_fat fat nc end_of_chain) cur nc cur ≡ nc
      linked = rw (==_self cur) refl

      link : s.fat cur ≡ nc
      link = rest.fat_kept cur apart (λ z. omega (arith, z, linked, nlo)) ∙ linked

      left : cluster_size + rest.n - min (cluster_size + rest.n) cluster_size ≡ rest.n
      left = omega arith

      onward :
          read_loop k s.fat s.disk
            (s.fat cur)
            (cluster_size + rest.n - min (cluster_size + rest.n) cluster_size)
          ≡ read_loop k s.fat s.disk nc rest.n
      onward = cc (link, left)

      full : min (cluster_size + rest.n) cluster_size ≡ min (length bytes) cluster_size
      full = omega (arith, long)

      here :
          read_bytes s.disk (get_cluster cur) (min (cluster_size + rest.n) cluster_size)
          ≡ take cluster_size bytes
      here =
          ap (read_bytes s.disk (get_cluster cur)) full
          ∙ read_bytes-same s.disk (write_bytes disk (get_cluster cur) (take cluster_size bytes))
              (get_cluster cur) (min (length bytes) cluster_size)
              (λ a from to.
                rest.disk_kept cur a lo hi apart (λ z. omega (arith, z, linked, nlo)) from
                  (omega (arith, to)))
          ∙ read_chunk disk (get_cluster cur) bytes
