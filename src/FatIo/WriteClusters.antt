-- ===== src/FatIo/WriteClusters.antt =====
-- The loop of fat32_write of fs/fat32.c over the clusters.
use tiny_riscv_os.Prelude.{
  ℕ, zero, suc, ◌+◌, ◌-◌, ◌*◌, ◌≤◌, ◌<◌, ◌≡◌, ◌≢◌, inl, inr, refl, sym, ap, ap₂, dec_lt, ◌∙◌, subst,
  false, true, some, ltb, leb, min, Bool-cases, arith,
}
use tiny_riscv_os.Bytes.{Bytes}
use tiny_riscv_os.Bytes.Copy.{overwritten}
use tiny_riscv_os.Fat32.{Fat32Volume}
use tiny_riscv_os.FatIo.{
  sector_size, table_entries, dir_entries, end_of_chain, table_next, Fat32File, dentry_size,
  Writing, write_sectors, write_clusters, fat32_write,
}
use tiny_riscv_os.FatIo.Chain.{place, contents, sector_at}
use tiny_riscv_os.FatIo.Sectors.{place-next}
use tiny_riscv_os.FatIo.WriteSectors.{Inv, write_sectors-Inv}

module _ (v : Fat32Volume) (disk : ℕ → Bytes) (table : Bytes) (first : ℕ) (mem : Bytes)
    (buf start max_cfo size n : ℕ) (whole : suc n ≡ v.sec_per_cluster) (fits : max_cfo ≤ size)
    (distinct : (i j : ℕ)
      → sector_size * i < size
      → sector_size * j < size
      → sector_at v table first i ≡ sector_at v table first j
      → i ≡ j)
    (chained : (i : ℕ)
      → sector_size * i < max_cfo
      → (place v table first i).0 < table_entries) where
  all_read :
      (i : ℕ) (w : Writing)
      → Inv v disk table first mem buf start max_cfo size i w
      → max_cfo ≤ sector_size * i
      → w.cfo ≡ max_cfo
  all_read i w x b = let below = x.below in elim x.at [ inl h ↦ omega arith | inr h ↦ h.1 ]

  all_done :
      (i : ℕ) (w : Writing)
      → Inv v disk table first mem buf start max_cfo size i w
      → max_cfo ≤ w.write_cfo
      → w.cfo ≡ max_cfo
  all_done i w x b = let below = x.below in elim x.at [ inl h ↦ omega arith | inr h ↦ h.1 ]

  not_yet :
      (i : ℕ) (w : Writing)
      → Inv v disk table first mem buf start max_cfo size i w
      → w.write_cfo < max_cfo
      → i ≤ max_cfo
  not_yet i w x b = elim x.at [ inl h ↦ omega arith | inr h ↦ absurd (omega arith) ]

  ended :
      (i c : ℕ)
      → place v table first i ≡ (c, 0)
      → ltb c end_of_chain ≡ false
      → max_cfo ≤ sector_size * i
  ended i c e off = elim (dec_lt (sector_size * i) max_cfo) [
    | no past ↦ omega arith
    | yes before ↦
        let small : c < table_entries = subst (λ p. p.0 < table_entries) e (chained i before) in
        absurd (ground arith)
  ]

  -- A cluster that is not the last one has its entry in the table.
  within :
      (i c : ℕ) (w' : Writing)
      → Inv v disk table first mem buf start max_cfo size (i + v.sec_per_cluster) w'
      → w'.write_cfo < max_cfo
      → place v table first i ≡ (c, 0)
      → ltb c table_entries ≡ true
  within i c w' x more e = elim x.at [
    | inl h ↦
        let small : c < table_entries =
          subst (λ p. p.0 < table_entries) e (chained i (omega arith)) in
        ground arith
    | inr h ↦ absurd (omega arith)
  ]

  -- From a cluster on, the loop ends with everything written.
  write_clusters-all :
      (fuel i c : ℕ) (w : Writing)
      → Inv v disk table first mem buf start max_cfo size i w
      → place v table first i ≡ (c, 0)
      → i ≤ max_cfo
      → max_cfo < i + fuel
      → (w' : Writing) × (j : ℕ) × (write_clusters fuel v mem table c buf max_cfo w ≡ some w')
        × Inv v disk table first mem buf start max_cfo size j w'
        × (w'.cfo ≡ max_cfo)
  unfolding write_clusters
  write_clusters-all zero i c w x e b l = absurd (omega arith)
  write_clusters-all (suc fuel) i c w x e b l =
      let w' = write_sectors v mem c buf max_cfo 0 v.sec_per_cluster w in
      let x' : Inv v disk table first mem buf start max_cfo size (i + v.sec_per_cluster) w' =
        write_sectors-Inv v disk table first mem buf start max_cfo size fits distinct
          v.sec_per_cluster i c 0 w x (λ p. e) (omega arith) in
      let next : place v table first (i + v.sec_per_cluster) ≡ (table_next table c, 0) =
        ap (λ k. place v table first (i + k)) (sym whole)
        ∙ place-next v table first n i c 0 e (omega (arith, whole)) in
      elim (Bool-cases (ltb c end_of_chain)) [
        | inr off ↦ (w, i, rw off refl, x, all_read i w x (ended i c e off))
        | inl on ↦ elim (Bool-cases (leb max_cfo w'.write_cfo)) [
          | inl done ↦
              (w', i + v.sec_per_cluster, rw (on, done) refl, x', all_done _ w' x' (ground arith))
          | inr more ↦
              let (w1, j, eq, x1, all) =
                write_clusters-all fuel (i + v.sec_per_cluster) (table_next table c) w' x' next
                  (not_yet _ w' x' (ground arith)) (omega (arith, whole)) in
              let held : ltb c table_entries ≡ true = within i c w' x' (ground arith) e in
              (w1, j, rw (on, more, held) eq, x1, all)
        ]
      ]

start-Inv :
    (v : Fat32Volume) (disk : ℕ → Bytes) (table : Bytes) (first : ℕ) (mem : Bytes)
    (buf start max_cfo size : ℕ)
    → start ≤ max_cfo
    → Inv v disk table first mem buf start max_cfo size 0
        (record { write_cfo = 0; write_len = 0; cfo = start; disk = disk })
start-Inv v disk table first mem buf start max_cfo size b = record {
  from = omega arith;
  below = b;
  count = omega arith;
  changed = λ p l. ground arith;
  others = λ x out. refl;
  at = inl (omega arith, omega arith);
}

-- The loops, with the contents as they see them.
pub fat32_write-contents :
    (fuel n : ℕ) (v : Fat32Volume) (disk : ℕ → Bytes) (f : Fat32File) (cfo : ℕ) (mem : Bytes)
    (buf len : ℕ)
    → suc n ≡ v.sec_per_cluster
    → f.dir_index < 16
    → ((i : ℕ)
        → sector_size * i < dentry_size v disk f
        → (place v (disk v.first_fat_sec) f.cluster i).0 < table_entries)
    → ((i j : ℕ)
        → sector_size * i < dentry_size v disk f
        → sector_size * j < dentry_size v disk f
        → sector_at v (disk v.first_fat_sec) f.cluster i
          ≡ sector_at v (disk v.first_fat_sec) f.cluster j
        → i ≡ j)
    → dentry_size v disk f < fuel
    → (disk' : ℕ → Bytes) × (fat32_write fuel v disk f cfo mem buf len
        ≡ some (
          disk',
          cfo + min len (dentry_size v disk f - cfo),
          min len (dentry_size v disk f - cfo),
        ))
      × ((p : ℕ)
          → p < dentry_size v disk f
          → contents v disk' (disk v.first_fat_sec) f.cluster p
            ≡ overwritten
                (contents v disk (disk v.first_fat_sec) f.cluster)
                cfo
                (min len (dentry_size v disk f - cfo))
                (λ j. mem (buf + j))
                p)
      × ((x : ℕ)
          → ((i : ℕ)
              → sector_size * i < dentry_size v disk f
              → sector_at v (disk v.first_fat_sec) f.cluster i ≢ x)
          → disk' x ≡ disk x)
unfolding fat32_write place
fat32_write-contents fuel n v disk f cfo mem buf len whole entry chained distinct l =
    let held : leb dir_entries f.dir_index ≡ false = ground arith in
    elim (Bool-cases (leb (dentry_size v disk f) cfo)) [
      | inl past ↦
          let none_left : min len (dentry_size v disk f - cfo) ≡ 0 = ground arith in
          (
            disk,
            rw (held, past, none_left) (ground arith),
            λ p b. rw none_left (ground arith),
            λ x out. refl,
          )
      | inr inside ↦
          let k = min len (dentry_size v disk f - cfo) in
          let size = dentry_size v disk f in
          let table = disk v.first_fat_sec in
          let start : Writing = record { write_cfo = 0; write_len = 0; cfo = cfo; disk = disk } in
          let (w, j, eq, x, all) =
            write_clusters-all v disk table f.cluster mem buf cfo (cfo + k) size n whole
              (ground arith) distinct (λ i b. chained i (ground arith)) fuel 0 f.cluster start
              (start-Inv v disk table f.cluster mem buf cfo (cfo + k) size (omega arith)) refl
              (omega arith) (ground arith) in
          let count : w.write_len ≡ k = omega (arith, x.count, all) in
          (
            w.disk,
            rw (held, inside, eq) (ap₂ (λ c m. some (w.disk, c, m)) all count),
            λ p b.
                x.changed p b
                ∙ ap
                    (λ m.
                      overwritten (contents v disk table f.cluster) cfo m (λ j. mem (buf + j)) p)
                    count,
            x.others,
          )
    ]
