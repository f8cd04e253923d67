-- ===== src/FatIo/Read.antt =====
-- fat32_read of fs/fat32.c against the contents of the file.
use tiny_riscv_os.Prelude.{
  ℕ, zero, suc, ◌+◌, ◌-◌, ◌*◌, ◌≤◌, ◌<◌, ◌≡◌, inl, inr, refl, sym, ap, ap₂, dec_lt, dec_le, ◌∙◌,
  subst, true, false, some, ltb, leb, min, Bool-cases, arith,
}
use tiny_riscv_os.Bytes.{Bytes}
use tiny_riscv_os.Bytes.Copy.{overwritten}
use tiny_riscv_os.Fat32.{Fat32Volume}
use tiny_riscv_os.FatIo.{
  sector_size, table_entries, dir_entries, end_of_chain, table_next, Fat32File, dentry_size,
  Reading, read_sectors, read_clusters, fat32_read,
}
use tiny_riscv_os.FatIo.Chain.{place, contents}
use tiny_riscv_os.FatIo.Layout.{
  file_byte, file_length, IsIntact, place-file_sector, dentry_size-file_length, contents-file_byte,
}
use tiny_riscv_os.FatIo.Sectors.{Inv, read_sectors-Inv, place-next}

module _ (v : Fat32Volume) (disk : ℕ → Bytes) (table : Bytes) (first : ℕ) (mem : Bytes)
    (buf start max_cfo n : ℕ) (whole : suc n ≡ v.sec_per_cluster)
    (chained : (i : ℕ)
      → sector_size * i < max_cfo
      → (place v table first i).0 < table_entries) where
  all_read :
      (i : ℕ) (r : Reading)
      → Inv v disk table first mem buf start max_cfo i r
      → max_cfo ≤ sector_size * i
      → r.cfo ≡ max_cfo
  all_read i r x b = let below = x.below in elim x.at [ inl h ↦ omega arith | inr h ↦ h.1 ]

  all_done :
      (i : ℕ) (r : Reading)
      → Inv v disk table first mem buf start max_cfo i r
      → max_cfo ≤ r.read_cfo
      → r.cfo ≡ max_cfo
  all_done i r x b = let below = x.below in elim x.at [ inl h ↦ omega arith | inr h ↦ h.1 ]

  not_yet :
      (i : ℕ) (r : Reading)
      → Inv v disk table first mem buf start max_cfo i r
      → r.read_cfo < max_cfo
      → i ≤ max_cfo
  not_yet i r x b = elim x.at [ inl h ↦ omega arith | inr h ↦ absurd (omega arith) ]

  ended :
      (i c : ℕ)
      → place v table first i ≡ (c, 0)
      → ltb c end_of_chain ≡ false
      → max_cfo ≤ sector_size * i
  ended i c e off = elim (dec_lt (sector_size * i) max_cfo) [
    | no past ↦ omega arith
    | yes before ↦
        let small : c < table_entries = subst (λ p. p.0 < table_entries) e (chained i before) in
        absurd (ground arith)
  ]

  -- A cluster that is not the last one has its entry in the table.
  within :
      (i c : ℕ) (r' : Reading)
      → Inv v disk table first mem buf start max_cfo (i + v.sec_per_cluster) r'
      → r'.read_cfo < max_cfo
      → place v table first i ≡ (c, 0)
      → ltb c table_entries ≡ true
  within i c r' x more e = elim x.at [
    | inl h ↦
        let small : c < table_entries =
          subst (λ p. p.0 < table_entries) e (chained i (omega arith)) in
        ground arith
    | inr h ↦ absurd (omega arith)
  ]

  -- From a cluster on, the loop ends with everything copied.
  read_clusters-all :
      (fuel i c : ℕ) (r : Reading)
      → Inv v disk table first mem buf start max_cfo i r
      → place v table first i ≡ (c, 0)
      → i ≤ max_cfo
      → max_cfo < i + fuel
      → (r' : Reading) × (j : ℕ) × (read_clusters fuel v disk table c buf max_cfo r ≡ some r')
        × Inv v disk table first mem buf start max_cfo j r'
        × (r'.cfo ≡ max_cfo)
  unfolding read_clusters
  read_clusters-all zero i c r x e b l = absurd (omega arith)
  read_clusters-all (suc fuel) i c r x e b l =
      let r' = read_sectors v disk c buf max_cfo 0 v.sec_per_cluster r in
      let x' : Inv v disk table first mem buf start max_cfo (i + v.sec_per_cluster) r' =
        read_sectors-Inv v disk table first mem buf start max_cfo v.sec_per_cluster i c 0 r x
          (λ p. e) (omega arith) in
      let next : place v table first (i + v.sec_per_cluster) ≡ (table_next table c, 0) =
        ap (λ k. place v table first (i + k)) (sym whole)
        ∙ place-next v table first n i c 0 e (omega (arith, whole)) in
      elim (Bool-cases (ltb c end_of_chain)) [
        | inr off ↦ (r, i, rw off refl, x, all_read i r x (ended i c e off))
        | inl on ↦ elim (Bool-cases (leb max_cfo r'.read_cfo)) [
          | inl done ↦
              (r', i + v.sec_per_cluster, rw (on, done) refl, x', all_done _ r' x' (ground arith))
          | inr more ↦
              let (r1, j, eq, x1, all) =
                read_clusters-all fuel (i + v.sec_per_cluster) (table_next table c) r' x' next
                  (not_yet _ r' x' (ground arith)) (omega (arith, whole)) in
              let held : ltb c table_entries ≡ true = within i c r' x' (ground arith) e in
              (r1, j, rw (on, more, held) eq, x1, all)
        ]
      ]

start-Inv :
    (v : Fat32Volume) (disk : ℕ → Bytes) (table : Bytes) (first : ℕ) (mem : Bytes)
    (buf start max_cfo : ℕ)
    → start ≤ max_cfo
    → Inv v disk table first mem buf start max_cfo 0
        (record { read_cfo = 0; read_len = 0; cfo = start; mem = mem })
start-Inv v disk table first mem buf start max_cfo b = record {
  from = omega arith;
  below = b;
  count = omega arith;
  copied = λ a. ground arith;
  at = inl (omega arith, omega arith);
}

-- The loops, with the contents as they see them.
pub fat32_read-contents :
    (fuel n : ℕ) (v : Fat32Volume) (disk : ℕ → Bytes) (f : Fat32File) (cfo : ℕ) (mem : Bytes)
    (buf len : ℕ)
    → suc n ≡ v.sec_per_cluster
    → f.dir_index < 16
    → ((i : ℕ)
        → sector_size * i < dentry_size v disk f
        → (place v (disk v.first_fat_sec) f.cluster i).0 < table_entries)
    → dentry_size v disk f < fuel
    → (mem' : Bytes) × (fat32_read fuel v disk f cfo mem buf len
        ≡ some (
          mem',
          cfo + min len (dentry_size v disk f - cfo),
          min len (dentry_size v disk f - cfo),
        ))
      × ((a : ℕ)
          → mem' a
            ≡ overwritten mem buf
                (min len (dentry_size v disk f - cfo))
                (λ j. contents v disk (disk v.first_fat_sec) f.cluster (cfo + j))
                a)
unfolding fat32_read place
fat32_read-contents fuel n v disk f cfo mem buf len whole entry chained l =
    let held : leb dir_entries f.dir_index ≡ false = ground arith in
    elim (Bool-cases (leb (dentry_size v disk f) cfo)) [
      | inl past ↦
          let none_left : min len (dentry_size v disk f - cfo) ≡ 0 = ground arith in
          (mem, rw (held, past, none_left) (ground arith), λ a. rw none_left (ground arith))
      | inr inside ↦
          let k = min len (dentry_size v disk f - cfo) in
          let start : Reading = record { read_cfo = 0; read_len = 0; cfo = cfo; mem = mem } in
          let (r, j, eq, x, all) =
            read_clusters-all v disk (disk v.first_fat_sec) f.cluster mem buf cfo (cfo + k) n whole
              (λ i b. chained i (ground arith)) fuel 0 f.cluster start
              (start-Inv v disk (disk v.first_fat_sec) f.cluster mem buf cfo (cfo + k)
                (omega arith))
              refl (omega arith) (ground arith) in
          let count : r.read_len ≡ k = omega (arith, x.count, all) in
          (
            r.mem,
            rw (held, inside, eq) (ap₂ (λ c m. some (r.mem, c, m)) all count),
            λ a.
                x.copied a
                ∙ ap
                    (λ m.
                      overwritten mem buf m
                        (λ j. contents v disk (disk v.first_fat_sec) f.cluster (cfo + j)) a)
                    count,
          )
    ]

-- Two copies of the same bytes are the same.
pub overwritten_same :
    (m : Bytes) (d n : ℕ) (v w : ℕ → ℕ) (a : ℕ)
    → ((j : ℕ) → j < n → v j ≡ w j)
    → overwritten m d n v a ≡ overwritten m d n w a
overwritten_same m d n v w a h = elim (dec_le d a) [
  | no before ↦ ground arith
  | yes from ↦ elim (dec_lt a (d + n)) [
    | no past ↦ ground arith
    | yes inside ↦ let same = h (a - d) (omega arith) in ground arith
  ]
]

-- fat32_read puts the bytes of the file from the position on into the buffer, as many as were asked
-- for but none behind the end of the file, changes no other byte of memory, moves the position by
-- that many, and returns their number. This holds where the entry of the file and its chain of
-- clusters are intact, with more rounds as fuel than the file has bytes.
pub fat32_read_lem :
    (fuel : ℕ) (v : Fat32Volume) (disk : ℕ → Bytes) (f : Fat32File) (cfo : ℕ) (mem : Bytes)
    (buf len : ℕ)
    → IsIntact v disk f
    → file_length v disk f < fuel
    → (mem' : Bytes) × (fat32_read fuel v disk f cfo mem buf len
        ≡ some (
          mem',
          cfo + min len (file_length v disk f - cfo),
          min len (file_length v disk f - cfo),
        ))
      × ((a : ℕ)
          → mem' a
            ≡ overwritten mem buf
                (min len (file_length v disk f - cfo))
                (λ j. file_byte v disk f.cluster (cfo + j))
                a)
fat32_read_lem fuel v disk f cfo mem buf len x l =
    let n = v.sec_per_cluster - 1 in
    let whole : suc n ≡ v.sec_per_cluster = let some_sectors = x.some_sectors in omega arith in
    let size = dentry_size-file_length v disk f n whole x in
    let (mem', eq, all) =
      fat32_read-contents fuel n v disk f cfo mem buf len whole x.dir_entry
        (λ i b. (place-file_sector v disk f n whole x i (omega arith)).0) (omega arith) in
    let count : min len (dentry_size v disk f - cfo) ≡ min len (file_length v disk f - cfo) =
      ap (λ m. min len (m - cfo)) size in
    (
      mem',
      eq ∙ ap (λ m. some (mem', cfo + m, m)) count,
      λ a.
          all a
          ∙ ap
              (λ m.
                overwritten mem buf m
                  (λ j. contents v disk (disk v.first_fat_sec) f.cluster (cfo + j)) a)
              count
          ∙ overwritten_same mem buf (min len (file_length v disk f - cfo)) _
              (λ j. file_byte v disk f.cluster (cfo + j)) a
              (λ j b. contents-file_byte v disk f n whole x (cfo + j) (omega arith)),
    )
