-- ===== src/FatIo/Sectors.antt =====
-- The loop of fat32_read over the sectors of a cluster.
use tiny_riscv_os.Prelude.{
  ℕ, zero, suc, ◌+◌, ◌-◌, ◌*◌, ◌/◌, ◌%◌, ◌≤◌, ◌<◌, ◌≡◌, ◌⊎◌, inl, inr, sym, ap, fun_ext, ◌∙◌, subst,
  leb, min, Bool-cases, dec_lt, dec_le, arith,
}
use tiny_riscv_os.Bytes.{Bytes}
use tiny_riscv_os.Bytes.Copy.{overwritten}
use tiny_riscv_os.Fat32.{Fat32Volume}
use tiny_riscv_os.FatIo.{sector_size, table_next, sector_of, Reading, read_copy, read_sectors}
use tiny_riscv_os.FatIo.Chain.{place, contents, place-inside, place-last, contents-place}

-- Two writes side by side are one.
overwritten_join :
    (m : Bytes) (d n k : ℕ) (v w : ℕ → ℕ) (a : ℕ)
    → ((j : ℕ) → j < k → w j ≡ v (n + j))
    → overwritten (overwritten m d n v) (d + n) k w a ≡ overwritten m d (n + k) v a
overwritten_join m d n k v w a h = elim (dec_le (d + n) a) [
  | no before ↦ ground arith
  | yes from ↦ elim (dec_lt a (d + n + k)) [
    | no past ↦ ground arith
    | yes inside ↦
        let index : n + (a - (d + n)) ≡ a - d = omega arith in
        let same : w (a - (d + n)) ≡ v (a - d) = h (a - (d + n)) (omega arith) ∙ ap v index in
        ground arith
  ]
]

module _ (v : Fat32Volume) (disk : ℕ → Bytes) (table : Bytes) (first : ℕ) (mem : Bytes)
    (buf start max_cfo : ℕ) where
  -- The state before the i-th sector of the file: the bytes from `start` to cfo have been copied,
  -- and read_cfo stands at the sector, or everything has been read.
  pub record Inv (i : ℕ) (r : Reading) : Type 0 where
    pub from : start ≤ r.cfo
    pub below : r.cfo ≤ max_cfo
    pub count : r.read_len + start ≡ r.cfo
    pub copied :
        (a : ℕ)
        → r.mem a ≡ overwritten mem buf r.read_len (λ j. contents v disk table first (start + j)) a
    pub at :
        ((r.read_cfo ≡ sector_size * i) × (r.read_cfo ≤ r.cfo))
        ⊎ ((r.read_cfo ≡ max_cfo) × (r.cfo ≡ max_cfo))

  skip-Inv :
      (i : ℕ) (r : Reading)
      → Inv i r
      → r.read_cfo + sector_size ≤ r.cfo
      → Inv (suc i) (record r { read_cfo = r.read_cfo + sector_size })
  skip-Inv i r x l = record {
    from = x.from;
    below = x.below;
    count = x.count;
    copied = x.copied;
    at = elim x.at [ inl h ↦ inl (omega arith, omega arith) | inr h ↦ absurd (omega arith) ];
  }

  done-Inv : (i j : ℕ) (r : Reading) → Inv i r → max_cfo ≤ r.read_cfo → Inv j r
  done-Inv i j r x l = record {
    from = x.from;
    below = x.below;
    count = x.count;
    copied = x.copied;
    at = elim x.at [ inl h ↦ let b = x.below in inr (omega arith, omega arith) | inr h ↦ inr h ];
  }

  copy-Inv :
      (i c s : ℕ) (r : Reading)
      → Inv i r
      → place v table first i ≡ (c, s)
      → r.cfo < r.read_cfo + sector_size
      → r.read_cfo < max_cfo
      → Inv (suc i) (read_copy (disk (sector_of v c s)) buf max_cfo r)
  unfolding read_copy
  copy-Inv i c s r x e l k = elim x.at [
    | inr done ↦ absurd (omega arith)
    | inl here ↦
        let off = r.cfo % sector_size in
        let n = min (sector_size - off) (max_cfo - r.cfo) in
        let count = x.count in
        let below = x.below in
        let from = x.from in
        let byte : (j : ℕ)
            → j < n
            → disk (sector_of v c s) (off + j)
              ≡ contents v disk table first (start + (r.read_len + j)) =
          λ j small.
            let p = start + (r.read_len + j) in
            let sector : p / sector_size ≡ i = omega arith in
            let byte : off + j ≡ p % sector_size = omega arith in
            ap (disk (sector_of v c s)) byte
            ∙ sym (contents-place v disk table first i c s p e sector) in
        record {
          from = omega arith;
          below = omega arith;
          count = omega arith;
          copied = λ a.
              ap
                (λ (m : Bytes).
                  overwritten m (buf + r.read_len) n (λ j. disk (sector_of v c s) (off + j)) a)
                (fun_ext x.copied)
              ∙ overwritten_join mem buf r.read_len n (λ j. contents v disk table first (start + j))
                  _ a byte;
          at = elim (dec_le (sector_size - off) (max_cfo - r.cfo)) [
            | yes whole ↦ inl (omega arith, omega arith)
            | no part ↦ inr (omega arith, omega arith)
          ];
        }
  ]

  Inv-at : {r : Reading} (i j : ℕ) → i ≡ j → Inv i r → Inv j r
  Inv-at {r} i j e x = subst (λ k. Inv k r) e x

  -- The sectors that are left in a cluster.
  pub read_sectors-Inv :
      (n i c s : ℕ) (r : Reading)
      → Inv i r
      → (0 < n → place v table first i ≡ (c, s))
      → s + n ≡ v.sec_per_cluster
      → Inv (i + n) (read_sectors v disk c buf max_cfo s n r)
  unfolding read_sectors
  read_sectors-Inv zero i c s r x e l = subst (λ k. Inv k r) (the_same i) x
    where
      the_same : (i : ℕ) → i ≡ i + 0
      the_same i = omega arith
  read_sectors-Inv (suc n) i c s r x e l =
      let here : place v table first i ≡ (c, s) = e (omega arith) in
      let next : suc i + n ≡ i + suc n = omega arith in
      let after : 0 < n → place v table first (suc i) ≡ (c, s + 1) =
        λ more. place-inside v table first i c s here (omega arith) in
      elim (Bool-cases (leb (r.read_cfo + sector_size) r.cfo)) [
        | inl skip ↦ rw skip (
            Inv-at (suc i + n) (i + suc n) next (
              read_sectors-Inv n (suc i) c (s + 1) _ (skip-Inv i r x (ground arith)) after
                (omega arith)))
        | inr reached ↦ elim (Bool-cases (leb max_cfo r.read_cfo)) [
          | inl done ↦ rw (reached, done) (done-Inv i (i + suc n) r x (ground arith))
          | inr more ↦
              rw (reached, more)
                (Inv-at (suc i + n) (i + suc n) next (
                  read_sectors-Inv n (suc i) c (s + 1) _
                    (copy-Inv i c s r x here (ground arith) (ground arith)) after (omega arith)))
        ]
      ]

-- After the sectors that are left in a cluster, the next cluster begins.
pub place-next :
    (v : Fat32Volume) (table : Bytes) (first n i c s : ℕ)
    → place v table first i ≡ (c, s)
    → s + suc n ≡ v.sec_per_cluster
    → place v table first (i + suc n) ≡ (table_next table c, 0)
place-next v table first zero i c s e l =
    let next : suc i ≡ i + 1 = omega arith in
    ap (place v table first) (sym next) ∙ place-last v table first i c s e (omega arith)
place-next v table first (suc n) i c s e l =
    let next : suc i + suc n ≡ i + suc (suc n) = omega arith in
    ap (place v table first) (sym next)
    ∙ place-next v table first n (suc i) c (s + 1)
        (place-inside v table first i c s e (omega arith)) (omega arith)
