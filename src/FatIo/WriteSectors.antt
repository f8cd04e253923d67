-- ===== src/FatIo/WriteSectors.antt =====
-- The loop of fat32_write over the sectors of a cluster.
use tiny_riscv_os.Prelude.{
  ℕ, zero, suc, ◌+◌, ◌-◌, ◌*◌, ◌/◌, ◌%◌, ◌≤◌, ◌<◌, ◌≡◌, ◌≢◌, ◌⊎◌, inl, inr, sym, ap, ◌∙◌, subst,
  leb, min, Bool-cases, dec_lt, dec_le, ℕ_discrete, update, update_self, update_ne, arith,
}
use tiny_riscv_os.Bytes.{Bytes}
use tiny_riscv_os.Bytes.Copy.{overwritten}
use tiny_riscv_os.Fat32.{Fat32Volume}
use tiny_riscv_os.FatIo.{sector_size, sector_of, Writing, write_copy, write_sectors}
use tiny_riscv_os.FatIo.Chain.{place, contents, sector_at, contents-sector_at, place-inside}

module _ (m : Bytes) (d n k : ℕ) (v : ℕ → ℕ) (a : ℕ) where
  -- A write that goes on behind another one, at a byte of the second one and at all others.
  overwritten_behind : d + n ≤ a → a < d + n + k → overwritten m d (n + k) v a ≡ v (a - d)
  overwritten_behind b l = ground arith

  overwritten_before : a < d + n → overwritten m d (n + k) v a ≡ overwritten m d n v a
  overwritten_before l = ground arith

  overwritten_past : d + n + k ≤ a → overwritten m d (n + k) v a ≡ overwritten m d n v a
  overwritten_past l = ground arith

module _ (v : Fat32Volume) (disk : ℕ → Bytes) (table : Bytes) (first : ℕ) (mem : Bytes)
    (buf start max_cfo size : ℕ) where
  -- The state before the i-th sector of the file: the bytes from `start` to cfo have been written,
  -- and write_cfo stands at the sector, or everything has been written.
  pub record Inv (i : ℕ) (w : Writing) : Type 0 where
    pub from : start ≤ w.cfo
    pub below : w.cfo ≤ max_cfo
    pub count : w.write_len + start ≡ w.cfo
    pub changed :
        (p : ℕ)
        → p < size
        → contents v w.disk table first p
          ≡ overwritten (contents v disk table first) start w.write_len (λ j. mem (buf + j)) p
    pub others :
        (x : ℕ)
        → ((i : ℕ) → sector_size * i < size → sector_at v table first i ≢ x)
        → w.disk x ≡ disk x
    pub at :
        ((w.write_cfo ≡ sector_size * i) × (w.write_cfo ≤ w.cfo))
        ⊎ ((w.write_cfo ≡ max_cfo) × (w.cfo ≡ max_cfo))

module _ (v : Fat32Volume) (disk : ℕ → Bytes) (table : Bytes) (first : ℕ) (mem : Bytes)
    (buf start max_cfo size : ℕ) (fits : max_cfo ≤ size)
    (distinct : (i j : ℕ)
      → sector_size * i < size
      → sector_size * j < size
      → sector_at v table first i ≡ sector_at v table first j
      → i ≡ j) where
  -- A byte of the file after the write to its i-th sector.
  copied_one :
      (i c s n : ℕ) (w : Writing) (p : ℕ)
      → p < size
      → sector_size * i < size
      → place v table first i ≡ (c, s)
      → w.cfo / sector_size ≡ i
      → w.cfo % sector_size + n ≤ sector_size
      → w.write_len + start ≡ w.cfo
      → contents v w.disk table first p
        ≡ overwritten (contents v disk table first) start w.write_len (λ j. mem (buf + j)) p
      → contents v
          (update w.disk (sector_of v c s) (
            overwritten
              (w.disk (sector_of v c s))
              (w.cfo % sector_size)
              n
              (λ j. mem (buf + w.write_len + j))))
          table
          first
          p
        ≡ overwritten (contents v disk table first) start (w.write_len + n) (λ j. mem (buf + j)) p
  copied_one i c s n w p m l e at small count old =
      let off = w.cfo % sector_size in
      let sector = sector_of v c s in
      let new = overwritten (w.disk sector) off n (λ j. mem (buf + w.write_len + j)) in
      let after = update w.disk sector new in
      let was = contents v disk table first in
      let here : sector_at v table first i ≡ sector = ap (λ q. sector_of v q.0 q.1) e in
      let value : ℕ → ℕ = λ j. mem (buf + j) in
      elim (ℕ_discrete (p / sector_size) i) [
        | yes same ↦
            let at_sector : sector_at v table first (p / sector_size) ≡ sector =
              ap (sector_at v table first) same ∙ here in
            let now : contents v after table first p ≡ new (p % sector_size) =
              contents-sector_at v after table first p
              ∙ ap (λ x. after x (p % sector_size)) at_sector
              ∙ ap (λ f. f (p % sector_size)) (update_self w.disk sector new) in
            let before : contents v w.disk table first p ≡ w.disk sector (p % sector_size) =
              contents-sector_at v w.disk table first p
              ∙ ap (λ x. w.disk x (p % sector_size)) at_sector in
            elim (dec_lt p w.cfo) [
              | yes low ↦
                  let kept : new (p % sector_size) ≡ w.disk sector (p % sector_size) =
                    ground arith in
                  now
                  ∙ kept
                  ∙ sym before
                  ∙ old
                  ∙ sym (overwritten_before was start w.write_len n value p (omega arith))
              | no from ↦ elim (dec_lt p (w.cfo + n)) [
                | no past ↦
                    let kept : new (p % sector_size) ≡ w.disk sector (p % sector_size) =
                      ground arith in
                    now
                    ∙ kept
                    ∙ sym before
                    ∙ old
                    ∙ sym (overwritten_past was start w.write_len n value p (omega arith))
                | yes inside ↦
                    let index : buf + w.write_len + (p % sector_size - off) ≡ buf + (p - start) =
                      omega arith in
                    let got : new (p % sector_size)
                        ≡ mem (buf + w.write_len + (p % sector_size - off)) =
                      ground arith in
                    now
                    ∙ got
                    ∙ ap mem index
                    ∙ sym (
                        overwritten_behind was start w.write_len n value p (omega arith)
                          (omega arith))
              ]
            ]
        | no other ↦
            let differ : sector ≢ sector_at v table first (p / sector_size) =
              λ eq. other (sym (distinct i (p / sector_size) l (omega arith) (here ∙ eq))) in
            let now : contents v after table first p ≡ contents v w.disk table first p =
              contents-sector_at v after table first p
              ∙ ap (λ f. f (p % sector_size))
                  (update_ne w.disk sector new (sector_at v table first (p / sector_size)) differ)
              ∙ sym (contents-sector_at v w.disk table first p) in
            elim (dec_lt p w.cfo) [
              | yes low ↦
                  now ∙ old ∙ sym (overwritten_before was start w.write_len n value p (omega arith))
              | no from ↦
                  now ∙ old ∙ sym (overwritten_past was start w.write_len n value p (omega arith))
            ]
      ]

  skip-Inv :
      (i : ℕ) (w : Writing)
      → Inv v disk table first mem buf start max_cfo size i w
      → w.write_cfo + sector_size ≤ w.cfo
      → Inv v disk table first mem buf start max_cfo size
          (suc i)
          (record w { write_cfo = w.write_cfo + sector_size })
  skip-Inv i w x l = record {
    from = x.from;
    below = x.below;
    count = x.count;
    changed = x.changed;
    others = x.others;
    at = elim x.at [ inl h ↦ inl (omega arith, omega arith) | inr h ↦ absurd (omega arith) ];
  }

  done-Inv :
      (i j : ℕ) (w : Writing)
      → Inv v disk table first mem buf start max_cfo size i w
      → max_cfo ≤ w.write_cfo
      → Inv v disk table first mem buf start max_cfo size j w
  done-Inv i j w x l = record {
    from = x.from;
    below = x.below;
    count = x.count;
    changed = x.changed;
    others = x.others;
    at = elim x.at [ inl h ↦ let b = x.below in inr (omega arith, omega arith) | inr h ↦ inr h ];
  }

  copy-Inv :
      (i c s : ℕ) (w : Writing)
      → Inv v disk table first mem buf start max_cfo size i w
      → place v table first i ≡ (c, s)
      → w.cfo < w.write_cfo + sector_size
      → w.write_cfo < max_cfo
      → Inv v disk table first mem buf start max_cfo size
          (suc i)
          (write_copy (sector_of v c s) mem buf max_cfo w)
  unfolding write_copy
  copy-Inv i c s w x e l k = elim x.at [
    | inr done ↦ absurd (omega arith)
    | inl here ↦
        let off = w.cfo % sector_size in
        let n = min (sector_size - off) (max_cfo - w.cfo) in
        let count = x.count in
        let below = x.below in
        let from = x.from in
        record {
          from = omega arith;
          below = omega arith;
          count = omega arith;
          changed = λ p m.
              copied_one i c s n w p m (omega arith) e (omega arith) (omega arith) count
                (x.changed p m);
          others = λ y out.
              update_ne w.disk (sector_of v c s) _ y
                (λ eq. out i (omega arith) (ap (λ q. sector_of v q.0 q.1) e ∙ eq))
              ∙ x.others y out;
          at = elim (dec_le (sector_size - off) (max_cfo - w.cfo)) [
            | yes whole ↦ inl (omega arith, omega arith)
            | no part ↦ inr (omega arith, omega arith)
          ];
        }
  ]

  Inv-at :
      {w : Writing} (i j : ℕ)
      → i ≡ j
      → Inv v disk table first mem buf start max_cfo size i w
      → Inv v disk table first mem buf start max_cfo size j w
  Inv-at {w} i j e x = subst (λ k. Inv v disk table first mem buf start max_cfo size k w) e x

  -- The sectors that are left in a cluster.
  pub write_sectors-Inv :
      (n i c s : ℕ) (w : Writing)
      → Inv v disk table first mem buf start max_cfo size i w
      → (0 < n → place v table first i ≡ (c, s))
      → s + n ≡ v.sec_per_cluster
      → Inv v disk table first mem buf start max_cfo size
          (i + n)
          (write_sectors v mem c buf max_cfo s n w)
  unfolding write_sectors
  write_sectors-Inv zero i c s w x e l =
      subst (λ k. Inv v disk table first mem buf start max_cfo size k w) (the_same i) x
    where
      the_same : (i : ℕ) → i ≡ i + 0
      the_same i = omega arith
  write_sectors-Inv (suc n) i c s w x e l =
      let here : place v table first i ≡ (c, s) = e (omega arith) in
      let next : suc i + n ≡ i + suc n = omega arith in
      let after : 0 < n → place v table first (suc i) ≡ (c, s + 1) =
        λ more. place-inside v table first i c s here (omega arith) in
      elim (Bool-cases (leb (w.write_cfo + sector_size) w.cfo)) [
        | inl skip ↦ rw skip (
            Inv-at (suc i + n) (i + suc n) next (
              write_sectors-Inv n (suc i) c (s + 1) _ (skip-Inv i w x (ground arith)) after
                (omega arith)))
        | inr reached ↦ elim (Bool-cases (leb max_cfo w.write_cfo)) [
          | inl done ↦ rw (reached, done) (done-Inv i (i + suc n) w x (ground arith))
          | inr more ↦
              rw (reached, more)
                (Inv-at (suc i + n) (i + suc n) next (
                  write_sectors-Inv n (suc i) c (s + 1) _
                    (copy-Inv i c s w x here (ground arith) (ground arith)) after (omega arith)))
        ]
      ]
