-- ===== src/FatIo/Kept.antt =====
-- What a file on a FAT32 volume depends on: with the sector of the table and that of its entry, its
-- size and its sectors stay.
use tiny_riscv_os.Prelude.{
  ℕ, zero, suc, ◌+◌, ◌*◌, ◌/◌, ◌%◌, ◌≤◌, ◌<◌, ◌≡◌, refl, sym, ap, ◌∙◌, subst, arith,
}
use native.Mathlib.Omega.{div_any}
use tiny_riscv_os.Bytes.{Bytes}
use tiny_riscv_os.Fat32.{Fat32Volume}
use tiny_riscv_os.FatIo.{Fat32File}
use tiny_riscv_os.FatIo.Layout.{
  word_at, fat_entry, data_sector, cluster_at, file_sector, file_byte, file_length, IsIntact,
}

module _ (v : Fat32Volume) (disk disk' : ℕ → Bytes) (f : Fat32File) (x : IsIntact v disk f)
    (table : disk' v.first_fat_sec ≡ disk v.first_fat_sec)
    (dir : disk' (data_sector v f.dir_cluster 0) ≡ disk (data_sector v f.dir_cluster 0)) where
  pub file_length-same : file_length v disk' f ≡ file_length v disk f
  file_length-same = ap (λ b. word_at b (32 * f.dir_index + 28)) dir

  fat_entry-same : (c : ℕ) → c < 128 → fat_entry v disk' c ≡ fat_entry v disk c
  fat_entry-same c l =
      let sector : v.first_fat_sec + c / 128 ≡ v.first_fat_sec = omega arith in
      rw sector (ap (λ b. word_at b (4 * (c % 128))) table)

  cluster_at-same :
      (k : ℕ)
      → 512 * (v.sec_per_cluster * k) < file_length v disk f
      → cluster_at v disk' f.cluster k ≡ cluster_at v disk f.cluster k
  unfolding cluster_at
  cluster_at-same zero l = refl
  cluster_at-same (suc k) l =
      ap (fat_entry v disk') (cluster_at-same k (omega arith))
      ∙ fat_entry-same (cluster_at v disk f.cluster k) (x.chain k (omega arith)).1

  pub file_byte-same :
      (p : ℕ)
      → p < file_length v disk f
      → file_byte v disk' f.cluster p ≡ disk' (file_sector v disk f.cluster (p / 512)) (p % 512)
  file_byte-same p l =
      let parts = div_any (p / 512) v.sec_per_cluster in
      let c = cluster_at-same (p / 512 / v.sec_per_cluster) (omega arith) in
      ap (λ c. disk' (data_sector v c (p / 512 % v.sec_per_cluster)) (p % 512)) c

  pub IsIntact-same : IsIntact v disk' f
  IsIntact-same = record {
    some_sectors = x.some_sectors;
    dir_entry = x.dir_entry;
    dir_first = x.dir_first;
    dir_addressed = x.dir_addressed;
    table_addressed = x.table_addressed;
    addressed = x.addressed;
    chain = λ k l.
        let l' : 512 * (v.sec_per_cluster * k) < file_length v disk f =
          subst (λ m. 512 * (v.sec_per_cluster * k) < m) file_length-same l in
        subst (λ c. (2 ≤ c) × (c < 128)) (sym (cluster_at-same k l')) (x.chain k l');
  }
