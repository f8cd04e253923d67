-- ===== src/FatIo/Write.antt =====
-- fat32_write of fs/fat32.c against the contents of the file.
use tiny_riscv_os.Prelude.{
  ℕ, suc, ◌+◌, ◌-◌, ◌*◌, ◌/◌, ◌%◌, ◌<◌, ◌≡◌, ◌≢◌, refl, sym, ap, ◌∙◌, some, min, arith,
}
use tiny_riscv_os.Bytes.{Bytes}
use tiny_riscv_os.Bytes.Copy.{overwritten}
use tiny_riscv_os.Fat32.{Fat32Volume}
use tiny_riscv_os.FatIo.{Fat32File, dentry_size, fat32_read, fat32_write}
use tiny_riscv_os.FatIo.Chain.{contents, contents-sector_at}
use tiny_riscv_os.FatIo.Layout.{
  data_sector, file_sector, file_byte, file_length, IsIntact, place-file_sector,
  dentry_size-file_length, contents-file_byte,
}
use tiny_riscv_os.FatIo.Kept.{file_length-same, file_byte-same, IsIntact-same}
use tiny_riscv_os.FatIo.WriteClusters.{fat32_write-contents}
use tiny_riscv_os.FatIo.Read.{overwritten_same, fat32_read_lem}

-- The sectors of the file are different ones.
abbrev pub HasDistinctSectors : Fat32Volume → (ℕ → Bytes) → Fat32File → Type 0
HasDistinctSectors v disk f =
    (i j : ℕ)
    → 512 * i < file_length v disk f
    → 512 * j < file_length v disk f
    → file_sector v disk f.cluster i ≡ file_sector v disk f.cluster j
    → i ≡ j

-- No sector of the file is sector x.
abbrev pub LiesOutside : Fat32Volume → (ℕ → Bytes) → Fat32File → ℕ → Type 0
LiesOutside v disk f x =
    (i : ℕ) → 512 * i < file_length v disk f → file_sector v disk f.cluster i ≢ x

overwritten_base :
    (m m' : Bytes) (d n : ℕ) (v : ℕ → ℕ) (a : ℕ)
    → m a ≡ m' a
    → overwritten m d n v a ≡ overwritten m' d n v a
overwritten_base m m' d n v a e = ground arith

-- fat32_write stores bytes of the buffer in the file from the position on, as many as were given
-- but none behind the end of the file: the other bytes in the sectors of the file stay, up to its
-- end, and so do all sectors that are not the file's. The position moves by that many, and their
-- number is returned. This holds where the entry of the file and its chain of clusters are intact
-- and no sector occurs in it twice, with more rounds as fuel than the file has bytes.
pub fat32_write_lem :
    (fuel : ℕ) (v : Fat32Volume) (disk : ℕ → Bytes) (f : Fat32File) (cfo : ℕ) (mem : Bytes)
    (buf len : ℕ)
    → IsIntact v disk f
    → HasDistinctSectors v disk f
    → file_length v disk f < fuel
    → (disk' : ℕ → Bytes) × (fat32_write fuel v disk f cfo mem buf len
        ≡ some (
          disk',
          cfo + min len (file_length v disk f - cfo),
          min len (file_length v disk f - cfo),
        ))
      × ((p : ℕ)
          → p < file_length v disk f
          → disk' (file_sector v disk f.cluster (p / 512)) (p % 512)
            ≡ overwritten
                (file_byte v disk f.cluster)
                cfo
                (min len (file_length v disk f - cfo))
                (λ j. mem (buf + j))
                p)
      × ((x : ℕ) → LiesOutside v disk f x → disk' x ≡ disk x)
fat32_write_lem fuel v disk f cfo mem buf len x distinct l =
    let n = v.sec_per_cluster - 1 in
    let whole : suc n ≡ v.sec_per_cluster = let some_sectors = x.some_sectors in omega arith in
    let size = dentry_size-file_length v disk f n whole x in
    let at = place-file_sector v disk f n whole x in
    let (disk', eq, new, same) =
      fat32_write-contents fuel n v disk f cfo mem buf len whole x.dir_entry
        (λ i b. (at i (omega arith)).0)
        (λ i j a b e.
          distinct i j (omega arith) (omega arith)
            (sym (at i (omega arith)).1 ∙ e ∙ (at j (omega arith)).1))
        (omega arith) in
    let count : min len (dentry_size v disk f - cfo) ≡ min len (file_length v disk f - cfo) =
      ap (λ m. min len (m - cfo)) size in
    let stored : ℕ → ℕ → ℕ = λ m p.
      overwritten (contents v disk (disk v.first_fat_sec) f.cluster) cfo m (λ j. mem (buf + j)) p in
    (
      disk',
      eq ∙ ap (λ m. some (disk', cfo + m, m)) count,
      (λ p b.
          ap (λ t. disk' t (p % 512)) (sym (at (p / 512) (omega arith)).1)
          ∙ sym (contents-sector_at v disk' (disk v.first_fat_sec) f.cluster p)
          ∙ new p (omega arith)
          ∙ ap (λ m. stored m p) count
          ∙ overwritten_base (contents v disk (disk v.first_fat_sec) f.cluster)
              (file_byte v disk f.cluster) cfo (min len (file_length v disk f - cfo))
              (λ j. mem (buf + j)) p (contents-file_byte v disk f n whole x p b)),
      λ t out. same t (λ i b e. out i (omega arith) (sym (at i (omega arith)).1 ∙ e)),
    )

overwritten_at :
    (m : Bytes) (d n : ℕ) (v : ℕ → ℕ) (j : ℕ) → j < n → overwritten m d n v (d + j) ≡ v j
overwritten_at m d n v j l = let index : d + j - d ≡ j = omega arith in ground arith

-- What fat32_write has written, fat32_read reads back from the same position: if neither the sector
-- of the table nor that of the directory entry is one of the file, the buffer then holds the bytes
-- that were written. The conditions are those of both functions.
pub fat32_read-fat32_write :
    (fuel : ℕ) (v : Fat32Volume) (disk : ℕ → Bytes) (f : Fat32File) (cfo : ℕ) (mem : Bytes)
    (buf len : ℕ) (mem2 : Bytes) (buf2 : ℕ)
    → IsIntact v disk f
    → HasDistinctSectors v disk f
    → LiesOutside v disk f v.first_fat_sec
    → LiesOutside v disk f (data_sector v f.dir_cluster 0)
    → file_length v disk f < fuel
    → (disk' : ℕ → Bytes) × (mem' : Bytes) × (k : ℕ) × (k ≡ min len (file_length v disk f - cfo))
      × (fat32_write fuel v disk f cfo mem buf len ≡ some (disk', cfo + k, k))
      × (fat32_read fuel v disk' f cfo mem2 buf2 len ≡ some (mem', cfo + k, k))
      × ((a : ℕ) → mem' a ≡ overwritten mem2 buf2 k (λ j. mem (buf + j)) a)
fat32_read-fat32_write fuel v disk f cfo mem buf len mem2 buf2 x distinct fat dir l =
    let (disk', written, new, same) = fat32_write_lem fuel v disk f cfo mem buf len x distinct l in
    let table = same v.first_fat_sec fat in
    let entry = same (data_sector v f.dir_cluster 0) dir in
    let size = file_length-same v disk disk' f x table entry in
    let (mem', read, got) =
      fat32_read_lem fuel v disk' f cfo mem2 buf2 len (IsIntact-same v disk disk' f x table entry)
        (omega arith) in
    let k = min len (file_length v disk f - cfo) in
    let count : min len (file_length v disk' f - cfo) ≡ k = ap (λ m. min len (m - cfo)) size in
    let byte : (j : ℕ) → j < k → file_byte v disk' f.cluster (cfo + j) ≡ mem (buf + j) = λ j m.
      file_byte-same v disk disk' f x table entry (cfo + j) (omega arith)
      ∙ new (cfo + j) (omega arith)
      ∙ overwritten_at (file_byte v disk f.cluster) cfo k (λ j. mem (buf + j)) j m in
    (
      disk',
      mem',
      k,
      refl,
      written,
      read ∙ ap (λ m. some (mem', cfo + m, m)) count,
      λ a.
          got a
          ∙ ap (λ m. overwritten mem2 buf2 m (λ j. file_byte v disk' f.cluster (cfo + j)) a) count
          ∙ overwritten_same mem2 buf2 k (λ j. file_byte v disk' f.cluster (cfo + j))
              (λ j. mem (buf + j)) a byte,
    )
