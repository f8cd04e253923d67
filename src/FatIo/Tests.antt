-- ===== src/FatIo/Tests.antt =====
-- Runs of fat32_read and fat32_write of fs/fat32.c on a file of 300 bytes in cluster 5.
use tiny_riscv_os.Prelude.{
  ℕ, ◌+◌, ◌-◌, ◌*◌, ◌/◌, ◌%◌, ◌<◌, ◌≡◌, ◌≢◌, refl, sym, ap, ◌∙◌, Option, some, min, ◌==◌,
  if◌then◌else◌, arith,
}
use tiny_riscv_os.Bytes.{Bytes}
use tiny_riscv_os.Bytes.Copy.{overwritten}
use tiny_riscv_os.Fat32.{Fat32Volume, cluster_to_sector, uint32_at}
use tiny_riscv_os.FatIo.{
  fat32_write, Fat32File, dentry_size, table_next, sector_of, read_copy, read_sectors,
  read_clusters, fat32_read,
}
use tiny_riscv_os.FatIo.Layout.{cluster_at, file_sector, file_byte, file_length, IsIntact}
use tiny_riscv_os.FatIo.Write.{
  HasDistinctSectors, LiesOutside, fat32_write_lem, fat32_read-fat32_write,
}
use tiny_riscv_os.FatIo.Read.{fat32_read_lem}

abbrev volume : Fat32Volume
volume = record { first_data_sec = 2048; first_fat_sec = 64; sec_per_cluster = 2; fat_sz = 1 }

-- Entry 1 of the root directory, and the sectors of cluster 5.
abbrev disk : ℕ → Bytes
disk sector a =
    if sector == 2048
    then if a == 60 then 44 else if a == 61 then 1 else 0
    else if sector == 2054
    then a % 7
    else 0

abbrev file : Fat32File
file = record { cluster = 5; dir_cluster = 2; dir_index = 1 }

file_300-IsIntact : IsIntact volume disk file
unfolding cluster_at
file_300-IsIntact = record {
  some_sectors = omega arith;
  dir_entry = omega arith;
  dir_first = omega arith;
  dir_addressed = omega arith;
  table_addressed = omega arith;
  addressed = omega arith;
  chain = λ k l. let first : k ≡ 0 = omega arith in rw first (omega arith, omega arith);
}

fat32_read_lem_example :
    (mem' : Bytes) × (fat32_read 301 volume disk file 290 (λ a. 0) 1000 50
      ≡ some (mem', 290 + min 50 (300 - 290), min 50 (300 - 290)))
    × ((a : ℕ)
        → mem' a
          ≡ overwritten
              (λ a. 0)
              1000
              (min 50 (300 - 290))
              (λ j. file_byte volume disk 5 (290 + j))
              a)
fat32_read_lem_example =
    fat32_read_lem 301 volume disk file 290 (λ a. 0) 1000 50 file_300-IsIntact (omega arith)

abbrev bytes_read : Option (Bytes × ℕ × ℕ) → ℕ
bytes_read (some (mem, cfo, n)) = mem 1003
bytes_read _ = 999

-- Byte 293 of the file, 293 % 7.
byte_293 : bytes_read (fat32_read 4 volume disk file 290 (λ a. 0) 1000 50) ≡ 6
unfolding fat32_read read_clusters read_sectors read_copy dentry_size uint32_at cluster_to_sector
    table_next sector_of
byte_293 = refl

only_first : (i : ℕ) → 512 * i < file_length volume disk file → i ≡ 0
only_first i l = omega arith

first_sector : file_sector volume disk 5 0 ≡ 2054
unfolding cluster_at
first_sector = refl

lies_outside : (x : ℕ) → 2054 ≢ x → LiesOutside volume disk file x
lies_outside x ne i l e =
    ne (sym first_sector ∙ ap (file_sector volume disk 5) (sym (only_first i l)) ∙ e)

distinct : HasDistinctSectors volume disk file
distinct i j a b e = only_first i a ∙ sym (only_first j b)

fat32_write_lem_example :
    (disk' : ℕ → Bytes) × (fat32_write 301 volume disk file 290 (λ a. 7) 1000 50
      ≡ some (disk', 290 + min 50 (300 - 290), min 50 (300 - 290)))
    × ((p : ℕ)
        → p < 300
        → disk' (file_sector volume disk 5 (p / 512)) (p % 512)
          ≡ overwritten (file_byte volume disk 5) 290 (min 50 (300 - 290)) (λ j. 7) p)
    × ((x : ℕ) → LiesOutside volume disk file x → disk' x ≡ disk x)
fat32_write_lem_example =
    fat32_write_lem 301 volume disk file 290 (λ a. 7) 1000 50 file_300-IsIntact distinct
      (omega arith)

fat32_read-fat32_write_example :
    (disk' : ℕ → Bytes) × (mem' : Bytes) × (k : ℕ) × (k ≡ min 50 (300 - 290))
    × (fat32_write 301 volume disk file 290 (λ a. 7) 1000 50 ≡ some (disk', 290 + k, k))
    × (fat32_read 301 volume disk' file 290 (λ a. 0) 2000 50 ≡ some (mem', 290 + k, k))
    × ((a : ℕ) → mem' a ≡ overwritten (λ a. 0) 2000 k (λ j. 7) a)
fat32_read-fat32_write_example =
    fat32_read-fat32_write 301 volume disk file 290 (λ a. 7) 1000 50 (λ a. 0) 2000 file_300-IsIntact
      distinct (lies_outside 64 (omega arith)) (lies_outside 2048 (omega arith)) (omega arith)
