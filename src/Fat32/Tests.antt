-- ===== src/Fat32/Tests.antt =====
-- Runs of fs/fat32.c on a disk whose directory entry gives a size of 300 bytes.
use tiny_riscv_os.Prelude.{ℕ, ◌+◌, ◌-◌, ◌%◌, ◌^◌, ◌<◌, ◌≡◌, refl, arith, ◌==◌, if◌then◌else◌}
use tiny_riscv_os.Buddy.{word}
use tiny_riscv_os.Bytes.{Bytes}
use tiny_riscv_os.Fat32.{Fat32Volume, File, cluster_to_sector, uint32_at, file_size, fat32_lseek}
use tiny_riscv_os.Fat32.Seek.{seek_base, moved, fat32_lseek_lem}

abbrev volume : Fat32Volume
volume = record { first_data_sec = 2048; first_fat_sec = 64; sec_per_cluster = 8; fat_sz = 1 }

-- Entry 1 of the root directory.
abbrev disk : ℕ → Bytes
disk sector a = if a == 60 then 44 else if a == 61 then 1 else 0

abbrev opened : File
opened = record { cfo = 200; dir_cluster = 2; dir_index = 1 }

size_300 : file_size volume disk opened ≡ 300
unfolding file_size uint32_at cluster_to_sector
size_300 = refl

size_small : file_size volume disk opened < 2 ^ 62
size_small = rw size_300 (omega arith)

fat32_lseek_lem_example :
    (fat32_lseek volume disk opened 150 1
      ≡ moved opened
          (file_size volume disk opened)
          (seek_base (file_size volume disk opened) 200 1 + 150))
    × (fat32_lseek volume disk opened ((word - 150) % word) 1
        ≡ moved opened
            (file_size volume disk opened)
            (seek_base (file_size volume disk opened) 200 1 - 150))
fat32_lseek_lem_example =
    fat32_lseek_lem volume disk opened 150 1 (omega arith) (omega arith) size_small (omega arith)

-- "ab1" at address 10.
abbrev name : Bytes
name a = if a == 10 then 97 else if a == 11 then 98 else if a == 12 then 49 else 0
