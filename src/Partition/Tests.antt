-- ===== src/Partition/Tests.antt =====
-- A run of mbr_init of fs/mbr.c, with two FAT32 partitions.
use tiny_riscv_os.Prelude.{ℕ, ◌<◌, ◌≡◌, refl, true, false, ◌==◌, if◌then◌else◌, arith}
use tiny_riscv_os.Bytes.{Bytes}
use tiny_riscv_os.Fat32.{Fat32Volume, uint32_at}
use tiny_riscv_os.Partition.{uint16_at, fat32_init, is_fat32, lba_first_sector, mbr_init}
use tiny_riscv_os.Partition.Last.{has_fat32, mbr_init-last}

-- Entries 0 and 2 of the table are of type 0x83, and start at sectors 3 and 9.
abbrev mbr : Bytes
mbr a =
    if a == 450
    then 0x83
    else if a == 454
    then 3
    else if a == 482
    then 0x83
    else if a == 486
    then 9
    else 0

abbrev header : Bytes
header a = if a == 510 then 0x55 else if a == 511 then 0xaa else 1

abbrev disk : ℕ → Bytes
disk sector = if sector == 0 then mbr else header

abbrev nothing : Fat32Volume
nothing = record { first_data_sec = 0; first_fat_sec = 0; sec_per_cluster = 0; fat_sz = 0 }

third : has_fat32 disk 2 ≡ true
unfolding is_fat32 uint16_at uint32_at
third = refl

none_later : (j : ℕ) → 2 < j → j < 4 → has_fat32 disk j ≡ false
unfolding is_fat32 uint16_at uint32_at
none_later j a b = let last : j ≡ 3 = omega arith in rw last refl

mbr_init-last_example : mbr_init disk nothing ≡ fat32_init disk (lba_first_sector (disk 0) 2)
mbr_init-last_example = mbr_init-last 2 disk nothing (omega arith) third none_later
