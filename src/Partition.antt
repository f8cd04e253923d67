-- ===== src/Partition.antt =====
-- fs/mbr.c, and the parts of fs/fat32.c that read the header of a volume and its table. A sector of
-- the disk is read as its bytes.
mod Last
mod Tests
use tiny_riscv_os.Prelude.{
  ℕ, zero, suc, ◌+◌, ◌-◌, ◌*◌, ◌/◌, ◌%◌, ◌^◌, Bool, true, false, Option, none, some, ◌==◌,
  if◌then◌else◌,
}
use tiny_riscv_os.Buddy.{word}
use tiny_riscv_os.Bytes.{Bytes}
use tiny_riscv_os.Fat32.{Fat32Volume, uint32_at}

-- A uint16_t, the lower byte first.
unfoldable pub uint16_at : Bytes → ℕ → ℕ
uint16_at m a = m a + 2 ^ 8 * m (a + 1)

-- The offset within the sector is taken modulo 128, as in the source.
unfoldable pub next_cluster : Fat32Volume → (ℕ → Bytes) → ℕ → ℕ
next_cluster v disk cluster =
    let fat_offset = cluster * 4 % word in
    let fat_sector = (v.first_fat_sec + fat_offset / 512) % word in
    uint32_at (disk fat_sector) (fat_offset % 128)

-- The volume that starts at sector lba; the product of the two counts is a uint32_t.
unfoldable pub fat32_init : (ℕ → Bytes) → ℕ → Fat32Volume
fat32_init disk lba =
    let header = disk lba in
    let first_fat_sec = (lba + uint16_at header 14) % word in
    record {
      first_data_sec = (first_fat_sec + header 16 * uint32_at header 36 % 2 ^ 32) % word;
      first_fat_sec = first_fat_sec;
      sec_per_cluster = header 13;
      fat_sz = uint32_at header 36;
    }

unfoldable pub is_fat32 : (ℕ → Bytes) → ℕ → Bool
is_fat32 disk lba = uint16_at (disk lba) 510 == 0xaa55

-- The index of the first slash, with 2^32 - 1 for -1, on fuel.
unfoldable pub next_slash : ℕ → Bytes → ℕ → ℕ → Option ℕ
next_slash zero m path i = none
next_slash (suc fuel) m path i =
    let rest = next_slash fuel m path (i + 1) in
    if m (path + i) == 0 then some (2 ^ 32 - 1) else if m (path + i) == 47 then some i else rest

-- `fat32_volume` after the call.
unfoldable pub partition_init : (ℕ → Bytes) → ℕ → Fat32Volume → Fat32Volume
partition_init disk start_lba v = if is_fat32 disk start_lba then fat32_init disk start_lba else v

abbrev pub entry_type : Bytes → ℕ → ℕ
entry_type mbr i = mbr (446 + 16 * i + 4)

abbrev pub lba_first_sector : Bytes → ℕ → ℕ
lba_first_sector mbr i = uint32_at mbr (446 + 16 * i + 8)

-- The loop over the entries of the table, with n entries left.
unfoldable pub mbr_loop : ℕ → (ℕ → Bytes) → ℕ → Fat32Volume → Fat32Volume
mbr_loop zero disk i v = v
mbr_loop (suc n) disk i v =
    let v' =
      if entry_type (disk 0) i == 0x83
      then partition_init disk (lba_first_sector (disk 0) i) v
      else v in
    mbr_loop n disk (i + 1) v'

unfoldable pub mbr_init : (ℕ → Bytes) → Fat32Volume → Fat32Volume
mbr_init disk v = mbr_loop 4 disk 0 v
