-- ===== src/Fat32.antt =====
-- fs/fat32.c: sector numbers, the position in an open file, and the file names. A sector of the
-- disk is read as its bytes; the device driver below it is a parameter.
mod Seek
mod Name
mod Tests
use tiny_riscv_os.Prelude.{
  ℕ, zero, suc, ◌+◌, ◌-◌, ◌*◌, ◌/◌, ◌%◌, ◌^◌, Bool, Option, none, some, ltb, leb, ◌&&◌, ◌==◌,
  if◌then◌else◌, update,
}
use tiny_riscv_os.Buddy.{word}
use tiny_riscv_os.Bytes.{Bytes}

pub record Fat32Volume : Type 0 where
  pub first_data_sec : ℕ
  pub first_fat_sec : ℕ
  pub sec_per_cluster : ℕ
  pub fat_sz : ℕ

-- The fields of `struct file` that lseek uses; cfo is an int64_t in two's complement.
pub record File : Type 0 where
  pub cfo : ℕ
  pub dir_cluster : ℕ
  pub dir_index : ℕ

unfoldable pub cluster_to_sector : Fat32Volume → ℕ → ℕ
cluster_to_sector v cluster =
    ((cluster + word - 2) % word * v.sec_per_cluster + v.first_data_sec) % word

unfoldable pub fat32_table_sector_of_cluster : Fat32Volume → ℕ → ℕ
fat32_table_sector_of_cluster v cluster = (v.first_fat_sec + cluster / 128) % word

-- A uint32_t, the lowest byte first.
unfoldable pub uint32_at : Bytes → ℕ → ℕ
uint32_at m a = m a + 2 ^ 8 * m (a + 1) + 2 ^ 16 * m (a + 2) + 2 ^ 24 * m (a + 3)

-- `dentry->size`: a directory entry has 32 bytes, and its size field starts at byte 28.
unfoldable pub file_size : Fat32Volume → (ℕ → Bytes) → File → ℕ
file_size v read_sector f =
    uint32_at (read_sector (cluster_to_sector v f.dir_cluster)) (32 * f.dir_index + 28)

-- The new offset before it is brought into the file: SEEK_SET, SEEK_CUR, SEEK_END, and none where
-- the kernel halts in Err.
unfoldable pub seek_target : ℕ → ℕ → ℕ → ℕ → Option ℕ
seek_target size cfo offset whence =
    if whence == 0
    then some offset
    else if whence == 1
    then some ((cfo + offset) % word)
    else if whence == 2
    then some ((size + offset) % word)
    else none

-- `max(0, cfo)` and `min(size, cfo)`, as signed comparisons.
unfoldable pub clamp : ℕ → ℕ → ℕ
clamp size cfo =
    let from_zero = if ltb cfo (2 ^ 63) then cfo else 0 in
    if ltb size from_zero then size else from_zero

unfoldable pub fat32_lseek : Fat32Volume → (ℕ → Bytes) → File → ℕ → ℕ → Option (File × ℕ)
fat32_lseek v read_sector f offset whence =
    let size = file_size v read_sector f in
    elim (seek_target size f.cfo offset whence) [
      | none ↦ none
      | some target ↦ some (record f { cfo = clamp size target }, clamp size target)
    ]

-- `if (c >= 'a' && c <= 'z') c -= 32`
unfoldable pub upper : ℕ → ℕ
upper c = if leb 97 c && leb c 122 then c - 32 else c

-- The loop of to_upper_case from index i, on fuel.
unfoldable pub to_upper_case_loop : Bytes → ℕ → ℕ → ℕ → Option Bytes
to_upper_case_loop m str i zero = none
to_upper_case_loop m str i (suc fuel) =
    let rest = to_upper_case_loop (update m (str + i) (upper (m (str + i)))) str (i + 1) fuel in
    if m (str + i) == 0 then some m else rest

unfoldable pub to_upper_case : Bytes → ℕ → ℕ → Option Bytes
to_upper_case m str fuel = to_upper_case_loop m str 0 fuel
