-- ===== src/FatIo.antt =====
-- fs/fat32.c: fat32_read and fat32_write. The block device is a map from sector numbers to bytes:
-- a sector holds what was last written to it. fat32_buf and fat32_table_buf have the 512 bytes of
-- a sector. The line that Log prints on the console for every sector is not modelled. A file
-- position is never negative, since fat32_lseek clamps it, and stays far below 2^64. FatIo/Layout
-- holds the contents of a file as the volume lays them down, FatIo/Chain those that the loops go
-- through, FatIo/Sectors and FatIo/Read the proofs for fat32_read, FatIo/WriteSectors,
-- FatIo/WriteClusters, FatIo/Kept and FatIo/Write those for fat32_write.
pub mod Chain
pub mod Layout
mod Sectors
mod WriteSectors
mod WriteClusters
mod Kept
pub mod Read
pub mod Write
mod Tests
use tiny_riscv_os.Prelude.{
  ℕ, zero, suc, ◌+◌, ◌-◌, ◌*◌, ◌/◌, ◌%◌, ◌^◌, Bool, true, false, Option, none, some, List, [], ◌∷◌,
  ltb, leb, ◌&&◌, ◌==◌, if◌then◌else◌, update, min,
}
use tiny_riscv_os.Buddy.{word}
use tiny_riscv_os.Bytes.{Bytes}
use tiny_riscv_os.Bytes.Copy.{overwritten}
use tiny_riscv_os.Fat32.{Fat32Volume, cluster_to_sector, uint32_at, upper, to_upper_case}

abbrev pub sector_size : ℕ
sector_size = 512

-- The entries of fat32_table_buf, and those of a directory in fat32_buf. What stands behind the two
-- buffers is not known, so that an access there has no result.
abbrev pub table_entries : ℕ
table_entries = 128

abbrev pub dir_entries : ℕ
dir_entries = 16

abbrev pub end_of_chain : ℕ
end_of_chain = 0x0fff_fff8

-- `struct fat32_file` with its `dir`.
pub record Fat32File : Type 0 where
  pub cluster : ℕ
  pub dir_cluster : ℕ
  pub dir_index : ℕ

-- memcpy between two objects: the n bytes from d become those of the other object from s on.
abbrev pub memcpy_between : Bytes → ℕ → Bytes → ℕ → ℕ → Bytes
memcpy_between dst d src s n = overwritten dst d n (λ j. src (s + j))

-- `dentry->size`, of the entry of the open file in its directory.
unfoldable pub dentry_size : Fat32Volume → (ℕ → Bytes) → Fat32File → ℕ
dentry_size v disk f = uint32_at (disk (cluster_to_sector v f.dir_cluster)) (32 * f.dir_index + 28)

-- `*((uint32_t*)fat32_table_buf + cluster)`
unfoldable pub table_next : Bytes → ℕ → ℕ
table_next table cluster = uint32_at table (4 * cluster)

unfoldable pub sector_of : Fat32Volume → ℕ → ℕ → ℕ
sector_of v cluster sector = (cluster_to_sector v cluster + sector) % word

-- The variables of the loops of fat32_read, and the memory it fills.
pub record Reading : Type 0 where
  pub read_cfo : ℕ
  pub read_len : ℕ
  pub cfo : ℕ
  pub mem : Bytes

-- The part of a round that copies, once read_cfo has been set to cfo.
unfoldable pub read_copy : Bytes → ℕ → ℕ → Reading → Reading
read_copy sector buf max_cfo r =
    let sec_offset = r.cfo % sector_size in
    let copy_len = min (sector_size - sec_offset) (max_cfo - r.cfo) in
    record {
      read_cfo = r.cfo + copy_len;
      read_len = r.read_len + copy_len;
      cfo = r.cfo + copy_len;
      mem = memcpy_between r.mem (buf + r.read_len) sector sec_offset copy_len;
    }

-- The loop over the sectors of a cluster, with n sectors left.
unfoldable pub read_sectors : Fat32Volume → (ℕ → Bytes) → ℕ → ℕ → ℕ → ℕ → ℕ → Reading → Reading
read_sectors v disk cluster buf max_cfo sector zero r = r
read_sectors v disk cluster buf max_cfo sector (suc n) r =
    let skipped =
      read_sectors v disk cluster buf max_cfo (sector + 1) n
        (record r { read_cfo = r.read_cfo + sector_size }) in
    let copied =
      read_sectors v disk cluster buf max_cfo (sector + 1) n
        (read_copy (disk (sector_of v cluster sector)) buf max_cfo r) in
    if leb (r.read_cfo + sector_size) r.cfo
    then skipped
    else if leb max_cfo r.read_cfo
    then r
    else copied

-- The loop over the clusters, on fuel.
unfoldable pub read_clusters :
    ℕ → Fat32Volume → (ℕ → Bytes) → Bytes → ℕ → ℕ → ℕ → Reading → Option Reading
read_clusters zero v disk table cluster buf max_cfo r = none
read_clusters (suc fuel) v disk table cluster buf max_cfo r =
    let r' = read_sectors v disk cluster buf max_cfo 0 v.sec_per_cluster r in
    let rest = read_clusters fuel v disk table (table_next table cluster) buf max_cfo r' in
    if ltb cluster end_of_chain
    then if leb max_cfo r'.read_cfo
      then some r'
      else if ltb cluster table_entries
      then rest
      else none
    else some r

-- The memory, the new position, and the result.
unfoldable pub fat32_read :
    ℕ → Fat32Volume → (ℕ → Bytes) → Fat32File → ℕ → Bytes → ℕ → ℕ → Option (Bytes × ℕ × ℕ)
fat32_read fuel v disk f cfo mem buf len =
    let size = dentry_size v disk f in
    let max_cfo = cfo + min len (size - cfo) in
    if leb dir_entries f.dir_index
    then none
    else if leb size cfo
    then some (mem, cfo, 0)
    else elim (read_clusters fuel v disk (disk v.first_fat_sec) f.cluster buf max_cfo
        (record { read_cfo = 0; read_len = 0; cfo = cfo; mem = mem })) [
          | none ↦ none
          | some r ↦ some (r.mem, r.cfo, r.read_len)
        ]

-- The variables of the loops of fat32_write, and the disk it changes.
pub record Writing : Type 0 where
  pub write_cfo : ℕ
  pub write_len : ℕ
  pub cfo : ℕ
  pub disk : ℕ → Bytes

unfoldable pub write_copy : ℕ → Bytes → ℕ → ℕ → Writing → Writing
write_copy sector mem buf max_cfo w =
    let sec_offset = w.cfo % sector_size in
    let copy_len = min (sector_size - sec_offset) (max_cfo - w.cfo) in
    let changed = memcpy_between (w.disk sector) sec_offset mem (buf + w.write_len) copy_len in
    record {
      write_cfo = w.cfo + copy_len;
      write_len = w.write_len + copy_len;
      cfo = w.cfo + copy_len;
      disk = update w.disk sector changed;
    }

unfoldable pub write_sectors : Fat32Volume → Bytes → ℕ → ℕ → ℕ → ℕ → ℕ → Writing → Writing
write_sectors v mem cluster buf max_cfo sector zero w = w
write_sectors v mem cluster buf max_cfo sector (suc n) w =
    let skipped =
      write_sectors v mem cluster buf max_cfo (sector + 1) n
        (record w { write_cfo = w.write_cfo + sector_size }) in
    let copied =
      write_sectors v mem cluster buf max_cfo (sector + 1) n
        (write_copy (sector_of v cluster sector) mem buf max_cfo w) in
    if leb (w.write_cfo + sector_size) w.cfo
    then skipped
    else if leb max_cfo w.write_cfo
    then w
    else copied

unfoldable pub write_clusters :
    ℕ → Fat32Volume → Bytes → Bytes → ℕ → ℕ → ℕ → Writing → Option Writing
write_clusters zero v mem table cluster buf max_cfo w = none
write_clusters (suc fuel) v mem table cluster buf max_cfo w =
    let w' = write_sectors v mem cluster buf max_cfo 0 v.sec_per_cluster w in
    let rest = write_clusters fuel v mem table (table_next table cluster) buf max_cfo w' in
    if ltb cluster end_of_chain
    then if leb max_cfo w'.write_cfo
      then some w'
      else if ltb cluster table_entries
      then rest
      else none
    else some w

-- The disk, the new position, and the result.
unfoldable pub fat32_write :
    ℕ → Fat32Volume → (ℕ → Bytes) → Fat32File → ℕ → Bytes → ℕ → ℕ → Option ((ℕ → Bytes) × ℕ × ℕ)
fat32_write fuel v disk f cfo mem buf len =
    let size = dentry_size v disk f in
    let max_cfo = cfo + min len (size - cfo) in
    if leb dir_entries f.dir_index
    then none
    else if leb size cfo
    then some (disk, cfo, 0)
    else elim (write_clusters fuel v mem (disk v.first_fat_sec) f.cluster buf max_cfo
        (record { write_cfo = 0; write_len = 0; cfo = cfo; disk = disk })) [
          | none ↦ none
          | some w ↦ some (w.disk, w.cfo, w.write_len)
        ]
