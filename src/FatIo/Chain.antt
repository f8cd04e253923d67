-- ===== src/FatIo/Chain.antt =====
-- The contents of a file on a FAT32 volume of fs/fat32.c: its sectors, in order along the chain.
use tiny_riscv_os.Prelude.{
  ℕ, zero, suc, ◌+◌, ◌/◌, ◌%◌, ◌≤◌, ◌<◌, ◌≡◌, refl, ltb, if◌then◌else◌, arith,
}
use tiny_riscv_os.Bytes.{Bytes}
use tiny_riscv_os.Fat32.{Fat32Volume}
use tiny_riscv_os.FatIo.{sector_size, table_next, sector_of}

-- The sector after one, as a cluster and a number in it.
abbrev pub next_place : Fat32Volume → Bytes → ℕ × ℕ → ℕ × ℕ
next_place v table (cluster, sector) =
    if ltb (sector + 1) v.sec_per_cluster
    then (cluster, sector + 1)
    else (table_next table cluster, 0)

-- The i-th sector of a file that begins at a cluster.
unfoldable pub place : Fat32Volume → Bytes → ℕ → ℕ → ℕ × ℕ
place v table cluster zero = (cluster, 0)
place v table cluster (suc i) = next_place v table (place v table cluster i)

-- The byte at a position of the file.
unfoldable pub contents : Fat32Volume → (ℕ → Bytes) → Bytes → ℕ → ℕ → ℕ
contents v disk table cluster p =
    let (c, s) = place v table cluster (p / sector_size) in disk (sector_of v c s) (p % sector_size)

-- The sector of the disk that holds the i-th sector of the file.
abbrev pub sector_at : Fat32Volume → Bytes → ℕ → ℕ → ℕ
sector_at v table first i = sector_of v (place v table first i).0 (place v table first i).1

pub contents-sector_at :
    (v : Fat32Volume) (disk : ℕ → Bytes) (table : Bytes) (first p : ℕ)
    → contents v disk table first p
      ≡ disk (sector_at v table first (p / sector_size)) (p % sector_size)
unfolding contents
contents-sector_at v disk table first p = refl

-- Within a cluster the number of the sector grows.
pub place-inside :
    (v : Fat32Volume) (table : Bytes) (first i c s : ℕ)
    → place v table first i ≡ (c, s)
    → s + 1 < v.sec_per_cluster
    → place v table first (suc i) ≡ (c, s + 1)
unfolding place
place-inside v table first i c s e l = rw e (ground arith)

-- After its last sector the next cluster begins.
pub place-last :
    (v : Fat32Volume) (table : Bytes) (first i c s : ℕ)
    → place v table first i ≡ (c, s)
    → v.sec_per_cluster ≤ s + 1
    → place v table first (suc i) ≡ (table_next table c, 0)
unfolding place
place-last v table first i c s e l = rw e (ground arith)

pub contents-place :
    (v : Fat32Volume) (disk : ℕ → Bytes) (table : Bytes) (first i c s p : ℕ)
    → place v table first i ≡ (c, s)
    → p / sector_size ≡ i
    → contents v disk table first p ≡ disk (sector_of v c s) (p % sector_size)
unfolding contents
contents-place v disk table first i c s p e h = rw (h, e) refl
