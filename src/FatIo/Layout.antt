-- ===== src/FatIo/Layout.antt =====
-- The contents of a file as a FAT32 volume lays them down, without the functions of fs/fat32.c: the
-- entries of the table are 32-bit words, the lowest byte first, 128 to a sector, and the clusters
-- are numbered from 2 on. Below stands that the sectors of FatIo/Chain are these.
use tiny_riscv_os.Prelude.{
  ℕ, zero, suc, ◌+◌, ◌-◌, ◌*◌, ◌/◌, ◌%◌, ◌^◌, ◌≤◌, ◌<◌, ◌≡◌, refl, sym, ap, ◌∙◌, subst, arith,
}
use native.Mathlib.Omega.{div_any}
use native.Mathlib.Nat.{mod-lt}
use tiny_riscv_os.Buddy.{word}
use tiny_riscv_os.Bytes.{Bytes}
use tiny_riscv_os.Fat32.{Fat32Volume, cluster_to_sector, uint32_at}
use tiny_riscv_os.FatIo.{Fat32File, dentry_size, table_next, sector_of}
use tiny_riscv_os.FatIo.Sectors.{place-next}
use tiny_riscv_os.FatIo.Chain.{place, contents, sector_at, place-inside, contents-sector_at}

-- The 32-bit word at a byte of a sector.
abbrev pub word_at : Bytes → ℕ → ℕ
word_at b i = b i + 256 * b (i + 1) + 65536 * b (i + 2) + 16777216 * b (i + 3)

-- The entry of the table for a cluster.
abbrev pub fat_entry : Fat32Volume → (ℕ → Bytes) → ℕ → ℕ
fat_entry v disk c = word_at (disk (v.first_fat_sec + c / 128)) (4 * (c % 128))

-- A sector of a cluster.
abbrev pub data_sector : Fat32Volume → ℕ → ℕ → ℕ
data_sector v c s = v.first_data_sec + (c - 2) * v.sec_per_cluster + s

-- The k-th cluster of a file.
unfoldable pub cluster_at : Fat32Volume → (ℕ → Bytes) → ℕ → ℕ → ℕ
cluster_at v disk first zero = first
cluster_at v disk first (suc k) = fat_entry v disk (cluster_at v disk first k)

-- The i-th sector of a file.
abbrev pub file_sector : Fat32Volume → (ℕ → Bytes) → ℕ → ℕ → ℕ
file_sector v disk first i =
    data_sector v (cluster_at v disk first (i / v.sec_per_cluster)) (i % v.sec_per_cluster)

-- The byte at a position of a file.
abbrev pub file_byte : Fat32Volume → (ℕ → Bytes) → ℕ → ℕ → ℕ
file_byte v disk first p = disk (file_sector v disk first (p / 512)) (p % 512)

-- The size in the entry of the file: the word at byte 28 of the 32 bytes.
abbrev pub file_length : Fat32Volume → (ℕ → Bytes) → Fat32File → ℕ
file_length v disk f = word_at (disk (data_sector v f.dir_cluster 0)) (32 * f.dir_index + 28)

-- The entry of the file lies in the first sector of its directory, the clusters of the file reach to
-- its end and have their entries in the first sector of the table, and the numbers of all these
-- sectors have 32 bits, as the block device takes them.
pub record IsIntact (v : Fat32Volume) (disk : ℕ → Bytes) (f : Fat32File) : Type 0 where
  pub some_sectors : 0 < v.sec_per_cluster
  pub dir_entry : f.dir_index < 16
  pub dir_first : 2 ≤ f.dir_cluster
  pub dir_addressed : data_sector v f.dir_cluster 0 < 2 ^ 32
  pub table_addressed : v.first_fat_sec < 2 ^ 32
  pub addressed : v.first_data_sec + 126 * v.sec_per_cluster < 2 ^ 32
  pub chain :
      (k : ℕ)
      → 512 * (v.sec_per_cluster * k) < file_length v disk f
      → (2 ≤ cluster_at v disk f.cluster k) × (cluster_at v disk f.cluster k < 128)

table_next-fat_entry :
    (v : Fat32Volume) (disk : ℕ → Bytes) (c : ℕ)
    → c < 128
    → table_next (disk v.first_fat_sec) c ≡ fat_entry v disk c
unfolding table_next uint32_at
table_next-fat_entry v disk c l =
    let sector : v.first_fat_sec + c / 128 ≡ v.first_fat_sec = omega arith in
    let index : c % 128 ≡ c = omega arith in rw (sector, index) refl

times_le : (a b n : ℕ) → a ≤ b → a * n ≤ b * n
times_le a b zero l = omega arith
times_le a b (suc n) l = let rest = times_le a b n l in omega arith

cluster_to_sector_lem :
    (v : Fat32Volume) (c : ℕ)
    → 0 < v.sec_per_cluster
    → 2 ≤ c
    → data_sector v c 0 < word
    → cluster_to_sector v c ≡ data_sector v c 0
unfolding cluster_to_sector
cluster_to_sector_lem v c some_sectors l b =
    let small = times_le 1 v.sec_per_cluster (c - 2) some_sectors in
    let less : (c + word - 2) % word ≡ c - 2 = omega arith in rw less (omega arith)

sector_of-data_sector :
    (v : Fat32Volume) (c s : ℕ)
    → v.first_data_sec + 126 * v.sec_per_cluster < word
    → 2 ≤ c
    → c < 128
    → s < v.sec_per_cluster
    → sector_of v c s ≡ data_sector v c s
unfolding sector_of
sector_of-data_sector v c s b lo hi l =
    let all = times_le (c - 2) 125 v.sec_per_cluster (omega arith) in
    let start = cluster_to_sector_lem v c (omega arith) lo (omega arith) in rw start (omega arith)

module _ (v : Fat32Volume) (disk : ℕ → Bytes) (f : Fat32File) (n : ℕ)
    (whole : suc n ≡ v.sec_per_cluster) (x : IsIntact v disk f) where
  -- The clusters begin where the loops say they do.
  place_cluster :
      (k : ℕ)
      → 512 * (v.sec_per_cluster * k) < file_length v disk f
      → place v (disk v.first_fat_sec) f.cluster (v.sec_per_cluster * k)
        ≡ (cluster_at v disk f.cluster k, 0)
  unfolding place cluster_at
  place_cluster zero l = let start : v.sec_per_cluster * 0 ≡ 0 = omega arith in rw start refl
  place_cluster (suc k) l =
      let here = place_cluster k (omega arith) in
      let (lo, hi) = x.chain k (omega arith) in
      let index : v.sec_per_cluster * suc k ≡ v.sec_per_cluster * k + suc n =
        omega (arith, whole) in
      rw index (
        place-next v (disk v.first_fat_sec) f.cluster n (v.sec_per_cluster * k)
          (cluster_at v disk f.cluster k) 0 here (omega (arith, whole))
        ∙ ap (λ c. (c, 0)) (table_next-fat_entry v disk (cluster_at v disk f.cluster k) hi))

  place_inside :
      (k s : ℕ)
      → 512 * (v.sec_per_cluster * k) < file_length v disk f
      → s < v.sec_per_cluster
      → place v (disk v.first_fat_sec) f.cluster (v.sec_per_cluster * k + s)
        ≡ (cluster_at v disk f.cluster k, s)
  place_inside k zero l b =
      let index : v.sec_per_cluster * k + 0 ≡ v.sec_per_cluster * k = omega arith in
      rw index (place_cluster k l)
  place_inside k (suc s) l b =
      let index : v.sec_per_cluster * k + suc s ≡ suc (v.sec_per_cluster * k + s) = omega arith in
      let next : s + 1 ≡ suc s = omega arith in
      rw
        (
          index,
          place-inside v (disk v.first_fat_sec) f.cluster (v.sec_per_cluster * k + s)
              (cluster_at v disk f.cluster k) s (place_inside k s l (omega arith)) (omega arith),
          next,
        )
        refl

  -- The i-th sector of the file is the same for the loops and for the volume.
  pub place-file_sector :
      (i : ℕ)
      → 512 * i < file_length v disk f
      → ((place v (disk v.first_fat_sec) f.cluster i).0 < 128)
        × (sector_at v (disk v.first_fat_sec) f.cluster i ≡ file_sector v disk f.cluster i)
  place-file_sector i l =
      let k = i / v.sec_per_cluster in
      let s = i % v.sec_per_cluster in
      let parts : v.sec_per_cluster * k + s ≡ i = div_any i v.sec_per_cluster in
      let inside : s < v.sec_per_cluster = mod-lt i (x.some_sectors) in
      let (lo, hi) = x.chain k (omega arith) in
      let here : place v (disk v.first_fat_sec) f.cluster i ≡ (cluster_at v disk f.cluster k, s) =
        ap (place v (disk v.first_fat_sec) f.cluster) (sym parts)
        ∙ place_inside k s (omega arith) inside in
      (
        subst (λ p. p.0 < 128) (sym here) hi,
        ap (λ p. sector_of v p.0 p.1) here
            ∙ sector_of-data_sector v (cluster_at v disk f.cluster k) s (omega (arith, x.addressed))
                lo hi inside,
      )

  pub dentry_size-file_length : dentry_size v disk f ≡ file_length v disk f
  unfolding dentry_size uint32_at
  dentry_size-file_length =
      let start =
        cluster_to_sector_lem v f.dir_cluster x.some_sectors x.dir_first
          (omega (arith, x.dir_addressed)) in
      rw start refl

  pub contents-file_byte :
      (p : ℕ)
      → p < file_length v disk f
      → contents v disk (disk v.first_fat_sec) f.cluster p ≡ file_byte v disk f.cluster p
  contents-file_byte p l =
      contents-sector_at v disk (disk v.first_fat_sec) f.cluster p
      ∙ ap (λ t. disk t (p % 512)) (place-file_sector (p / 512) (omega arith)).1
