-- ===== src/Partition/Last.antt =====
-- The volume that mbr_init of fs/mbr.c leaves.
use tiny_riscv_os.Prelude.{
  ℕ, zero, suc, ◌+◌, ◌≤◌, ◌<◌, ◌≡◌, refl, sym, ◌∙◌, Bool, true, false, ◌&&◌, ◌==◌, if◌then◌else◌,
  Bool-cases, inl, inr, ℕ_discrete, arith,
}
use tiny_riscv_os.Bytes.{Bytes}
use tiny_riscv_os.Fat32.{Fat32Volume}
use tiny_riscv_os.Partition.{
  fat32_init, is_fat32, partition_init, entry_type, lba_first_sector, mbr_loop, mbr_init,
}

-- Entry i of the table is a Linux partition with the signature of a FAT32 header.
abbrev pub has_fat32 : (ℕ → Bytes) → ℕ → Bool
has_fat32 disk i = entry_type (disk 0) i == 0x83 && is_fat32 disk (lba_first_sector (disk 0) i)

mbr_step :
    (n i : ℕ) (disk : ℕ → Bytes) (v : Fat32Volume)
    → mbr_loop (suc n) disk i v
      ≡ mbr_loop n disk
          (i + 1)
          (if has_fat32 disk i then fat32_init disk (lba_first_sector (disk 0) i) else v)
unfolding mbr_loop partition_init
mbr_step n i disk v = elim (Bool-cases (entry_type (disk 0) i == 0x83)) [
  | inl e ↦ rw e refl
  | inr e ↦ rw e refl
]

none_left :
    (n i : ℕ) (disk : ℕ → Bytes) (v : Fat32Volume)
    → ((j : ℕ) → i ≤ j → j < i + n → has_fat32 disk j ≡ false)
    → mbr_loop n disk i v ≡ v
none_left zero i disk v h = unfold mbr_loop in refl
none_left (suc n) i disk v h =
    mbr_step n i disk v
    ∙ rw (h i (omega arith) (omega arith))
        (none_left n (i + 1) disk v (λ j a b. h j (omega arith) (omega arith)))

last_left :
    (n i k : ℕ) (disk : ℕ → Bytes) (v : Fat32Volume)
    → i ≤ k
    → k < i + n
    → has_fat32 disk k ≡ true
    → ((j : ℕ) → k < j → j < i + n → has_fat32 disk j ≡ false)
    → mbr_loop n disk i v ≡ fat32_init disk (lba_first_sector (disk 0) k)
last_left zero i k disk v a b h later = absurd (omega arith)
last_left (suc n) i k disk v a b h later = elim (ℕ_discrete i k) [
  | yes here ↦
      let usable : has_fat32 disk i ≡ true = rw here h in
      mbr_step n i disk v
      ∙ rw (usable, sym here)
          (none_left n (i + 1) disk (fat32_init disk (lba_first_sector (disk 0) i))
            (λ j c d. later j (omega arith) (omega arith)))
  | no before ↦
      mbr_step n i disk v
      ∙ last_left n (i + 1) k disk _ (omega arith) (omega arith) h
          (λ j c d. later j c (omega arith))
]

-- mbr_init leaves the volume of the last of the four partitions that is of type 0x83 and has the
-- signature of FAT32: an earlier one is forgotten.
pub mbr_init-last :
    (k : ℕ) (disk : ℕ → Bytes) (v : Fat32Volume)
    → k < 4
    → has_fat32 disk k ≡ true
    → ((j : ℕ) → k < j → j < 4 → has_fat32 disk j ≡ false)
    → mbr_init disk v ≡ fat32_init disk (lba_first_sector (disk 0) k)
unfolding mbr_init
mbr_init-last k disk v b h later = last_left 4 0 k disk v (omega arith) b h later
