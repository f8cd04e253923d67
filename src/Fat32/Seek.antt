-- ===== src/Fat32/Seek.antt =====
-- Where fat32_lseek of fs/fat32.c leaves the position.
use tiny_riscv_os.Prelude.{
  ℕ, ◌+◌, ◌-◌, ◌%◌, ◌^◌, ◌≤◌, ◌<◌, ◌≡◌, ap, ◌∙◌, min, Option, none, some, ◌==◌, if◌then◌else◌,
  arith,
}
use tiny_riscv_os.Buddy.{word}
use tiny_riscv_os.Bytes.{Bytes}
use tiny_riscv_os.Fat32.{Fat32Volume, File, file_size, seek_target, clamp, fat32_lseek}

-- What an offset counts from.
abbrev pub seek_base : ℕ → ℕ → ℕ → ℕ
seek_base size cfo whence = if whence == 0 then 0 else if whence == 1 then cfo else size

-- The position at p, or at the end of a file that is shorter.
abbrev pub moved : File → ℕ → ℕ → Option (File × ℕ)
moved f size p = some (record f { cfo = min size p }, min size p)

target-forward :
    (size cfo n whence : ℕ)
    → whence ≤ 2
    → cfo < 2 ^ 62
    → size < 2 ^ 62
    → n < 2 ^ 62
    → seek_target size cfo n whence ≡ some (seek_base size cfo whence + n)
unfolding seek_target
target-forward size cfo n whence w c s l = ground arith

clamp_low : (size p : ℕ) → p < 2 ^ 63 → clamp size p ≡ min size p
unfolding clamp
clamp_low size p l = ground arith

target-back :
    (size cfo n whence : ℕ)
    → whence ≤ 2
    → cfo < 2 ^ 62
    → size < 2 ^ 62
    → n < 2 ^ 62
    → seek_target size cfo ((word - n) % word) whence
      ≡ some ((seek_base size cfo whence + word - n) % word)
unfolding seek_target
target-back size cfo n whence w c s l = ground arith

clamp_back :
    (size base n : ℕ)
    → base < 2 ^ 62
    → n < 2 ^ 62
    → clamp size ((base + word - n) % word) ≡ min size (base - n)
unfolding clamp
clamp_back size base n b l = ground arith

base_small :
    (size cfo whence : ℕ) → cfo < 2 ^ 62 → size < 2 ^ 62 → seek_base size cfo whence < 2 ^ 62
base_small size cfo whence c s = ground arith

-- The last steps, from the target to the result.
lseek_step :
    (v : Fat32Volume) (read_sector : ℕ → Bytes) (f : File) (offset whence target p : ℕ)
    → seek_target (file_size v read_sector f) f.cfo offset whence ≡ some target
    → clamp (file_size v read_sector f) target ≡ min (file_size v read_sector f) p
    → fat32_lseek v read_sector f offset whence ≡ moved f (file_size v read_sector f) p
unfolding fat32_lseek
lseek_step v read_sector f offset whence target p e c =
    ap
      (λ o. elim o [
        | none ↦ none
        | some t ↦ some (
          record f { cfo = clamp (file_size v read_sector f) t },
          clamp (file_size v read_sector f) t,
        )
      ])
      e
    ∙ ap (λ q. some (record f { cfo = q }, q)) c

-- For a position and a file size below 2^62 and an offset of less than 2^62 either way, fat32_lseek
-- with one of the three modes counts from the start, the position or the end, and stops at 0 and at
-- the end of the file; the result is the new position.
pub fat32_lseek_lem :
    (v : Fat32Volume) (read_sector : ℕ → Bytes) (f : File) (n whence : ℕ)
    → whence ≤ 2
    → f.cfo < 2 ^ 62
    → file_size v read_sector f < 2 ^ 62
    → n < 2 ^ 62
    → (fat32_lseek v read_sector f n whence
        ≡ moved f
            (file_size v read_sector f)
            (seek_base (file_size v read_sector f) f.cfo whence + n))
      × (fat32_lseek v read_sector f ((word - n) % word) whence
          ≡ moved f
              (file_size v read_sector f)
              (seek_base (file_size v read_sector f) f.cfo whence - n))
fat32_lseek_lem v read_sector f n whence w c s l =
    let size = file_size v read_sector f in
    let base = seek_base size f.cfo whence in
    let small : base < 2 ^ 62 = base_small size f.cfo whence c s in
    (
      lseek_step v read_sector f n whence _ (base + n) (target-forward size f.cfo n whence w c s l)
          (clamp_low size (base + n) (omega arith)),
      lseek_step v read_sector f ((word - n) % word) whence _ (base - n)
          (target-back size f.cfo n whence w c s l) (clamp_back size base n small l),
    )
