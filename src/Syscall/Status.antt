-- ===== src/Syscall/Status.antt =====
-- What sys_openat of arch/riscv/kernel/syscall.c returns.
use tiny_riscv_os.Prelude.{
  ℕ, ◌-◌, ◌^◌, ◌≡◌, ◌⊎◌, inl, inr, refl, subst, sym, Bool, true, false, Bool-cases, Option, none,
  some, ◌==◌, if◌then◌else◌, update_self,
}
use tiny_riscv_os.Bytes.{strlen}
use tiny_riscv_os.Result.{ok, or_stuck}
use tiny_riscv_os.Vfs.{fat32, OpenFile, Machine}
use tiny_riscv_os.FatIo.{Fat32File}
use tiny_riscv_os.FileOpen.{file_open, open_fat32, fat32_open_file, opened_file}
use tiny_riscv_os.Syscall.{
  a0, Call, set_a0, finished, free_fd, open_at, sys_openat, max_file_number,
}
use tiny_riscv_os.Result.Yields.{has_files-Yields, Yields, ok-Yields, bind-Yields}

abbrev IsStatus : ℕ → Type 0
IsStatus r = (r ≡ 0) ⊎ (r ≡ 2 ^ 64 - 1)

abbrev HasStatus : Machine × OpenFile × ℕ → Type 0
HasStatus r = IsStatus r.2

abbrev ReturnsStatus : Call → Type 0
ReturnsStatus s = IsStatus (s.regs.x a0)

if-IsStatus : (b : Bool) → IsStatus (if b then 2 ^ 64 - 1 else 0)
if-IsStatus true = inr refl
if-IsStatus false = inl refl

open_fat32-HasStatus :
    (fuel : ℕ) (m : Machine) (f : OpenFile) (path : ℕ) → Yields HasStatus (open_fat32 fuel m f path)
unfolding open_fat32
open_fat32-HasStatus fuel m f path =
    bind-Yields HasStatus
      (λ (r : Machine × Fat32File). ok (
        r.0,
        record f { lseek = fat32; write = fat32; read = fat32; fat32_file = r.1 },
        if r.1.cluster == 0 then 2 ^ 64 - 1 else 0,
      ))
      (fat32_open_file fuel m path) λ r e. ok-Yields HasStatus _ (if-IsStatus (r.1.cluster == 0))

file_open-HasStatus :
    (fuel : ℕ) (m : Machine) (f : OpenFile) (path flags : ℕ)
    → Yields HasStatus (file_open fuel m f path flags)
unfolding file_open
file_open-HasStatus fuel m f path flags =
    bind-Yields HasStatus _ (or_stuck (strlen m.mem path fuel)) λ len e.
      elim (Bool-cases ((opened_file m.mem f path flags len).fs_type == 1)) [
        | inl t ↦ rw t (open_fat32-HasStatus fuel m (opened_file m.mem f path flags len) path)
        | inr t ↦
            rw t
              (ok-Yields HasStatus (m, opened_file m.mem f path flags len, 2 ^ 64 - 1) (inr refl))
      ]

open_at-ReturnsStatus :
    (fuel : ℕ) (s : Call) (fd : Option ℕ) → Yields ReturnsStatus (open_at fuel s fd)
unfolding open_at
open_at-ReturnsStatus fuel s none =
    ok-Yields ReturnsStatus (set_a0 s (2 ^ 64 - 1)) (inr (update_self s.regs.x a0 (2 ^ 64 - 1)))
open_at-ReturnsStatus fuel s (some fd) =
    bind-Yields ReturnsStatus (λ r. ok (finished s fd r))
      (file_open fuel s.machine (s.files fd) (s.regs.x 11) (s.regs.x 12))
      λ r e. ok-Yields ReturnsStatus (finished s fd r) (
        subst IsStatus (sym (update_self s.regs.x a0 r.2))
          (file_open-HasStatus fuel s.machine (s.files fd) (s.regs.x 11) (s.regs.x 12) r e))

-- Where sys_openat ends, a0 holds 0 or -1.
pub sys_openat_result :
    (fuel : ℕ) (s s' : Call)
    → sys_openat fuel s ≡ ok s'
    → (s'.regs.x a0 ≡ 0) ⊎ (s'.regs.x a0 ≡ 2 ^ 64 - 1)
unfolding sys_openat
sys_openat_result fuel s =
    has_files-Yields ReturnsStatus s.has_files
      (open_at-ReturnsStatus fuel s (free_fd s.files 3 (max_file_number - 3)))
