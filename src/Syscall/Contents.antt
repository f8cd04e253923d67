-- ===== src/Syscall/Contents.antt =====
-- Reading an open file: sys_read of arch/riscv/kernel/syscall.c with fat32_read of fs/fat32.c.
use tiny_riscv_os.Prelude.{
  ℕ, ◌+◌, ◌-◌, ◌<◌, ◌≡◌, ◌≢◌, refl, true, false, ◌==◌, update_ne, update_self, bit_and, min, arith,
}
use tiny_riscv_os.Bytes.Copy.{overwritten}
use tiny_riscv_os.FatIo.Layout.{file_byte, file_length, IsIntact}
use tiny_riscv_os.FatIo.Read.{fat32_read_lem}
use tiny_riscv_os.Result.{ok}
use tiny_riscv_os.Vfs.{fat32, OpenFile, file_readable}
use tiny_riscv_os.FileOpen.{call_read}
use tiny_riscv_os.Syscall.{a0, a1, a2, Call, finished, sys_read}

-- sys_read on a descriptor opened for reading on a FAT32 file: the program's buffer gets the bytes
-- of the file from its position on, the number of them is returned and added to the position, and
-- the disk and every other descriptor stay as they are; so does the console, apart from the lines of
-- Log, which are not modelled. This holds where the entry of the file and its chain of clusters are
-- intact, with more rounds as fuel than the file has bytes.
pub sys_read-contents :
    (fuel : ℕ) (s : Call) (f : OpenFile)
    → s.has_files ≡ true
    → s.files (s.regs.x a0) ≡ f
    → f.opened ≢ 0
    → bit_and f.perms file_readable ≢ 0
    → f.read ≡ fat32
    → IsIntact s.machine.volume s.machine.disk f.fat32_file
    → file_length s.machine.volume s.machine.disk f.fat32_file < fuel
    → (s' : Call) × (k : ℕ) × (sys_read fuel s ≡ ok s')
      × (k ≡ min (s.regs.x a2) (file_length s.machine.volume s.machine.disk f.fat32_file - f.cfo))
      × (s'.regs.x a0 ≡ k)
      × (s'.files (s.regs.x a0) ≡ record f { cfo = f.cfo + k })
      × ((fd : ℕ) → s.regs.x a0 ≢ fd → s'.files fd ≡ s.files fd)
      × (s'.machine ≡ record s.machine { mem = s'.machine.mem })
      × ((a : ℕ)
          → s'.machine.mem a
            ≡ overwritten s.machine.mem
                (s.regs.x a1)
                k
                (λ j. file_byte s.machine.volume s.machine.disk f.fat32_file.cluster (f.cfo + j))
                a)
unfolding sys_read call_read
sys_read-contents fuel s f h at o r drv intact l =
    let m = s.machine in
    let k = min (s.regs.x a2) (file_length m.volume m.disk f.fat32_file - f.cfo) in
    let (mem', eq, all) =
      fat32_read_lem fuel m.volume m.disk f.fat32_file f.cfo m.mem (s.regs.x a1) (s.regs.x a2)
        intact l in
    let is_open : (f.opened == 0) ≡ false = ground arith in
    let readable : (bit_and f.perms file_readable == 0) ≡ false = ground arith in
    let f' = record f { cfo = f.cfo + k } in
    (
      finished s (s.regs.x a0) (record m { mem = mem' }, f', k),
      k,
      rw (h, at, is_open, readable, drv, eq) refl,
      refl,
      update_self s.regs.x a0 k,
      update_self s.files (s.regs.x a0) f',
      λ fd ne. update_ne s.files (s.regs.x a0) f' fd ne,
      refl,
      all,
    )
