-- ===== src/Syscall/Open.antt =====
-- Descriptors and errors in arch/riscv/kernel/syscall.c and file_open of fs/fs.c.
use tiny_riscv_os.Prelude.{
  ℕ, zero, suc, ◌+◌, ◌-◌, ◌%◌, ◌^◌, ◌<◌, ◌≡◌, ◌≢◌, refl, sym, ap, subst, ◌∙◌, true, false, some,
  ◌==◌, update_self, bit_and, arith,
}
use tiny_riscv_os.Bytes.{strlen}
use tiny_riscv_os.Result.{ok, null_call}
use tiny_riscv_os.Vfs.{null, OpenFile, file_init, file_readable}
use tiny_riscv_os.FileOpen.{file_open, opened_file, get_fs_type, call_lseek, call_read}
use tiny_riscv_os.Syscall.{
  a0, a1, a2, Call, set_a0, finished, sys_seek, sys_read, free_fd, open_at, sys_openat,
}

-- A stream of the table that file_init returns has no lseek: a seek on it calls a null pointer.
pub sys_seek-file_init :
    (s : Call)
    → s.has_files ≡ true
    → s.files ≡ file_init
    → s.regs.x a0 % 2 ^ 32 < 3
    → sys_seek s ≡ null_call
unfolding sys_seek file_init call_lseek
sys_seek-file_init s h e l = stream (s.regs.x a0 % 2 ^ 32) refl l
  where
    stream : (fd : ℕ) → s.regs.x a0 % 2 ^ 32 ≡ fd → fd < 3 → sys_seek s ≡ null_call
    stream zero d l = rw (h, d, e) refl
    stream (suc zero) d l = rw (h, d, e) refl
    stream (suc (suc zero)) d l = rw (h, d, e) refl
    stream (suc (suc (suc n))) d l = absurd (omega arith)

-- free_fd finds the first descriptor that is not opened.
free_fd-some :
    (files : ℕ → OpenFile) (i n k : ℕ)
    → ((j : ℕ) → j < k → (files (i + j)).opened ≢ 0)
    → (files (i + k)).opened ≡ 0
    → k < n
    → free_fd files i n ≡ some (i + k)
unfolding free_fd
free_fd-some files i zero k b o l = absurd (omega arith)
free_fd-some files i (suc n) zero b o l =
    let here : i + 0 ≡ i = omega arith in
    let zero_here : (files i).opened ≡ 0 = ap (λ a. (files a).opened) (sym here) ∙ o in
    let free : ((files i).opened == 0) ≡ true = ground arith in rw free (ap some (sym here))
free_fd-some files i (suc n) (suc k) b o l =
    let here : i + 0 ≡ i = omega arith in
    let next : i + suc k ≡ i + 1 + k = omega arith in
    let opened_here : (files i).opened ≢ 0 =
      subst (λ a. (files a).opened ≢ 0) here (b 0 (omega arith)) in
    let busy : ((files i).opened == 0) ≡ false = ground arith in
    let rest : free_fd files (i + 1) n ≡ some (i + 1 + k) =
      free_fd-some files (i + 1) n k
        (λ j m. subst (λ a. (files a).opened ≢ 0) (after j) (b (suc j) (omega arith)))
        (ap (λ a. (files a).opened) (sym next) ∙ o) (omega arith) in
    rw busy (rest ∙ ap some (sym next))
  where
    after : (j : ℕ) → i + suc j ≡ i + 1 + j
    after j = omega arith

-- If the path is a string outside /fat32/ and descriptor 3 + fd is the first one from 3 on that is
-- not opened, sys_openat returns -1 and yet leaves that descriptor opened, with no function behind
-- it: a read of it that the flags allow calls a null pointer.
pub sys_openat-unknown :
    (fuel k fd : ℕ) (s : Call)
    → s.has_files ≡ true
    → strlen s.machine.mem (s.regs.x a1) fuel ≡ some k
    → get_fs_type s.machine.mem (s.regs.x a1) ≢ 1
    → ((j : ℕ) → j < fd → (s.files (3 + j)).opened ≢ 0)
    → (s.files (3 + fd)).opened ≡ 0
    → fd < 13
    → (s.files (3 + fd)).read ≡ null
    → bit_and (s.regs.x a2 % 2 ^ 32) file_readable ≢ 0
    → (s' : Call) × (sys_openat fuel s ≡ ok s')
      × (s'.regs.x a0 ≡ 2 ^ 64 - 1)
      × ((s'.files (3 + fd)).opened ≡ 1)
      × (sys_read fuel (set_a0 s' (3 + fd)) ≡ null_call)
unfolding sys_openat open_at file_open opened_file sys_read call_read
sys_openat-unknown fuel k fd s h len fs busy free small n r =
    let found : free_fd s.files 3 13 ≡ some (3 + fd) =
      free_fd-some s.files 3 13 fd busy free small in
    let other : (get_fs_type s.machine.mem (s.regs.x a1) == 1) ≡ false = ground arith in
    let f = opened_file s.machine.mem (s.files (3 + fd)) (s.regs.x a1) (s.regs.x a2) k in
    let s' = finished s (3 + fd) (s.machine, f, 2 ^ 64 - 1) in
    let slot : s'.files (3 + fd) ≡ f = update_self s.files (3 + fd) f in
    let readable : (bit_and (s.regs.x a2 % 2 ^ 32) file_readable == 0) ≡ false = ground arith in
    (
      s',
      rw (h, found, len, other) refl,
      update_self s.regs.x a0 (2 ^ 64 - 1),
      rw slot refl,
      rw (update_self s'.regs.x a0 (3 + fd), slot, h, readable, n) refl,
    )
