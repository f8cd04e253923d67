-- ===== src/Syscall/Files.antt =====
-- What the system calls of arch/riscv/kernel/syscall.c do to registers and open files.
use tiny_riscv_os.Prelude.{
  ℕ, ◌+◌, ◌-◌, ◌%◌, ◌^◌, ◌≡◌, ◌≢◌, inl, inr, refl, ap, Bool, true, false, Option, none, some, ◌==◌,
  if◌then◌else◌, update_ne, bit_and, Bool-cases, arith,
}
use tiny_riscv_os.Buddy.{word}
use tiny_riscv_os.Result.{Result, ok, halted, ◌>>=◌}
use tiny_riscv_os.Vfs.{OpenFile, Machine, file_readable, file_writable}
use tiny_riscv_os.FileOpen.{file_open, call_lseek, call_read, call_write}
use tiny_riscv_os.Syscall.{
  a0, a1, a2, a7, Call, set_a0, set_file, finished, sys_seek, sys_read, sys_write, free_fd, open_at,
  sys_openat, sys_close, sys_getpid, Handlers, dispatch, syscall_handler, max_file_number,
  error_file_not_open,
}
use tiny_riscv_os.Result.Yields.{has_files-Yields, Yields, ok-Yields, halted-Yields, bind-Yields}

-- No register but a0 has changed.
abbrev pub SameRegs : Call → Call → Type 0
SameRegs s s' = (s'.regs.sepc ≡ s.regs.sepc) × ((r : ℕ) → a0 ≢ r → s'.regs.x r ≡ s.regs.x r)

same : (s : Call) → SameRegs s s
same s = (refl, λ r ne. refl)

set_a0-Same : (s : Call) (v : ℕ) → SameRegs s (set_a0 s v)
set_a0-Same s v = (refl, λ r ne. update_ne s.regs.x a0 v r ne)

finished-Same : (s : Call) (fd : ℕ) (r : Machine × OpenFile × ℕ) → SameRegs s (finished s fd r)
finished-Same s fd (m, f, v) = (refl, λ r ne. update_ne s.regs.x a0 v r ne)

finished-Yields :
    (s : Call) (fd : ℕ) (q : Result (Machine × OpenFile × ℕ))
    → Yields (SameRegs s) (q >>= λ r. ok (finished s fd r))
finished-Yields s fd q =
    bind-Yields (SameRegs s) (λ r. ok (finished s fd r)) q
      λ r e. ok-Yields (SameRegs s) (finished s fd r) (finished-Same s fd r)

-- The tests that sys_read and sys_write begin with.
guarded-Yields :
    (s : Call) (v : ℕ) (has closed off : Bool) (q : Result Call)
    → Yields (SameRegs s) q
    → Yields (SameRegs s) (
        if has
        then if closed then ok (set_a0 s v) else if off then ok (set_a0 s v) else q
        else halted)
guarded-Yields s v false closed off q k = halted-Yields (SameRegs s)
guarded-Yields s v true true off q k = ok-Yields (SameRegs s) (set_a0 s v) (set_a0-Same s v)
guarded-Yields s v true false true q k = ok-Yields (SameRegs s) (set_a0 s v) (set_a0-Same s v)
guarded-Yields s v true false false q k = k

-- The tests that sys_seek and sys_close begin with.
opened-Yields :
    (s : Call) (has closed : Bool) (q : Result Call)
    → Yields (SameRegs s) q
    → Yields (SameRegs s) (if has then if closed then ok s else q else halted)
opened-Yields s false closed q k = halted-Yields (SameRegs s)
opened-Yields s true true q k = ok-Yields (SameRegs s) s (same s)
opened-Yields s true false q k = k

sys_seek-Yields : (s : Call) → Yields (SameRegs s) (sys_seek s)
unfolding sys_seek
sys_seek-Yields s =
    let fd = s.regs.x a0 % 2 ^ 32 in
    let f = s.files fd in
    opened-Yields s s.has_files (f.opened == 0) _ (
      bind-Yields (SameRegs s) (λ (r : OpenFile × ℕ). ok (set_a0 (set_file s fd r.0) r.1))
        (call_lseek f.lseek s.machine f (s.regs.x a1) (s.regs.x a2 % 2 ^ 32))
        λ r e.
          ok-Yields (SameRegs s) (set_a0 (set_file s fd r.0) r.1)
            (refl, λ i ne. update_ne s.regs.x a0 r.1 i ne))

sys_read-Yields : (fuel : ℕ) (s : Call) → Yields (SameRegs s) (sys_read fuel s)
unfolding sys_read
sys_read-Yields fuel s =
    let fd = s.regs.x a0 in
    let f = s.files fd in
    guarded-Yields s error_file_not_open s.has_files (f.opened == 0)
      (bit_and f.perms file_readable == 0) _
      (finished-Yields s fd (call_read fuel f.read s.machine f (s.regs.x a1) (s.regs.x a2)))

sys_write-Yields : (fuel : ℕ) (s : Call) → Yields (SameRegs s) (sys_write fuel s)
unfolding sys_write
sys_write-Yields fuel s =
    let fd = s.regs.x a0 in
    let f = s.files fd in
    guarded-Yields s error_file_not_open s.has_files (f.opened == 0)
      (bit_and f.perms file_writable == 0) _
      (finished-Yields s fd (call_write fuel f.write s.machine f (s.regs.x a1) (s.regs.x a2)))

open_at-Yields : (fuel : ℕ) (s : Call) (fd : Option ℕ) → Yields (SameRegs s) (open_at fuel s fd)
unfolding open_at
open_at-Yields fuel s none = ok-Yields (SameRegs s) (set_a0 s (2 ^ 64 - 1)) (set_a0-Same s _)
open_at-Yields fuel s (some fd) =
    finished-Yields s fd (file_open fuel s.machine (s.files fd) (s.regs.x a1) (s.regs.x a2))

sys_openat-Yields : (fuel : ℕ) (s : Call) → Yields (SameRegs s) (sys_openat fuel s)
unfolding sys_openat
sys_openat-Yields fuel s =
    has_files-Yields (SameRegs s) s.has_files
      (open_at-Yields fuel s (free_fd s.files 3 (max_file_number - 3)))

sys_close-Yields : (s : Call) → Yields (SameRegs s) (sys_close s)
unfolding sys_close
sys_close-Yields s =
    let fd = s.regs.x a0 % 2 ^ 32 in
    let f = s.files fd in
    opened-Yields s s.has_files (f.opened == 0) _
      (ok-Yields (SameRegs s) (set_file s fd (record f { opened = 0 })) (same s))

-- The value of a chain of tests for equal numbers is that of a branch.
dispatch-Yields :
    (h : Handlers) (fuel id : ℕ) (s : Call) → id ≢ 220 → Yields (SameRegs s) (dispatch h fuel id s)
unfolding dispatch sys_getpid
dispatch-Yields h fuel id s ne = elim (Bool-cases (id == 56)) [
  | inl e ↦ rw e (sys_openat-Yields fuel s)
  | inr n1 ↦ elim (Bool-cases (id == 57)) [
    | inl e ↦ rw (n1, e) (sys_close-Yields s)
    | inr n2 ↦ elim (Bool-cases (id == 62)) [
      | inl e ↦ rw (n1, n2, e) (sys_seek-Yields s)
      | inr n3 ↦ elim (Bool-cases (id == 63)) [
        | inl e ↦ rw (n1, n2, n3, e) (sys_read-Yields fuel s)
        | inr n4 ↦ elim (Bool-cases (id == 64)) [
          | inl e ↦ rw (n1, n2, n3, n4, e) (sys_write-Yields fuel s)
          | inr n5 ↦ elim (Bool-cases (id == 172)) [
            | inl e ↦
                rw (n1, n2, n3, n4, n5, e)
                  (ok-Yields (SameRegs s) (set_a0 s s.pid) (set_a0-Same s s.pid))
            | inr n6 ↦
                let n7 : (id == 220) ≡ false = ground arith in
                rw (n1, n2, n3, n4, n5, n6, n7) (halted-Yields (SameRegs s))
          ]
        ]
      ]
    ]
  ]
]

-- A system call other than clone, where it ends, changes no saved register but a0, and the program
-- goes on behind its ecall, 4 bytes further.
pub syscall_handler-SameRegs :
    (h : Handlers) (fuel : ℕ) (s s' : Call)
    → s.regs.x a7 ≢ 220
    → syscall_handler h fuel s ≡ ok s'
    → (s'.regs.sepc ≡ (s.regs.sepc + 4) % word) × ((r : ℕ) → a0 ≢ r → s'.regs.x r ≡ s.regs.x r)
unfolding syscall_handler
syscall_handler-SameRegs h fuel s s' ne =
    bind-Yields P next (dispatch h fuel (s.regs.x a7) s)
      (λ s1 e.
        let (pc, regs) = dispatch-Yields h fuel (s.regs.x a7) s ne s1 e in
        ok-Yields P (moved s1) (ap (λ n. (n + 4) % word) pc, regs))
      s'
  where
    moved : Call → Call
    moved s1 = record s1 { regs = record s1.regs { sepc = (s1.regs.sepc + 4) % word } }

    next : Call → Result Call
    next s1 = ok (moved s1)

    P : Call → Type 0
    P s1 = (s1.regs.sepc ≡ (s.regs.sepc + 4) % word) × ((r : ℕ) → a0 ≢ r → s1.regs.x r ≡ s.regs.x r)
