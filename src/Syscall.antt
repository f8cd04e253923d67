-- ===== src/Syscall.antt =====
-- arch/riscv/kernel/syscall.c and arch/riscv/kernel/trap.c. The handlers for fork, page faults and
-- the timer are parameters of the dispatch. The table of files is a function from the descriptor:
-- the source does not compare a descriptor with MAX_FILE_NUMBER, and from 16 on the function stands
-- for what lies behind the table. Syscall/Files holds the proofs on registers,
-- Syscall/Open and Syscall/Status those on opening, Syscall/Contents on reading a file, Syscall/Console on output.
mod Files
mod Open
mod Status
mod Contents
mod Console
mod Tests
use tiny_riscv_os.Prelude.{
  ℕ, zero, suc, ◌+◌, ◌-◌, ◌*◌, ◌/◌, ◌%◌, ◌^◌, Bool, true, false, Option, none, some, ltb, leb, ◌&&◌,
  ◌||◌, ◌==◌, if◌then◌else◌, update, bit_and,
}
use tiny_riscv_os.Buddy.{word}
use tiny_riscv_os.Result.{Result, ok, null_call, halted, stuck, ◌>>=◌}
use tiny_riscv_os.Vfs.{OpenFile, Machine, file_readable, file_writable}
use tiny_riscv_os.FileOpen.{file_open, call_lseek, call_read, call_write}

-- `struct pt_regs`
pub record PtRegs : Type 0 where
  pub x : ℕ → ℕ
  pub sepc : ℕ
  pub sstatus : ℕ

abbrev pub a0 : ℕ
a0 = 10

abbrev pub a1 : ℕ
a1 = 11

abbrev pub a2 : ℕ
a2 = 12

abbrev pub a7 : ℕ
a7 = 17

abbrev pub max_file_number : ℕ
max_file_number = 16

abbrev pub error_file_not_open : ℕ
error_file_not_open = 255

-- The saved registers, the open files of the task, whether it has a table of them, its number, and
-- the rest of the machine.
pub record Call : Type 0 where
  pub regs : PtRegs
  pub files : ℕ → OpenFile
  pub has_files : Bool
  pub pid : ℕ
  pub machine : Machine

abbrev pub set_a0 : Call → ℕ → Call
set_a0 s r = record s { regs = record s.regs { x = update s.regs.x a0 r } }

abbrev pub set_file : Call → ℕ → OpenFile → Call
set_file s fd f = record s { files = update s.files fd f }

-- After a call through a pointer of the file: the machine, the file and the result are stored.
abbrev pub finished : Call → ℕ → Machine × OpenFile × ℕ → Call
finished s fd (m, f, r) = set_a0 (set_file (record s { machine = m }) fd f) r

unfoldable pub sys_seek : Call → Result Call
sys_seek s =
    let fd = s.regs.x a0 % 2 ^ 32 in
    let f = s.files fd in
    let seek = call_lseek f.lseek s.machine f (s.regs.x a1) (s.regs.x a2 % 2 ^ 32) >>= λ (f', r).
    ok (set_a0 (set_file s fd f') r) in
    if s.has_files then if f.opened == 0 then ok s else seek else halted

unfoldable pub sys_read : ℕ → Call → Result Call
sys_read fuel s =
    let fd = s.regs.x a0 in
    let f = s.files fd in
    let read =
      call_read fuel f.read s.machine f (s.regs.x a1) (s.regs.x a2) >>= λ r. ok (finished s fd r) in
    if s.has_files
    then if f.opened == 0
      then ok (set_a0 s error_file_not_open)
      else if bit_and f.perms file_readable == 0
      then ok (set_a0 s error_file_not_open)
      else read
    else halted

unfoldable pub sys_write : ℕ → Call → Result Call
sys_write fuel s =
    let fd = s.regs.x a0 in
    let f = s.files fd in
    let write = call_write fuel f.write s.machine f (s.regs.x a1) (s.regs.x a2) >>= λ r.
    ok (finished s fd r) in
    if s.has_files
    then if f.opened == 0
      then ok (set_a0 s error_file_not_open)
      else if bit_and f.perms file_writable == 0
      then ok (set_a0 s error_file_not_open)
      else write
    else halted

-- The first descriptor that is not opened, from i on, with n left.
unfoldable pub free_fd : (ℕ → OpenFile) → ℕ → ℕ → Option ℕ
free_fd files i zero = none
free_fd files i (suc n) =
    let rest = free_fd files (i + 1) n in if (files i).opened == 0 then some i else rest

unfoldable pub open_at : ℕ → Call → Option ℕ → Result Call
open_at fuel s none = ok (set_a0 s (2 ^ 64 - 1))
open_at fuel s (some fd) =
    file_open fuel s.machine (s.files fd) (s.regs.x a1) (s.regs.x a2) >>= λ r. ok (finished s fd r)

unfoldable pub sys_openat : ℕ → Call → Result Call
sys_openat fuel s =
    if s.has_files then open_at fuel s (free_fd s.files 3 (max_file_number - 3)) else halted

unfoldable pub sys_close : Call → Result Call
sys_close s =
    let fd = s.regs.x a0 % 2 ^ 32 in
    let f = s.files fd in
    if s.has_files
    then if f.opened == 0 then ok s else ok (set_file s fd (record f { opened = 0 }))
    else halted

unfoldable pub sys_getpid : Call → Result Call
sys_getpid s = ok (set_a0 s s.pid)

-- What do_fork, do_page_fault and do_timer do to the state.
pub record Handlers : Type 0 where
  pub do_fork : Call → Result (Call × ℕ)
  pub do_page_fault : Call → Result Call
  pub do_timer : Call → Result Call

unfoldable pub sys_clone : Handlers → Call → Result Call
sys_clone h s = h.do_fork s >>= λ (s', r). ok (set_a0 s' r)

-- A number without an entry in syscall_table ends in Err, or behind the table anywhere.
unfoldable pub dispatch : Handlers → ℕ → ℕ → Call → Result Call
dispatch h fuel id s =
    if id == 56
    then sys_openat fuel s
    else if id == 57
    then sys_close s
    else if id == 62
    then sys_seek s
    else if id == 63
    then sys_read fuel s
    else if id == 64
    then sys_write fuel s
    else if id == 172
    then sys_getpid s
    else if id == 220
    then sys_clone h s
    else halted

unfoldable pub syscall_handler : Handlers → ℕ → Call → Result Call
syscall_handler h fuel s = dispatch h fuel (s.regs.x a7) s >>= λ s'.
    ok (record s' { regs = record s'.regs { sepc = (s'.regs.sepc + 4) % word } })

unfoldable pub trap_handler : Handlers → ℕ → ℕ → Call → Result Call
trap_handler h fuel scause s =
    let exception_code = bit_and scause 0x7fff_ffff in
    if bit_and (scause / 2 ^ 63) 1 == 0
    then if (exception_code == 13 || exception_code == 15) || exception_code == 12
      then h.do_page_fault s
      else if exception_code == 8
      then syscall_handler h fuel s
      else halted
    else h.do_timer s
