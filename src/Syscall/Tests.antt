-- ===== src/Syscall/Tests.antt =====
-- Runs of the system calls of arch/riscv/kernel/syscall.c.
use tiny_riscv_os.Prelude.{
  ℕ, ◌+◌, ◌-◌, ◌%◌, ◌≡◌, ◌≢◌, refl, true, [], ◌∷◌, ◌==◌, if◌then◌else◌, update, min, arith,
}
use tiny_riscv_os.Buddy.{word}
use tiny_riscv_os.Bytes.{Bytes}
use tiny_riscv_os.Bytes.Copy.{overwritten}
use tiny_riscv_os.FatIo.Layout.{cluster_at, file_byte, IsIntact}
use tiny_riscv_os.Result.{ok, halted}
use tiny_riscv_os.Vfs.{fat32, OpenFile, Machine, no_file, file_init}
use tiny_riscv_os.Syscall.{
  a0, Call, sys_read, sys_write, Handlers, sys_getpid, dispatch, syscall_handler,
}
use tiny_riscv_os.Syscall.Files.{syscall_handler-SameRegs}
use tiny_riscv_os.Syscall.Console.{shown, sys_write-IsPlain}
use tiny_riscv_os.Syscall.Contents.{sys_read-contents}

-- "hi" at 100.
abbrev memory : Bytes
memory a = if a == 100 then 104 else if a == 101 then 105 else 0

-- Entry 1 of the root directory, for a file of 300 bytes in cluster 5.
abbrev disk : ℕ → Bytes
disk sector a =
    if sector == 2048
    then if a == 60 then 44 else if a == 61 then 1 else 0
    else if sector == 2054
    then a % 7
    else 0

abbrev machine : Machine
machine = record {
  mem = memory;
  volume = record { first_data_sec = 2048; first_fat_sec = 64; sec_per_cluster = 2; fat_sz = 1 };
  disk = disk;
  stack_room = 2048;
  keys = [];
  console = [];
}

-- A call with number id in a7.
abbrev call : ℕ → ℕ → ℕ → ℕ → (ℕ → OpenFile) → Call
call id x0 x1 x2 files = record {
  regs = record {
    x = λ r.
        if r == 17
        then id
        else if r == 10
        then x0
        else if r == 11
        then x1
        else if r == 12
        then x2
        else r;
    sepc = 0x10000;
    sstatus = 0;
  };
  files = files;
  has_files = true;
  pid = 7;
  machine = machine;
}

abbrev no_handlers : Handlers
no_handlers = record { do_fork = λ s. halted; do_page_fault = λ s. halted; do_timer = λ s. halted }

syscall_handler-SameRegs_example :
    (0x10004 ≡ (0x10000 + 4) % word)
    × ((r : ℕ)
        → a0 ≢ r
        → (record (call 172 1 2 3 file_init).regs {
          x = update (call 172 1 2 3 file_init).regs.x a0 7;
        }).x
            r
          ≡ (call 172 1 2 3 file_init).regs.x r)
unfolding syscall_handler dispatch sys_getpid
syscall_handler-SameRegs_example =
    syscall_handler-SameRegs no_handlers 10 (call 172 1 2 3 file_init) _ (omega arith) refl

sys_write-IsPlain_example :
    (s' : Call) × (sys_write 3 (call 64 1 100 50 file_init) ≡ ok s')
    × (s'.regs.x a0 ≡ 2)
    × (s'.machine ≡ record machine { console = shown 1 [] (104 ∷ 105 ∷ []) })
    × ((fd : ℕ) → s'.files fd ≡ file_init fd)
sys_write-IsPlain_example =
    sys_write-IsPlain 3 (call 64 1 100 50 file_init) (104 ∷ 105 ∷ []) refl refl (omega arith)
      (omega arith) (omega arith, omega arith, (omega arith, omega arith, tt)) (refl, (refl, tt))
      refl (omega arith) (omega arith) (omega arith)

abbrev file : OpenFile
file = record no_file {
  opened = 1;
  perms = 1;
  cfo = 290;
  read = fat32;
  fat32_file = record { cluster = 5; dir_cluster = 2; dir_index = 1 };
}

file-IsIntact : IsIntact machine.volume disk file.fat32_file
unfolding cluster_at
file-IsIntact = record {
  some_sectors = omega arith;
  dir_entry = omega arith;
  dir_first = omega arith;
  dir_addressed = omega arith;
  table_addressed = omega arith;
  addressed = omega arith;
  chain = λ k l. let first : k ≡ 0 = omega arith in rw first (omega arith, omega arith);
}

abbrev reader : Call
reader = call 63 3 1000 50 (λ fd. file)

sys_read-contents_example :
    (s' : Call) × (k : ℕ) × (sys_read 301 reader ≡ ok s')
    × (k ≡ min 50 (300 - 290))
    × (s'.regs.x a0 ≡ k)
    × (s'.files 3 ≡ record file { cfo = 290 + k })
    × ((fd : ℕ) → 3 ≢ fd → s'.files fd ≡ file)
    × (s'.machine ≡ record machine { mem = s'.machine.mem })
    × ((a : ℕ)
        → s'.machine.mem a
          ≡ overwritten memory 1000 k (λ j. file_byte machine.volume disk 5 (290 + j)) a)
sys_read-contents_example =
    sys_read-contents 301 reader file refl refl (omega arith) (omega arith) refl file-IsIntact
      (omega arith)
