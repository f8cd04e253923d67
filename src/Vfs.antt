-- ===== src/Vfs.antt =====
-- fs/vfs.c, and the table of open files of fs/fs.c: the standard streams. A function pointer is the
-- name of the function or null. The keys that the console will deliver are a list, and so is what has
-- been printed.
use tiny_riscv_os.Prelude.{
  ℕ, zero, suc, ◌+◌, ◌%◌, ◌^◌, List, [], ◌∷◌, ◌++◌, ◌==◌, ltb, if◌then◌else◌, update,
}
use tiny_riscv_os.Bytes.{Bytes}
use tiny_riscv_os.Fat32.{Fat32Volume}
use tiny_riscv_os.Result.{Result, ok, stuck, ◌>>=◌}
use tiny_riscv_os.FatIo.{Fat32File}
use tiny_riscv_os.Printer
use tiny_riscv_os.Printer.{Printer}
use tiny_riscv_os.Format.{vprintfmt}

-- What lseek, read and write of an open file may point to.
pub data Driver : Type 0 where
  null fat32 stdin stdout stderr : Driver

pub record OpenFile : Type 0 where
  pub opened : ℕ
  pub perms : ℕ
  pub cfo : ℕ
  pub fs_type : ℕ
  pub fat32_file : Fat32File
  pub lseek : Driver
  pub write : Driver
  pub read : Driver
  pub path : Bytes

abbrev pub no_file : OpenFile
no_file = record {
  opened = 0;
  perms = 0;
  cfo = 0;
  fs_type = 0;
  fat32_file = record { cluster = 0; dir_cluster = 0; dir_index = 0 };
  lseek = null;
  write = null;
  read = null;
  path = λ a. 0;
}

abbrev pub file_readable : ℕ
file_readable = 1

abbrev pub file_writable : ℕ
file_writable = 2

-- The table that file_init returns; the paths of the three streams are not modelled.
unfoldable pub file_init : ℕ → OpenFile
file_init fd =
    if fd == 0
    then record no_file { opened = 1; perms = file_readable; read = stdin }
    else if fd == 1
    then record no_file { opened = 1; perms = file_writable; write = stdout }
    else if fd == 2
    then record no_file { opened = 1; perms = file_writable; write = stderr }
    else no_file

-- What the calls change beside the files; stack_room is how many bytes of the kernel stack are free
-- for the array to_print.
pub record Machine : Type 0 where
  pub mem : Bytes
  pub volume : Fat32Volume
  pub disk : ℕ → Bytes
  pub stack_room : ℕ
  pub keys : List ℕ
  pub console : List ℕ

-- The loop of stdin_read, with n characters left.
unfoldable pub stdin_loop : ℕ → Bytes → ℕ → List ℕ → Result (Bytes × List ℕ)
stdin_loop zero mem a keys = ok (mem, keys)
stdin_loop (suc n) mem a [] = stuck
stdin_loop (suc n) mem a (c ∷ keys) = stdin_loop n (update mem a (c % 2 ^ 8)) (a + 1) keys

unfoldable pub stdin_read : Machine → ℕ → ℕ → Result (Machine × ℕ)
stdin_read s buf len =
    stdin_loop len s.mem buf s.keys >>= λ (mem, keys). ok (record s { mem = mem; keys = keys }, len)

-- printk with no argument behind the format.
unfoldable pub printk_text : ℕ → Bytes → ℕ → List ℕ → Result (List ℕ × ℕ)
printk_text fuel mem fmt console = elim (vprintfmt mem fmt [] fuel) [
  | Printer.Result.ok p ↦ ok (console ++ p.text, p.written)
  | _ ↦ stuck
]

-- The array of len + 1 bytes on the stack, which gets a copy that nothing reads; where the stack has no
-- room for it there is no result.
abbrev pub to_print : Machine → ℕ → Result (Unit {0})
to_print s len = if ltb len s.stack_room then ok tt else stuck

-- buf is the format.
unfoldable pub stdout_write : ℕ → Machine → ℕ → ℕ → Result (Machine × ℕ)
stdout_write fuel s buf len = to_print s len >>= λ room.
    printk_text fuel s.mem buf s.console >>= λ (console, n). ok (record s { console = console }, n)

-- RED and CLEAR
abbrev pub red : List ℕ
red = 27 ∷ 91 ∷ 51 ∷ 49 ∷ 109 ∷ []

abbrev pub clear : List ℕ
clear = 27 ∷ 91 ∷ 48 ∷ 109 ∷ []

unfoldable pub stderr_write : ℕ → Machine → ℕ → ℕ → Result (Machine × ℕ)
stderr_write fuel s buf len = to_print s len >>= λ room.
    printk_text fuel s.mem buf (s.console ++ red) >>= λ (console, n).
    ok (record s { console = console ++ clear }, n)
