-- ===== src/FileOpen.antt =====
-- file_open of fs/fs.c with fat32_open_file of fs/fat32.c, and the calls through the pointers of an
-- open file. The messages of an open that fails do not reach the console of the model.
use tiny_riscv_os.Prelude.{
  ℕ, zero, suc, ◌+◌, ◌-◌, ◌*◌, ◌%◌, ◌^◌, Bool, true, Option, none, some, ◌&&◌, ◌==◌, if◌then◌else◌,
  update,
}
use tiny_riscv_os.Bytes.{Bytes, strlen}
use tiny_riscv_os.Fat32.{to_upper_case, fat32_lseek}
use tiny_riscv_os.FatIo.{Fat32File, memcpy_between, fat32_read, fat32_write}
use tiny_riscv_os.Result.{Result, ok, null_call, ◌>>=◌, or_stuck, or_halted}
use tiny_riscv_os.Vfs.{
  Driver, fat32, stdin, stdout, stderr, OpenFile, Machine, stdin_read, stdout_write, stderr_write,
}

-- Eight bytes of the path behind "/fat32/", with spaces from its end on.
unfoldable pub short_name : Bytes → ℕ → ℕ → ℕ → Bytes → Bytes
short_name mem path i zero name = name
short_name mem path i (suc n) name =
    let rest = short_name mem path (i + 1) n (update name i (mem (path + (i + 7)))) in
    if mem (path + (i + 7)) == 0 then name else rest

-- `memcmp(a + i, b + j, n) == 0` on two objects.
unfoldable pub same_bytes : Bytes → ℕ → Bytes → ℕ → ℕ → Bool
same_bytes a i b j zero = true
same_bytes a i b j (suc n) = a i == b j && same_bytes a (i + 1) b (j + 1) n

-- `entry_ptr->starthi << 16 | entry_ptr->startlow`
unfoldable pub entry_cluster : Bytes → ℕ → ℕ
entry_cluster buf entry =
    let at = 32 * entry in
    (buf (at + 20) + 2 ^ 8 * buf (at + 21)) * 2 ^ 16 + (buf (at + 26) + 2 ^ 8 * buf (at + 27))

-- The loop over the directory entries, on fuel.
unfoldable pub find_entry : ℕ → Bytes → Bytes → ℕ → Option Fat32File
find_entry zero buf name entry = none
find_entry (suc fuel) buf name entry =
    let rest = find_entry fuel buf name (entry + 1) in
    if buf (32 * entry) == 0
    then some (record { cluster = 0; dir_cluster = 0; dir_index = 0 })
    else if buf (32 * entry) == 0xe5
    then rest
    else if same_bytes buf (32 * entry) name 0 8
    then some (record { cluster = entry_cluster buf entry; dir_cluster = 2; dir_index = entry })
    else rest

-- The path in memory becomes upper case.
unfoldable pub fat32_open_file : ℕ → Machine → ℕ → Result (Machine × Fat32File)
fat32_open_file fuel s path = or_stuck (to_upper_case s.mem path fuel) >>= λ mem.
    let name = short_name mem path 0 8 (λ i. 32) in
    or_stuck (find_entry fuel (s.disk s.volume.first_data_sec) name 0) >>= λ f.
    ok (record s { mem = mem }, f)

-- "/fat32/"
abbrev pub fat32_prefix : Bytes
fat32_prefix i =
    if i == 1
    then 102
    else if i == 2
    then 97
    else if i == 3
    then 116
    else if i == 4
    then 51
    else if i == 5
    then 50
    else 47

-- "/ext2/"
abbrev pub ext2_prefix : Bytes
ext2_prefix i =
    if i == 1
    then 101
    else if i == 2
    then 120
    else if i == 3
    then 116
    else if i == 4
    then 50
    else 47

unfoldable pub get_fs_type : Bytes → ℕ → ℕ
get_fs_type mem filename =
    if same_bytes mem filename fat32_prefix 0 7
    then 1
    else if same_bytes mem filename ext2_prefix 0 6
    then 2
    else 2 ^ 32 - 1

-- What file_open has set before it looks at the type.
unfoldable pub opened_file : Bytes → OpenFile → ℕ → ℕ → ℕ → OpenFile
opened_file mem f path flags len = record f {
  opened = 1;
  perms = flags % 2 ^ 32;
  cfo = 0;
  fs_type = get_fs_type mem path;
  path = memcpy_between f.path 0 mem path (len + 1);
}

unfoldable pub open_fat32 : ℕ → Machine → OpenFile → ℕ → Result (Machine × OpenFile × ℕ)
open_fat32 fuel s f path = fat32_open_file fuel s path >>= λ (s', file). ok (
  s',
  record f { lseek = fat32; write = fat32; read = fat32; fat32_file = file },
  if file.cluster == 0 then 2 ^ 64 - 1 else 0,
)

-- The machine, the file, and the result, as the register holds it.
unfoldable pub file_open : ℕ → Machine → OpenFile → ℕ → ℕ → Result (Machine × OpenFile × ℕ)
file_open fuel s f path flags = or_stuck (strlen s.mem path fuel) >>= λ len.
    let f' = opened_file s.mem f path flags len in
    if f'.fs_type == 1 then open_fat32 fuel s f' path else ok (s, f', 2 ^ 64 - 1)

-- The calls through the pointers of an open file.
unfoldable pub call_lseek : Driver → Machine → OpenFile → ℕ → ℕ → Result (OpenFile × ℕ)
call_lseek fat32 s f offset whence =
    or_halted (
      fat32_lseek s.volume s.disk
        (record {
          cfo = f.cfo;
          dir_cluster = f.fat32_file.dir_cluster;
          dir_index = f.fat32_file.dir_index;
        })
        offset whence)
    >>= λ (g, r). ok (record f { cfo = g.cfo }, r)
call_lseek _ s f offset whence = null_call

unfoldable pub call_read : ℕ → Driver → Machine → OpenFile → ℕ → ℕ → Result (Machine × OpenFile × ℕ)
call_read fuel fat32 s f buf len =
    or_stuck (fat32_read fuel s.volume s.disk f.fat32_file f.cfo s.mem buf len) >>= λ (mem, cfo, r).
    ok (record s { mem = mem }, record f { cfo = cfo }, r)
call_read fuel stdin s f buf len = stdin_read s buf len >>= λ (s', r). ok (s', f, r)
call_read fuel _ s f buf len = null_call

unfoldable pub call_write :
    ℕ → Driver → Machine → OpenFile → ℕ → ℕ → Result (Machine × OpenFile × ℕ)
call_write fuel fat32 s f buf len =
    or_stuck (fat32_write fuel s.volume s.disk f.fat32_file f.cfo s.mem buf len)
    >>= λ (disk, cfo, r). ok (record s { disk = disk }, record f { cfo = cfo }, r)
call_write fuel stdout s f buf len = stdout_write fuel s buf len >>= λ (s', r). ok (s', f, r)
call_write fuel stderr s f buf len = stderr_write fuel s buf len >>= λ (s', r). ok (s', f, r)
call_write fuel _ s f buf len = null_call
