-- ===== src/Shell/Commands.antt =====
-- user/main.c: parse_cmd. The arrays of variable length on the stack have fixed addresses.
use tiny_riscv_os.Prelude.{
  ℕ, zero, suc, ◌+◌, ◌-◌, ◌^◌, List, [], ◌∷◌, ◌==◌, ◌&&◌, ltb, if◌then◌else◌, update,
}
use tiny_riscv_os.Result.{Result, ok, stuck, ◌>>=◌, or_stuck}
use tiny_riscv_os.Bytes.{Bytes, memcpy}
use tiny_riscv_os.Printer
use tiny_riscv_os.Printf.{printf}
use tiny_riscv_os.Shell.{System, strlen, atoi, skip_blanks, get_param, get_string}

-- Where the objects and the format strings of the program lie.
pub record Layout : Type 0 where
  pub string_buf : ℕ
  pub cat_buf : ℕ
  pub filename : ℕ
  pub offset : ℕ
  pub content : ℕ
  pub line_buf : ℕ
  pub prompt : ℕ
  pub not_found : ℕ
  pub not_open : ℕ
  pub dollar : ℕ

pub record State (W : Type 0) : Type 0 where
  pub mem : Bytes
  pub world : W

abbrev pub cat_buf_size : ℕ
cat_buf_size = 509

abbrev pub o_rdonly : ℕ
o_rdonly = 1

abbrev pub o_rdwr : ℕ
o_rdwr = 3

abbrev pub seek_set : ℕ
seek_set = 0

-- The bytes that the stub of write copies to temp_buf.
abbrev pub bytes_at : Bytes → ℕ → ℕ → List ℕ
bytes_at m a zero = []
bytes_at m a (suc n) = m a ∷ bytes_at m (a + 1) n

-- `for (i < len) dst[i] = src[i]; dst[len] = '\0'`
unfoldable pub copy_string : Bytes → ℕ → ℕ → ℕ → Bytes
copy_string m dst src len = update (memcpy m dst src len) (dst + len) 0

module _ {W : Type 0} (fuel : ℕ) (sys : System W) (y : Layout) where
  unfoldable pub write_mem : State W → ℕ → ℕ → ℕ → Result (State W)
  write_mem s fd buf count =
      sys.write s.world fd (bytes_at s.mem buf count) >>= λ w. ok (record s { world = w })

  unfoldable pub write_text : State W → List ℕ → Result (State W)
  write_text s text = sys.write s.world 1 text >>= λ w. ok (record s { world = w })

  -- printf: what it hands to write.
  unfoldable pub print : State W → ℕ → List ℕ → Result (State W)
  print s fmt args = elim (printf s.mem fmt args fuel) [
    | Printer.Result.ok (text, count, n) ↦ write_text s text
    | _ ↦ stuck
  ]

  unfoldable pub echo : State W → ℕ → Result (State W)
  echo s cmd = get_string fuel s.mem y.string_buf (cmd + 4) >>= λ m.
      or_stuck (strlen m y.string_buf fuel) >>= λ len.
      write_mem (record s { mem = m }) 1 y.string_buf len >>= λ s'. write_text s' (10 ∷ [])

  -- The `for` of cat over n bytes from i on, with last_char.
  unfoldable pub cat_bytes : ℕ → State W → ℕ → ℕ → Result (State W × ℕ)
  cat_bytes zero s i last_char = ok (s, last_char)
  cat_bytes (suc n) s i last_char =
      let c = s.mem (y.cat_buf + i) in
      write_text s ((if c == 0 then b'x' else c) ∷ []) >>= λ s'. cat_bytes n s' (i + 1) c

  -- The `while` of cat; a negative count makes no round of the `for`, and does not end the loop.
  unfoldable pub cat_loop : ℕ → State W → ℕ → ℕ → Result (State W)
  cat_loop zero s fd last_char = stuck
  cat_loop (suc rounds) s fd last_char =
      sys.read s.world fd s.mem y.cat_buf cat_buf_size >>= λ (w, m, num_chars).
      let s1 : State W = record { mem = m; world = w } in
      let more =
        cat_bytes (if ltb num_chars (2 ^ 31) then num_chars else 0) s1 0 last_char >>= λ (s2, c).
        cat_loop rounds s2 fd c in
      if num_chars == 0 then (if last_char == 10 then ok s1 else print s1 y.dollar []) else more

  -- `last_char` is what the variable holds at first.
  unfoldable pub cat : State W → ℕ → ℕ → Result (State W)
  cat s cmd last_char = get_param fuel s.mem y.string_buf (cmd + 3) >>= λ m.
      sys.openat s.world m y.string_buf o_rdonly >>= λ (w, fd).
      let s1 : State W = record { mem = m; world = w } in
      let opened = cat_loop fuel s1 fd last_char >>= λ s2.
      sys.close s2.world fd >>= λ w'. ok (record s2 { world = w' }) in
      if fd == 2 ^ 32 - 1 then print s1 y.not_open (y.string_buf ∷ []) else opened

  unfoldable pub edit : State W → ℕ → Result (State W)
  edit s cmd = skip_blanks fuel s.mem (cmd + 4) >>= λ cmd1.
      get_param fuel s.mem y.string_buf cmd1 >>= λ m1.
      or_stuck (strlen m1 y.string_buf fuel) >>= λ len1.
      let m2 = copy_string m1 y.filename y.string_buf len1 in
      skip_blanks fuel m2 (cmd1 + len1) >>= λ cmd2. get_param fuel m2 y.string_buf cmd2 >>= λ m3.
      or_stuck (strlen m3 y.string_buf fuel) >>= λ len2.
      let m4 = copy_string m3 y.offset y.string_buf len2 in
      skip_blanks fuel m4 (cmd2 + len2) >>= λ cmd3. get_string fuel m4 y.string_buf cmd3 >>= λ m5.
      or_stuck (strlen m5 y.string_buf fuel) >>= λ len3.
      let m6 = copy_string m5 y.content y.string_buf len3 in
      atoi fuel m6 y.offset >>= λ offset_int.
      sys.openat s.world m6 y.filename o_rdwr >>= λ (w1, fd).
      sys.lseek w1 fd offset_int seek_set >>= λ w2.
      write_mem (record { mem = m6; world = w2 }) fd y.content len3 >>= λ s3.
      sys.close s3.world fd >>= λ w4. ok (record s3 { world = w4 })

  unfoldable pub parse_cmd : State W → ℕ → ℕ → Result (State W)
  parse_cmd s cmd last_char =
      let c : ℕ → ℕ = λ i. s.mem (cmd + i) in
      if c 0 == b'e' && c 1 == b'c' && c 2 == b'h' && c 3 == b'o'
      then echo s cmd
      else if c 0 == b'c' && c 1 == b'a' && c 2 == b't'
      then cat s cmd last_char
      else if c 0 == b'e' && c 1 == b'd' && c 2 == b'i' && c 3 == b't'
      then edit s cmd
      else print s y.not_found (cmd ∷ [])
