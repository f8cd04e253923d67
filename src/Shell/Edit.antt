-- ===== src/Shell/Edit.antt =====
-- user/main.c: the command edit of parse_cmd.
use tiny_riscv_os.Prelude.{
  ℕ, ◌+◌, ◌%◌, ◌^◌, ◌≤◌, ◌<◌, ◌≡◌, ◌≢◌, ap, fun_ext, sym, ◌∙◌, List, some, arith,
}
use tiny_riscv_os.Result.{Result, ok, ◌>>=◌}
use tiny_riscv_os.Bytes.{Bytes}
use tiny_riscv_os.Printk.Number.{numeral}
use tiny_riscv_os.Shell.{System, strlen, atoi, skip_blanks, get_param, get_string}
use tiny_riscv_os.Shell.Commands.{
  Layout, State, o_rdwr, seek_set, bytes_at, copy_string, write_mem, edit, parse_cmd,
}
use tiny_riscv_os.Shell.Words.{
  AreApart, copied, Word, Spoken, get_string_lem, skip_blanks-first, Spoken-nonzero, strlen-copied,
  atoi-numeral,
}
use tiny_riscv_os.Shell.Echo.{bind-bind, bytes_at-same}
use tiny_riscv_os.Shell.Moves.{
  AreApart-part, Keeps, Keeps-at, Word-Keeps, take_word, Spoken-Keeps, Spoken-start,
  copy_string-IsMoved,
}

-- The line, with a name, a number and a text behind the command, and what they are.
pub record IsEditLine (m : Bytes) (cmd len k1 n1 k2 n2 k3 n3 start : ℕ) (v : ℕ → ℕ) : Type 0 where
  pub c0 : m (cmd + 0) ≡ b'e'
  pub c1 : m (cmd + 1) ≡ b'd'
  pub c2 : m (cmd + 2) ≡ b'i'
  pub c3 : m (cmd + 3) ≡ b't'
  pub name : Word m (cmd + 4) k1 n1
  pub number : Word m (cmd + 4 + k1 + n1) k2 n2
  pub digits : (j : ℕ) → j < n2 → m (cmd + 4 + k1 + n1 + k2 + j) ≡ v j + b'0'
  pub blanks : (j : ℕ) → j < k3 → m (cmd + 4 + k1 + n1 + k2 + n2 + j) ≡ b' '
  pub text_first : m (cmd + 4 + k1 + n1 + k2 + n2 + k3) ≢ b' '
  pub text : Spoken m (cmd + 4 + k1 + n1 + k2 + n2 + k3) 0 n3 start
  pub ends : cmd + 4 + k1 + n1 + k2 + n2 + k3 + 1 + n3 ≤ cmd + len

-- The line and the arrays of the program lie apart from each other.
pub record AreSeparate (y : Layout) (cmd len : ℕ) : Type 0 where
  pub buf_line : AreApart y.string_buf cmd len
  pub filename_line : AreApart y.filename cmd len
  pub offset_line : AreApart y.offset cmd len
  pub filename_buf : AreApart y.filename y.string_buf len
  pub offset_buf : AreApart y.offset y.string_buf len
  pub content_buf : AreApart y.content y.string_buf len
  pub buf_filename : AreApart y.string_buf y.filename len
  pub buf_offset : AreApart y.string_buf y.offset len
  pub offset_filename : AreApart y.offset y.filename len
  pub content_filename : AreApart y.content y.filename len
  pub content_offset : AreApart y.content y.offset len

-- What edit asks of the system.
abbrev pub edit_file : {W : Type 0} → System W → W → Bytes → ℕ → ℕ → List ℕ → Result (State W)
edit_file sys world m path position text = sys.openat world m path o_rdwr >>= λ (w1, fd).
    sys.lseek w1 fd position seek_set >>= λ w2.
    sys.write w2 fd text >>= λ w3. sys.close w3 fd >>= λ w4. ok (record { mem = m; world = w4 })

-- What edit does where every word is found.
edit-run :
    {W : Type 0} (fuel : ℕ) (sys : System W) (y : Layout) (s : State W)
    (cmd q1 n1 q2 n2 q3 n3 position : ℕ) (m1 m3 m5 : Bytes)
    → skip_blanks fuel s.mem (cmd + 4) ≡ ok q1
    → get_param fuel s.mem y.string_buf q1 ≡ ok m1
    → strlen m1 y.string_buf fuel ≡ some n1
    → skip_blanks fuel (copy_string m1 y.filename y.string_buf n1) (q1 + n1) ≡ ok q2
    → get_param fuel (copy_string m1 y.filename y.string_buf n1) y.string_buf q2 ≡ ok m3
    → strlen m3 y.string_buf fuel ≡ some n2
    → skip_blanks fuel (copy_string m3 y.offset y.string_buf n2) (q2 + n2) ≡ ok q3
    → get_string fuel (copy_string m3 y.offset y.string_buf n2) y.string_buf q3 ≡ ok m5
    → strlen m5 y.string_buf fuel ≡ some n3
    → atoi fuel (copy_string m5 y.content y.string_buf n3) y.offset ≡ ok position
    → edit fuel sys y s cmd
      ≡ edit_file sys s.world
          (copy_string m5 y.content y.string_buf n3)
          y.filename
          position
          (bytes_at (copy_string m5 y.content y.string_buf n3) y.content n3)
unfolding edit write_mem
edit-run {W} fuel sys y s cmd q1 n1 q2 n2 q3 n3 position m1 m3 m5 skip1 get1 len1 skip2 get2 len2
      skip3 get3 len3 number =
    let m6 = copy_string m5 y.content y.string_buf n3 in
    let put : W → Result (State W) = λ w. ok (record { mem = m6; world = w }) in
    rw (skip1, get1, len1, skip2, get2, len2, skip3, get3, len3, number)
      (ap (λ (k : W × ℕ → Result (State W)). sys.openat s.world m6 y.filename o_rdwr >>= k)
        (fun_ext λ (w1, fd).
          ap (λ (k : W → Result (State W)). sys.lseek w1 fd position seek_set >>= k)
            (fun_ext λ w2.
              bind-bind (sys.write w2 fd (bytes_at m6 y.content n3)) put
                (λ s3. sys.close s3.world fd >>= λ w4. ok (record s3 { world = w4 })))))

-- The command edit with a name, a decimal number and a text, plain or between quotes: it opens the file
-- of that name, seeks to the number, modulo 2^32, writes the text as it stands in the line, and closes
-- the file, if the line and the arrays of the program lie apart from each other.
pub parse_cmd-edit :
    {W : Type 0} (fuel : ℕ) (sys : System W) (y : Layout) (s : State W)
    (cmd last_char len k1 n1 k2 n2 k3 n3 start : ℕ) (v : ℕ → ℕ)
    → IsEditLine s.mem cmd len k1 n1 k2 n2 k3 n3 start v
    → AreSeparate y cmd len
    → len < fuel
    → (m : Bytes) × ((j : ℕ) → j < n1 → m (y.filename + j) ≡ s.mem (cmd + 4 + k1 + j))
      × (m (y.filename + n1) ≡ 0)
      × (parse_cmd fuel sys y s cmd last_char
          ≡ edit_file sys s.world m y.filename (numeral 10 v n2 % 2 ^ 32) (bytes_at s.mem start n3))
unfolding parse_cmd
parse_cmd-edit {W} fuel sys y s cmd last_char len k1 n1 k2 n2 k3 n3 start v line sep l =
    let buf = y.string_buf in
    let m0 = s.mem in
    let ends = line.ends in
    let q1 = cmd + 4 + k1 in
    let q2 = q1 + n1 + k2 in
    let q3 = q2 + n2 + k3 in
    let m2 = copy_string (copied m0 buf q1 n1) y.filename buf n1 in
    let (skip1, get1, len1) =
      take_word fuel m0 buf (cmd + 4) k1 n1 line.name
        (AreApart-part buf cmd len q1 n1 sep.buf_line (omega arith) (omega arith)) (omega arith) in
    let move2 = copy_string-IsMoved m0 buf y.filename q1 n1 len sep.filename_buf (omega arith) in
    let line2 = move2.keeps cmd len sep.buf_line sep.filename_line (omega arith) in
    let (skip2, get2, len2) =
      take_word fuel m2 buf (q1 + n1) k2 n2
        (Word-Keeps m0 m2 cmd len (q1 + n1) k2 n2 (omega arith) (omega arith) line2 line.number)
        (AreApart-part buf cmd len q2 n2 sep.buf_line (omega arith) (omega arith)) (omega arith) in
    let m4 = copy_string (copied m2 buf q2 n2) y.offset buf n2 in
    let move4 = copy_string-IsMoved m2 buf y.offset q2 n2 len sep.offset_buf (omega arith) in
    let line4 : Keeps m0 m4 cmd len =
      λ j h. move4.keeps cmd len sep.buf_line sep.offset_line (omega arith) j h ∙ line2 j h in
    let at4 : (a : ℕ) → cmd ≤ a → a ≤ cmd + len → m4 a ≡ m0 a =
      λ a. Keeps-at m0 m4 cmd len a line4 in
    let skip3 =
      skip_blanks-first fuel k3 m4 (q2 + n2)
        (λ j h. at4 (q2 + n2 + j) (omega arith) (omega arith) ∙ line.blanks j h)
        (λ e. line.text_first (sym (at4 q3 (omega arith) (omega arith)) ∙ e)) (omega arith) in
    let text4 =
      Spoken-Keeps m0 m4 cmd len q3 0 n3 start (omega arith) (omega arith) line4 line.text in
    let (from, to) = Spoken-start m0 q3 0 n3 start line.text in
    let get3 =
      get_string_lem fuel m4 buf q3 0 n3 start text4
        (AreApart-part buf cmd len start n3 sep.buf_line (omega arith) (omega arith))
        (omega arith) in
    let len3 =
      strlen-copied fuel m4 buf start n3 (Spoken-nonzero m4 q3 0 n3 start text4) (omega arith) in
    let m6 = copy_string (copied m4 buf start n3) y.content buf n3 in
    let move6 = copy_string-IsMoved m4 buf y.content start n3 len sep.content_buf (omega arith) in
    let offset6 = move6.keeps y.offset len sep.buf_offset sep.content_offset (omega arith) in
    let position =
      atoi-numeral fuel m6 y.offset n2 v
        (λ j h.
          offset6 j (omega arith)
          ∙ move4.text j h
          ∙ Keeps-at m0 m2 cmd len (q2 + j) line2 (omega arith) (omega arith)
          ∙ line.digits j h)
        (offset6 n2 (omega arith) ∙ move4.end) (omega arith) in
    let written : bytes_at m6 y.content n3 ≡ bytes_at m0 start n3 =
      bytes_at-same n3 y.content start m0 m6
        λ j h. move6.text j h ∙ at4 (start + j) (omega arith) (omega arith) in
    let filename6 : Keeps m2 m6 y.filename len = λ j h.
      move6.keeps y.filename len sep.buf_filename sep.content_filename (omega arith) j h
      ∙ move4.keeps y.filename len sep.buf_filename sep.offset_filename (omega arith) j h in
    (
      m6,
      (λ j h. filename6 j (omega arith) ∙ move2.text j h),
      filename6 n1 (omega arith) ∙ move2.end,
      rw (line.c0, line.c1, line.c2, line.c3)
          (edit-run fuel sys y s cmd q1 n1 q2 n2 q3 n3 _ _ _ _ skip1 get1 len1 skip2 get2 len2 skip3
              get3 len3 position
            ∙ ap (edit_file sys s.world m6 y.filename (numeral 10 v n2 % 2 ^ 32)) written),
    )
