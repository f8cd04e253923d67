-- ===== src/Shell/Lines.antt =====
-- user/main.c: main. The keys are what the calls of read on descriptor 0 store in read_buf.
use tiny_riscv_os.Prelude.{ℕ, ◌+◌, ◌-◌, List, [], ◌∷◌, ◌==◌, ltb, if◌then◌else◌, update}
use tiny_riscv_os.Result.{Result, ok, stuck, ◌>>=◌}
use tiny_riscv_os.Shell.{System}
use tiny_riscv_os.Shell.Commands.{Layout, State, write_text, print, parse_cmd}

abbrev pub carriage_return : ℕ
carriage_return = 13

-- The characters of line_buf.
abbrev pub line_size : ℕ
line_size = 128

abbrev pub delete : ℕ
delete = 0x7f

-- Whether a character of line_buf may be stored.
abbrev pub within_line : ℕ → Result (Unit {0})
within_line i = if ltb i line_size then ok tt else stuck

module _ {W : Type 0} (fuel : ℕ) (sys : System W) (y : Layout) where
  -- The return key: the line is closed and carried out. A store past the end of line_buf has no
  -- result here and below.
  unfoldable pub enter_line : State W → ℕ → ℕ → Result (State W × ℕ)
  enter_line s char_in_line last_char = write_text fuel sys y s (10 ∷ []) >>= λ s1.
      write_text fuel sys y s1 (carriage_return ∷ []) >>= λ s2. within_line char_in_line >>= λ fits.
      let closed : State W = record s2 { mem = update s2.mem (y.line_buf + char_in_line) 0 } in
      parse_cmd fuel sys y closed y.line_buf last_char >>= λ s3.
      print fuel sys y s3 y.prompt [] >>= λ s4. ok (s4, 0)

  -- One round of the loop of main, after the read.
  unfoldable pub type_key : State W → ℕ → ℕ → ℕ → Result (State W × ℕ)
  type_key s char_in_line key last_char =
      let erased = write_text fuel sys y s (8 ∷ 32 ∷ 8 ∷ []) >>= λ s1. ok (s1, char_in_line - 1) in
      let kept = write_text fuel sys y s (key ∷ []) >>= λ s1. within_line char_in_line >>= λ fits.
      ok (record s1 { mem = update s1.mem (y.line_buf + char_in_line) key }, char_in_line + 1) in
      if key == carriage_return
      then enter_line s char_in_line last_char
      else if key == delete
      then (if ltb 0 char_in_line then erased else ok (s, char_in_line))
      else kept

  -- The rounds for a list of keys.
  unfoldable pub type_keys : State W → ℕ → ℕ → List ℕ → Result (State W × ℕ)
  type_keys s char_in_line last_char [] = ok (s, char_in_line)
  type_keys s char_in_line last_char (key ∷ keys) =
      type_key s char_in_line key last_char >>= λ (s', n). type_keys s' n last_char keys
