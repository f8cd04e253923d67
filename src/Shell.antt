-- ===== src/Shell.antt =====
-- user/main.c: the shell, up to its command lines. Memory is a map from addresses to bytes, with
-- string_buf at a parameter, and the world behind the system calls is another. The stubs of
-- user/unistd.c are assembly, so that the calls are fields of `System`. Shell/Commands has the
-- commands and Shell/Lines the input of a line; the other children hold the proofs.
pub mod Commands
pub mod Lines
mod Words
mod Atoi
mod Echo
mod Editing
mod Moves
mod Edit
mod Tests
use tiny_riscv_os.Prelude.{
  ℕ, zero, suc, ◌+◌, ◌-◌, ◌*◌, ◌%◌, ◌^◌, List, [], ◌∷◌, Bool, Option, none, some, ◌==◌, ◌&&◌, ◌||◌,
  if◌then◌else◌, update,
}
use tiny_riscv_os.Result.{Result, ok, stuck, ◌>>=◌, or_stuck}
use tiny_riscv_os.Bytes
use tiny_riscv_os.Bytes.{Bytes}

-- The system calls that the program makes, on a world of their own; an int is a word of 32 bits.
pub record System (W : Type 0) : Type 0 where
  pub write : W → ℕ → List ℕ → Result W
  pub read : W → ℕ → Bytes → ℕ → ℕ → Result (W × Bytes × ℕ)
  pub openat : W → Bytes → ℕ → ℕ → Result (W × ℕ)
  pub lseek : W → ℕ → ℕ → ℕ → Result W
  pub close : W → ℕ → Result W

-- strlen of user/string.c
abbrev pub strlen : Bytes → ℕ → ℕ → Option ℕ
strlen = Bytes.strlen

-- One round of the loop of atoi, on an int.
abbrev pub add_digit : ℕ → ℕ → ℕ
add_digit ret c = (ret * 10 + c + 2 ^ 32 - 48) % 2 ^ 32

-- The loop of atoi over n characters from i on.
unfoldable pub atoi_loop : ℕ → Bytes → ℕ → ℕ → ℕ → ℕ
atoi_loop zero m str i ret = ret
atoi_loop (suc n) m str i ret = atoi_loop n m str (i + 1) (add_digit ret (m (str + i)))

unfoldable pub atoi : ℕ → Bytes → ℕ → Result ℕ
atoi fuel m str = or_stuck (strlen m str fuel) >>= λ len. ok (atoi_loop len m str 0 0)

-- `while (*cmd == ' ') cmd++`, on fuel.
unfoldable pub skip_blanks : ℕ → Bytes → ℕ → Result ℕ
skip_blanks zero m cmd = stuck
skip_blanks (suc fuel) m cmd =
    let rest = skip_blanks fuel m (cmd + 1) in if m cmd == b' ' then rest else ok cmd

-- The loops of get_param and get_string: they copy to buf, from pos on, up to a character that stops
-- them.
unfoldable pub copy_until : (ℕ → Bool) → ℕ → Bytes → ℕ → ℕ → ℕ → Result (Bytes × ℕ)
copy_until stops zero m buf cmd pos = stuck
copy_until stops (suc fuel) m buf cmd pos =
    let rest = copy_until stops fuel (update m (buf + pos) (m cmd)) buf (cmd + 1) (pos + 1) in
    if stops (m cmd) then ok (m, pos) else rest

abbrev pub ends_word : ℕ → Bool
ends_word c = c == 0 || c == b' '

abbrev pub is_quote : ℕ → Bool
is_quote c = c == b'"'

-- The result is string_buf itself; what changes is memory.
unfoldable pub get_param : ℕ → Bytes → ℕ → ℕ → Result Bytes
get_param fuel m string_buf cmd = skip_blanks fuel m cmd >>= λ cmd'.
    copy_until ends_word fuel m string_buf cmd' 0 >>= λ (m', pos).
    ok (update m' (string_buf + pos) 0)

-- The loop over a quoted text ends at a quote only.
unfoldable pub get_string : ℕ → Bytes → ℕ → ℕ → Result Bytes
get_string fuel m string_buf cmd = skip_blanks fuel m cmd >>= λ cmd'.
    let quoted = copy_until is_quote fuel m string_buf (cmd' + 1) 0 >>= λ (m', pos).
    ok (update m' (string_buf + pos) 0) in
    if m cmd' == b'"' then quoted else get_param fuel m string_buf cmd'
