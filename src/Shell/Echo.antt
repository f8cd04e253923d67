-- ===== src/Shell/Echo.antt =====
-- user/main.c: the command echo of parse_cmd.
use tiny_riscv_os.Prelude.{ℕ, zero, suc, ◌+◌, ◌-◌, ◌<◌, ◌≡◌, refl, ap, sym, ◌∙◌, [], ◌∷◌, arith}
use tiny_riscv_os.Result.{Result, ok, null_call, halted, stuck, ◌>>=◌}
use tiny_riscv_os.Bytes.{Bytes}
use tiny_riscv_os.Shell.{System}
use tiny_riscv_os.Shell.Commands.{Layout, State, bytes_at, write_mem, write_text, echo, parse_cmd}
use tiny_riscv_os.Shell.Words.{
  AreApart, copied, Spoken, get_string_lem, Spoken-nonzero, strlen-copied,
}

pub bind-bind :
    {A B C : Type 0} (q : Result A) (f : A → Result B) (g : B → Result C)
    → ((q >>= f) >>= g) ≡ (q >>= λ a. f a >>= g)
bind-bind (ok a) f g = refl
bind-bind null_call f g = refl
bind-bind halted f g = refl
bind-bind stuck f g = refl

pub bytes_at-same :
    (n a b : ℕ) (m m' : Bytes)
    → ((j : ℕ) → j < n → m' (a + j) ≡ m (b + j))
    → bytes_at m' a n ≡ bytes_at m b n
bytes_at-same zero a b m m' same = refl
bytes_at-same (suc n) a b m m' same =
    let e : a + 0 ≡ a = omega arith in
    let e' : b + 0 ≡ b = omega arith in
    let head : m' a ≡ m b = ap m' (sym e) ∙ same 0 (omega arith) ∙ ap m e' in
    let rest =
      bytes_at-same n (a + 1) (b + 1) m m'
        (λ j l. ap m' (omega arith) ∙ same (suc j) (omega arith) ∙ ap m (omega arith)) in
    rw (head, rest) refl

copied-bytes_at :
    (m : Bytes) (buf start n : ℕ) → bytes_at (copied m buf start n) buf n ≡ bytes_at m start n
copied-bytes_at m buf start n = bytes_at-same n buf start m (copied m buf start n) λ j l.
    let index : buf + j - buf ≡ j = omega arith in
    ground (arith, ap (λ (i : ℕ). m (start + i)) index)

-- The command echo with a word, or a text between quotes, writes it to descriptor 1 as it stands in
-- the line, and then the end of the line; it changes no memory but string_buf.
pub parse_cmd-echo :
    {W : Type 0} (fuel : ℕ) (sys : System W) (y : Layout) (s : State W)
    (cmd last_char k n start : ℕ)
    → s.mem (cmd + 0) ≡ b'e'
    → s.mem (cmd + 1) ≡ b'c'
    → s.mem (cmd + 2) ≡ b'h'
    → s.mem (cmd + 3) ≡ b'o'
    → Spoken s.mem (cmd + 4) k n start
    → AreApart y.string_buf start n
    → k + n < fuel
    → parse_cmd fuel sys y s cmd last_char ≡ (
        sys.write s.world 1 (bytes_at s.mem start n) >>= λ w. sys.write w 1 (10 ∷ []) >>= λ w'.
        ok (record { mem = copied s.mem y.string_buf start n; world = w' }))
unfolding parse_cmd echo write_mem write_text
parse_cmd-echo {W} fuel sys y s cmd last_char k n start c0 c1 c2 c3 spoken apart l =
    let buf = y.string_buf in
    let got = get_string_lem fuel s.mem buf (cmd + 4) k n start spoken apart l in
    let len =
      strlen-copied fuel s.mem buf start n (Spoken-nonzero s.mem (cmd + 4) k n start spoken)
        (omega arith) in
    let put : W → Result (State W) =
      λ w. ok (record { mem = copied s.mem buf start n; world = w }) in
    let after : State W → Result (State W) = λ s'. write_text fuel sys y s' (10 ∷ []) in
    rw (c0, c1, c2, c3, got, len, copied-bytes_at s.mem buf start n)
      (bind-bind (sys.write s.world 1 (bytes_at s.mem start n)) put after)
