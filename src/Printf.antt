-- ===== src/Printf.antt =====
-- user/printf.c. Its functions up to vprintfmt are the text of lib/printk.c, so they are those of
-- Printk, Printer and Format here; putc stores into a buffer of 1000 characters, and printf hands
-- the buffer, closed by a zero byte, to the system call write on descriptor 1.
use tiny_riscv_os.Prelude.{ℕ, suc, Bool, Option, List, [], ◌∷◌, ◌++◌, ltb, if◌then◌else◌, length}
use tiny_riscv_os.Bytes.{Bytes}
use tiny_riscv_os.Printk
use tiny_riscv_os.Printer
use tiny_riscv_os.Printer.{Result, ok, overrun, ◌>>=◌, FmtFlags, Printer}
use tiny_riscv_os.Format

abbrev pub isspace : ℕ → Bool
isspace = Printk.isspace

abbrev pub strtol : Bytes → ℕ → ℕ → ℕ → Option (ℕ × ℕ)
strtol = Printk.strtol

abbrev pub puts_wo_nl : Bytes → ℕ → List ℕ → ℕ → Option Printer
puts_wo_nl = Printer.puts_wo_nl

abbrev pub print_dec_int : List ℕ → ℕ → Bool → FmtFlags → Result Printer
print_dec_int = Printer.print_dec_int

abbrev pub vprintfmt : Bytes → ℕ → List ℕ → ℕ → Result Printer
vprintfmt = Format.vprintfmt

abbrev pub buffer_size : ℕ
buffer_size = 1000

-- What write gets: the characters of the buffer, a zero byte behind them, and `tail` as the count;
-- and the result of printf. A text that does not fit is a store past the end of the buffer.
unfoldable pub printf : Bytes → ℕ → List ℕ → ℕ → Result (List ℕ × ℕ × ℕ)
printf mem s vl fuel = vprintfmt mem s vl fuel >>= λ p.
    if ltb (length p.text) buffer_size
    then ok (p.text ++ 0 ∷ [], suc (length p.text), p.written)
    else overrun
