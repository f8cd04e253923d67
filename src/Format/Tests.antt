-- ===== src/Format/Tests.antt =====
-- Runs of vprintfmt of lib/printk.c.
use tiny_riscv_os.Prelude.{
  ℕ, zero, suc, ◌<◌, ◌^◌, ◌≡◌, refl, List, [], ◌∷◌, length, ◌==◌, if◌then◌else◌, arith,
}
use tiny_riscv_os.Bytes.{Bytes}
use tiny_riscv_os.Printk.{
  isspace, skip_spaces, read_sign, read_base, digit_of, read_digits, apply_sign, read_number,
  strtol,
}
use tiny_riscv_os.Printer.{
  Printer, ok, print_dec_int, dec_digits, put_number, put_dec, put_times, put_all, put, max_ℤ,
  zero_prec,
}
use tiny_riscv_os.Format.{
  va_arg, to_int, int_to_long, width_text, hex_digits, xdigit, put_hex, print_hex_num, print_hex,
  print_int, conversion, in_format_char, format_char, vprintfmt_loop, vprintfmt,
}
use tiny_riscv_os.Format.Count.{vprintfmt_counts}
use tiny_riscv_os.Format.Ends.{Ends, vprintfmt-Ends}

abbrev stored : List ℕ → Bytes
stored [] a = 0
stored (c ∷ cs) zero = c
stored (c ∷ cs) (suc a) = stored cs a

-- "<%4d %#x>"
abbrev format : List ℕ
format = b'<' ∷ b'%' ∷ b'4' ∷ b'd' ∷ b' ' ∷ b'%' ∷ b'#' ∷ b'x' ∷ b'>' ∷ []

-- "<  42 0xff>"
abbrev result : Printer
result = record {
  text = b'<' ∷ b' ' ∷ b' ' ∷ b'4' ∷ b'2' ∷ b' ' ∷ b'0' ∷ b'x' ∷ b'f' ∷ b'f' ∷ b'>' ∷ [];
  written = 11;
}

two_numbers : vprintfmt (stored format) 0 (42 ∷ 255 ∷ []) 20 ≡ ok result
unfolding vprintfmt vprintfmt_loop format_char in_format_char conversion width_text print_int
    print_hex print_hex_num put_hex hex_digits xdigit va_arg to_int int_to_long strtol skip_spaces
    isspace read_number read_sign read_base read_digits digit_of apply_sign print_dec_int put_number
    dec_digits put_dec put_times put_all put max_ℤ zero_prec
two_numbers = refl

vprintfmt_counts_example : (11 ≡ length result.text) × (11 < 2 ^ 31)
vprintfmt_counts_example = vprintfmt_counts (stored format) 0 (42 ∷ 255 ∷ []) 20 result two_numbers

-- "%s"
abbrev string_format : Bytes
string_format a = if a == 3 then b'%' else if a == 4 then b's' else 0

vprintfmt-Ends_example : Ends (vprintfmt string_format 3 (3 ∷ []) 9)
vprintfmt-Ends_example =
    vprintfmt-Ends string_format 3 2 5 (3 ∷ []) 9 refl (λ j l. ground arith) (λ b l. ground arith)
      (omega arith)
