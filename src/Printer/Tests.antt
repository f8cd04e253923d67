-- ===== src/Printer/Tests.antt =====
-- Runs of print_dec_int of lib/printk.c.
use tiny_riscv_os.Prelude.{
  ℕ, ◌+◌, ◌-◌, ◌^◌, ◌≡◌, refl, inl, some, none, true, [], ◌∷◌, ◌++◌, length, ◌==◌, if◌then◌else◌,
  pos, arith,
}
use tiny_riscv_os.Bytes.{Bytes}
use tiny_riscv_os.Printk.{strtol, digit_of}
use tiny_riscv_os.Printer.{
  fresh_flags, ok, print_dec_int, dec_digits, put_number, put_dec, put_times, put_all, put, max_ℤ,
  zero_prec,
}
use tiny_riscv_os.Printer.Digits.{Holds, decimal}
use tiny_riscv_os.Printer.Decimal.{signed_text, strtol-print_dec_int}

-- "-42" at address 8.
abbrev text : Bytes
text a = if a == 8 then 45 else if a == 9 then 52 else if a == 10 then 50 else 0

abbrev minus_42 : ℕ
minus_42 = 2 ^ 64 - 42

text-Holds :
    Holds text 8 (signed_text minus_42)
    × (length (signed_text minus_42) ≡ 3)
    × (digit_of (text 11) ≡ none)
unfolding decimal digit_of
text-Holds = ((refl, (refl, (refl, tt))), refl, refl)

strtol-print_dec_int_example :
    (print_dec_int [] minus_42 true fresh_flags
      ≡ ok (record { text = [] ++ signed_text minus_42; written = length (signed_text minus_42) }))
    × (strtol text 8 10 9 ≡ some (minus_42, 8 + length (signed_text minus_42)))
strtol-print_dec_int_example =
    strtol-print_dec_int [] minus_42 8 9 text (omega arith) text-Holds.0
      (inl (rw (text-Holds.1) (text-Holds.2))) (rw (text-Holds.1) (omega arith))

-- "%+05d" of 7: a sign, and zeros up to the width.
wide_flags :
    print_dec_int [] 7 true (record fresh_flags { zeroflag = true; sign = true; width = pos 5 })
    ≡ ok (record { text = 43 ∷ 48 ∷ 48 ∷ 48 ∷ 55 ∷ []; written = 5 })
unfolding print_dec_int put_number dec_digits put_dec put_times put_all put max_ℤ zero_prec
wide_flags = refl
