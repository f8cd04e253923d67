-- ===== src/Printk/Tests.antt =====
-- Runs of strtol of lib/printk.c on the text " -427." at address 0.
use tiny_riscv_os.Prelude.{
  ℕ, ◌+◌, ◌<◌, ◌≡◌, refl, true, false, some, ◌==◌, if◌then◌else◌, arith, none,
}
use tiny_riscv_os.Bytes.{Bytes}
use tiny_riscv_os.Printk.{isspace, read_sign, digit_of}

abbrev text : Bytes
text a =
    if a == 0
    then 32
    else if a == 1
    then 45
    else if a == 2
    then 52
    else if a == 3
    then 50
    else if a == 4
    then 55
    else if a == 5
    then 46
    else 0

abbrev digits_427 : ℕ → ℕ
digits_427 j = if j == 0 then 4 else if j == 1 then 2 else 7

digit_427 : (j : ℕ) → j < 3 → digit_of (text (2 + j)) ≡ some (digits_427 j)
unfolding digit_of
digit_427 j l = ground arith

space_first : (j : ℕ) → j < 1 → isspace (text (0 + j)) ≡ true
unfolding isspace
space_first j l = ground arith

minus_427 : (isspace (text 1) ≡ false) × (read_sign text 1 ≡ (true, 2)) × (digit_of (text 5) ≡ none)
unfolding isspace read_sign digit_of
minus_427 = (refl, refl, refl)
