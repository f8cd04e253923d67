-- ===== src/Printk.antt =====
-- lib/printk.c: isspace and strtol on a memory of bytes. The text is read from an address, and an
-- int or long is a word in two's complement.
pub mod Number
pub mod Ends
mod Tests
use tiny_riscv_os.Prelude.{
  ℕ, zero, suc, ◌+◌, ◌-◌, ◌*◌, ◌%◌, ◌^◌, Bool, true, false, Option, none, some, leb, ◌&&◌, ◌||◌,
  ◌==◌, if◌then◌else◌,
}
use tiny_riscv_os.Buddy.{word}
use tiny_riscv_os.Bytes.{Bytes}

unfoldable pub isspace : ℕ → Bool
isspace c = c == 32 || (leb 9 c && leb c 13)

-- `while (isspace(*p)) p++`, on fuel.
unfoldable pub skip_spaces : Bytes → ℕ → ℕ → Option ℕ
skip_spaces m p zero = none
skip_spaces m p (suc fuel) =
    let rest = skip_spaces m (p + 1) fuel in if isspace (m p) then rest else some p

-- The flag `neg`, and the address after the sign.
unfoldable pub read_sign : Bytes → ℕ → Bool × ℕ
read_sign m p =
    if m p == 45 then (true, p + 1) else if m p == 43 then (false, p + 1) else (false, p)

-- The base, which a prefix decides where it is 0, and the address after the prefix.
unfoldable pub read_base : Bytes → ℕ → ℕ → ℕ × ℕ
read_base m base p =
    if base == 0
    then if m p == 48
      then if m (p + 1) == 120 || m (p + 1) == 88 then (16, p + 2) else (8, p + 1)
      else (10, p)
    else (base, p)

unfoldable pub digit_of : ℕ → Option ℕ
digit_of c =
    if leb 48 c && leb c 57
    then some (c - 48)
    else if leb 97 c && leb c 122
    then some (c - 87)
    else if leb 65 c && leb c 90
    then some (c - 55)
    else none

-- The loop on the digits, on fuel: the value and the address where it stops.
unfoldable pub read_digits : Bytes → ℕ → ℕ → ℕ → ℕ → Option (ℕ × ℕ)
read_digits m base p ret zero = none
read_digits m base p ret (suc fuel) = elim (digit_of (m p)) [
  | none ↦ some (ret, p)
  | some digit ↦
      if leb base digit
      then some (ret, p)
      else read_digits m base (p + 1) ((ret * base + digit) % word) fuel
]

-- `neg ? -ret : ret`
unfoldable pub apply_sign : Bool → Option (ℕ × ℕ) → Option (ℕ × ℕ)
apply_sign neg none = none
apply_sign neg (some (ret, stop)) = some (if neg then (word - ret) % word else ret, stop)

-- What follows the spaces.
unfoldable pub read_number : Bytes → ℕ → ℕ → ℕ → Option (ℕ × ℕ)
read_number m base p fuel =
    let sign = read_sign m p in
    let start = read_base m base sign.1 in apply_sign sign.0 (read_digits m start.0 start.1 0 fuel)

-- The result and what is stored at endptr.
unfoldable pub strtol : Bytes → ℕ → ℕ → ℕ → Option (ℕ × ℕ)
strtol m nptr base fuel = elim (skip_spaces m nptr fuel) [
  | none ↦ none
  | some p ↦ read_number m base p fuel
]
