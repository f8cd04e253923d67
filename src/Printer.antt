-- ===== src/Printer.antt =====
-- lib/printk.c: puts_wo_nl, print_dec_int and the loops that put characters. The characters that
-- putch gets are a list. Printer/Digits treats the digits of a number, Printer/Count the number of
-- characters.
pub mod Digits
mod Decimal
pub mod Count
mod Tests
use tiny_riscv_os.Prelude.{
  ℕ, zero, suc, ◌+◌, ◌-◌, ◌*◌, ◌/◌, ◌%◌, ◌^◌, Bool, true, false, Option, none, some, List, [], ◌∷◌,
  ◌++◌, ltb, leb, not, ◌&&◌, ◌||◌, ◌==◌, if◌then◌else◌, max, update, length, ℤ, pos, negsuc,
  pos_part, ◌-ℤ◌, ltb_ℤ, eqb_ℤ,
}
use tiny_riscv_os.Buddy.{word}
use tiny_riscv_os.Bytes.{Bytes}

-- How a call ends, apart from its value: a va_arg past the last argument, a store past the end of
-- a buffer, a count that no int holds, or fuel that ran out.
pub data Result {ℓ} (A : Type ℓ) : Type ℓ where
  ok : A → Result A
  no_argument overrun overflow no_fuel : Result A

infixl 5 ◌>>=◌
abbrev pub ◌>>=◌ {ℓ κ} : {A : Type ℓ} {B : Type κ} → Result A → (A → Result B) → Result B
ok a >>= f = f a
no_argument >>= f = no_argument
overrun >>= f = overrun
overflow >>= f = overflow
no_fuel >>= f = no_fuel

abbrev pub or_overrun {ℓ} : {A : Type ℓ} → Option A → Result A
or_overrun none = overrun
or_overrun (some a) = ok a

abbrev pub or_no_fuel {ℓ} : {A : Type ℓ} → Option A → Result A
or_no_fuel none = no_fuel
or_no_fuel (some a) = ok a

pub record FmtFlags : Type 0 where
  pub in_format : Bool
  pub longflag : Bool
  pub sharpflag : Bool
  pub zeroflag : Bool
  pub spaceflag : Bool
  pub sign : Bool
  pub width : ℤ
  pub prec : ℤ

-- `(struct fmt_flags) {.in_format = true, .prec = -1}`
abbrev pub fresh_flags : FmtFlags
fresh_flags = record {
  in_format = true;
  longflag = false;
  sharpflag = false;
  zeroflag = false;
  spaceflag = false;
  sign = false;
  width = pos 0;
  prec = negsuc 0;
}

-- What has been put, and the count `written` that the code keeps beside it; it is an int, and
-- vprintfmt has no result where it leaves the range of one.
pub record Printer : Type 0 where
  pub text : List ℕ
  pub written : ℕ

-- `putch(c); ++written;`
unfoldable pub put : ℕ → Printer → Printer
put c p = record { text = p.text ++ c ∷ []; written = p.written + 1 }

-- The loop that puts one character n times.
unfoldable pub put_times : ℕ → ℕ → Printer → Printer
put_times zero c p = p
put_times (suc n) c p = put_times n c (put c p)

-- The loop that puts a buffer.
unfoldable pub put_all : List ℕ → Printer → Printer
put_all [] p = p
put_all (c ∷ cs) p = put_all cs (put c p)

-- `while (*p) putch(*p++)`: what has been put, and the last p.
unfoldable pub puts_loop : Bytes → ℕ → List ℕ → ℕ → Option (List ℕ × ℕ)
puts_loop m p out zero = none
puts_loop m p out (suc fuel) =
    let rest = puts_loop m (p + 1) (out ++ m p ∷ []) fuel in
    if m p == 0 then some (out, p) else rest

-- "(null)"
abbrev pub null_text : List ℕ
null_text = 40 ∷ 110 ∷ 117 ∷ 108 ∷ 108 ∷ 41 ∷ []

-- The text that has been put, and the result `p - s`.
unfoldable pub puts_wo_nl : Bytes → ℕ → List ℕ → ℕ → Option Printer
puts_wo_nl m s out fuel =
    if s == 0
    then some (record { text = out ++ null_text; written = 6 })
    else elim (puts_loop m s out fuel) [
      | none ↦ none
      | some (out', p) ↦ some (record { text = out'; written = p - s })
    ]

-- `do { buf[i++] = num % 10 + '0'; num /= 10; } while (num)`, into the places that are left in buf,
-- the last digit stored at the head; none is a store past the end of buf.
unfoldable pub dec_digits : ℕ → ℕ → List ℕ → Option (List ℕ)
dec_digits zero num buf = none
dec_digits (suc room) num buf =
    let buf' = (num % 10 + 48) ∷ buf in
    let rest = dec_digits room (num / 10) buf' in if num / 10 == 0 then some buf' else rest

-- "-9223372036854775808"
abbrev pub min_text : List ℕ
min_text =
    45 ∷ 57 ∷ 50 ∷ 50 ∷ 51 ∷ 51 ∷ 55 ∷ 50 ∷ 48 ∷ 51 ∷ 54 ∷ 56 ∷ 53 ∷ 52 ∷ 55 ∷ 55 ∷ 53 ∷ 56 ∷ 48
    ∷ 56 ∷ []

unfoldable pub max_ℤ : ℕ → ℤ → ℤ
max_ℤ a b = if ltb_ℤ b (pos a) then pos a else b

abbrev pub count_of : Bool → ℕ
count_of true = 1
count_of false = 0

-- The three loops and the sign, once the digits are in buf.
unfoldable pub put_dec : List ℕ → Bool → Bool → FmtFlags → ℤ → Printer → Printer
put_dec buf neg has_sign_char flags prec p =
    let digits = length buf in
    let sign_room = pos (count_of has_sign_char) in
    let p1 = put_times (pos_part (flags.width -ℤ max_ℤ digits prec -ℤ sign_room)) 32 p in
    let sign_char = if neg then 45 else if flags.sign then 43 else 32 in
    let p2 = if has_sign_char then put sign_char p1 else p1 in
    let p3 = put_times (pos_part (prec -ℤ sign_room -ℤ pos digits)) 48 p2 in put_all buf p3

-- `flags->prec == -1 && flags->zeroflag`
unfoldable pub zero_prec : FmtFlags → ℤ → ℤ
zero_prec flags width = if eqb_ℤ flags.prec (negsuc 0) && flags.zeroflag then width else flags.prec

-- From the digits on.
unfoldable pub put_number : List ℕ → ℕ → Bool → Bool → FmtFlags → Result Printer
put_number out size neg has_sign_char flags = or_overrun (dec_digits 20 size []) >>= λ buf. ok (
    put_dec buf neg has_sign_char flags (zero_prec flags flags.width)
      (record { text = out; written = 0 }))

unfoldable pub print_dec_int : List ℕ → ℕ → Bool → FmtFlags → Result Printer
print_dec_int out num is_signed flags =
    let neg = is_signed && leb (2 ^ 63) num in
    let size = if neg then (word - num) % word else num in
    let has_sign_char = is_signed && (neg || flags.sign || flags.spaceflag) in
    if is_signed && num == 2 ^ 63
    then ok (record { text = out ++ min_text; written = 20 })
    else if eqb_ℤ flags.prec (pos 0) && num == 0
    then ok (record { text = out; written = 0 })
    else put_number out size neg has_sign_char flags
