-- ===== src/Format.antt =====
-- lib/printk.c: vprintfmt. A va_list is the list of its 64-bit slots; the format and the strings
-- stand in a memory of bytes, which %n may change. The count is an int at the end; widths,
-- precisions and their differences are integers, so that a width next to -2^31, from which the
-- source subtracts a length, is not that of an int. Format/Count treats the number of characters,
-- Format/Ends the end of the loop, Format/Plain a format without conversions.
mod Count
mod Ends
pub mod Plain
mod Tests
use tiny_riscv_os.Prelude.{
  ℕ, zero, suc, ◌+◌, ◌-◌, ◌*◌, ◌/◌, ◌%◌, ◌^◌, Bool, true, false, Option, none, some, List, [], ◌∷◌,
  ◌++◌, ltb, leb, not, ◌&&◌, ◌||◌, ◌==◌, if◌then◌else◌, max, update, length, ℤ, pos, negsuc,
  pos_part, ◌-ℤ◌, ltb_ℤ, eqb_ℤ,
}
use tiny_riscv_os.Buddy.{word}
use tiny_riscv_os.Bytes.{Bytes}
use tiny_riscv_os.Printk.{strtol}
use tiny_riscv_os.Printer.{
  Result, ok, no_argument, overflow, overrun, no_fuel, ◌>>=◌, or_overrun, or_no_fuel, FmtFlags,
  fresh_flags, Printer, put, put_times, put_all, puts_wo_nl, max_ℤ, count_of, zero_prec,
  print_dec_int,
}

-- The state of vprintfmt: memory, the address fmt, the flags, the slots of vl that are left.
pub record Fmt : Type 0 where
  pub mem : Bytes
  pub fmt : ℕ
  pub flags : FmtFlags
  pub vl : List ℕ
  pub out : List ℕ
  pub written : ℕ

va_take : List ℕ → Fmt → Result (ℕ × Fmt)
va_take [] s = no_argument
va_take (a ∷ vl) s = ok (a % word, record s { vl = vl })

-- va_arg, as the 64-bit slot.
unfoldable pub va_arg : Fmt → Result (ℕ × Fmt)
unfolding va_take
va_arg s = va_take s.vl s

-- The conversion to int.
unfoldable pub to_int : ℕ → ℤ
to_int a = let r = a % 2 ^ 32 in if ltb r (2 ^ 31) then pos r else negsuc (2 ^ 32 - 1 - r)

-- The conversion to int and from int to long.
unfoldable pub int_to_long : ℕ → ℕ
int_to_long a = let r = a % 2 ^ 32 in if ltb r (2 ^ 31) then r else r + (2 ^ 64 - 2 ^ 32)

abbrev pub end_format : Fmt → Fmt
end_format s = record s { flags = record s.flags { in_format = false } }

abbrev pub set_width : Fmt → ℤ → Fmt
set_width s w = record s { flags = record s.flags { width = w } }

abbrev pub set_prec : Fmt → ℤ → Fmt
set_prec s w = record s { flags = record s.flags { prec = w } }

-- `*`
unfoldable pub width_arg : Fmt → Result Fmt
width_arg s = va_arg s >>= λ (a, s'). ok (set_width s' (to_int a))

-- `1` to `9`: fmt is left on the last character that strtol has read.
unfoldable pub width_text : Fmt → ℕ → Result Fmt
width_text s fuel = or_no_fuel (strtol s.mem s.fmt 10 fuel) >>= λ (w, stop).
    ok (set_width (record s { fmt = stop - 1 }) (to_int w))

-- `.` and `*`: fmt is left on the `*`.
unfoldable pub prec_arg : Fmt → Result Fmt
prec_arg s = va_arg s >>= λ (a, s'). ok (set_prec (record s' { fmt = s.fmt + 1 }) (to_int a))

-- `.` and a number, which strtol reads from the next character.
unfoldable pub prec_text : Fmt → ℕ → Result Fmt
prec_text s fuel = or_no_fuel (strtol s.mem (s.fmt + 1) 10 fuel) >>= λ (w, stop).
    ok (set_prec (record s { fmt = stop - 1 }) (to_int w))

unfoldable pub precision : Fmt → ℕ → Result Fmt
precision s fuel = if s.mem (s.fmt + 1) == b'*' then prec_arg s else prec_text s fuel

-- A digit in lowerxdigits or upperxdigits.
unfoldable pub xdigit : Bool → ℕ → ℕ
xdigit upper d = if ltb d 10 then d + 48 else if upper then d + 55 else d + 87

-- `do { buf[i++] = xdigits[num & 0xf]; num >>= 4; } while (num)`, as dec_digits.
unfoldable pub hex_digits : ℕ → Bool → ℕ → List ℕ → Option (List ℕ)
hex_digits zero upper num buf = none
hex_digits (suc room) upper num buf =
    let buf' = xdigit upper (num % 16) ∷ buf in
    let rest = hex_digits room upper (num / 16) buf' in if num / 16 == 0 then some buf' else rest

-- The loops of %x, %X and %p, once the digits are in buf.
unfoldable pub put_hex : List ℕ → ℕ → Bool → FmtFlags → ℤ → Printer → Printer
put_hex buf c prefix flags prec p =
    let digits = length buf in
    let prefix_room = pos (2 * count_of prefix) in
    let p1 = put_times (pos_part (flags.width -ℤ prefix_room -ℤ max_ℤ digits prec)) 32 p in
    let x = if c == b'X' then b'X' else b'x' in
    let p2 = if prefix then put x (put 48 p1) else p1 in
    let p3 = put_times (pos_part (prec -ℤ pos digits)) 48 p2 in put_all buf p3

-- What was put is taken over, and the format ends.
abbrev pub printed : Fmt → Printer → Fmt
printed s p = end_format (record s { out = p.text; written = s.written + p.written })

unfoldable pub print_hex_num : Fmt → ℕ → ℕ → Result Fmt
print_hex_num s c num =
    let prefix = c == b'p' || (s.flags.sharpflag && not (num == 0)) in
    let room = s.flags.width -ℤ pos (2 * count_of prefix) in
    or_overrun (hex_digits 16 (c == b'X') num []) >>= λ buf. ok (
      printed s (
        put_hex buf c prefix s.flags (zero_prec s.flags room)
          (record { text = s.out; written = 0 })))

unfoldable pub print_hex : Fmt → ℕ → Result Fmt
print_hex s c = va_arg s >>= λ (a, s').
    let num = if c == b'p' || s.flags.longflag then a else a % 2 ^ 32 in
    if (eqb_ℤ s.flags.prec (pos 0) && num == 0) && not (c == b'p')
    then ok (end_format s')
    else print_hex_num s' c num

-- `d`, `i`, `u`: without l the argument is an int, also for u.
unfoldable pub print_int : Fmt → ℕ → Result Fmt
print_int s c = va_arg s >>= λ (a, s').
    print_dec_int s.out (if s.flags.longflag then a else int_to_long a) (not (c == b'u')) s.flags
    >>= λ p. ok (printed s' p)

-- The n bytes of a number at an address, the lowest first.
unfoldable pub store_bytes : ℕ → Bytes → ℕ → ℕ → Bytes
store_bytes zero m a w = m
store_bytes (suc n) m a w = store_bytes n (update m a (w % 2 ^ 8)) (a + 1) (w / 2 ^ 8)

-- `n`
unfoldable pub print_count : Fmt → Result Fmt
print_count s = va_arg s >>= λ (a, s').
    let size = if s.flags.longflag then 8 else 4 in
    ok (end_format (record s' { mem = store_bytes size s.mem a s.written }))

-- `s`
unfoldable pub print_string : Fmt → ℕ → Result Fmt
print_string s fuel =
    va_arg s >>= λ (a, s'). or_no_fuel (puts_wo_nl s.mem a s.out fuel) >>= λ p. ok (printed s' p)

-- `putch(c); ++written;`
abbrev pub put_char : Fmt → ℕ → Fmt
put_char s c = record s { out = s.out ++ c ∷ []; written = s.written + 1 }

-- `c`: the int becomes a byte at putch.
unfoldable pub print_char : Fmt → Result Fmt
print_char s = va_arg s >>= λ (a, s'). ok (end_format (put_char s' (a % 2 ^ 8)))

-- The letters that end a format, and any other character, which is put as it is.
unfoldable pub conversion : Fmt → ℕ → ℕ → Result Fmt
conversion s c fuel =
    if (c == b'x' || c == b'X') || c == b'p'
    then print_hex s c
    else if (c == b'd' || c == b'i') || c == b'u'
    then print_int s c
    else if c == b'n'
    then print_count s
    else if c == b's'
    then print_string s fuel
    else if c == b'c'
    then print_char s
    else ok (end_format (put_char s c))

-- The body of the loop between `%` and the conversion.
unfoldable pub in_format_char : Fmt → ℕ → ℕ → Result Fmt
in_format_char s c fuel =
    if c == b'#'
    then ok (record s { flags = record s.flags { sharpflag = true } })
    else if c == b'0'
    then ok (record s { flags = record s.flags { zeroflag = true } })
    else if (c == b'l' || c == b'z') || (c == b't' || c == b'j')
    then ok (record s { flags = record s.flags { longflag = true } })
    else if c == b'+'
    then ok (record s { flags = record s.flags { sign = true } })
    else if c == b' '
    then ok (record s { flags = record s.flags { spaceflag = true } })
    else if c == b'*'
    then width_arg s
    else if leb b'1' c && leb c b'9'
    then width_text s fuel
    else if c == b'.'
    then precision s fuel
    else conversion s c fuel

unfoldable pub format_char : Fmt → ℕ → ℕ → Result Fmt
format_char s c fuel =
    if s.flags.in_format
    then in_format_char s c fuel
    else if c == b'%'
    then ok (record s { flags = fresh_flags })
    else ok (put_char s c)

-- The loop, on fuel.
unfoldable pub vprintfmt_loop : ℕ → Fmt → Result Fmt
vprintfmt_loop zero s = no_fuel
vprintfmt_loop (suc fuel) s =
    if s.mem s.fmt == 0
    then ok s
    else format_char s (s.mem s.fmt) fuel >>= λ s'.
        vprintfmt_loop fuel (record s' { fmt = s'.fmt + 1 })

-- `struct fmt_flags flags = {}; int written = 0;`
abbrev pub start_fmt : Bytes → ℕ → List ℕ → Fmt
start_fmt mem fmt vl = record {
  mem = mem;
  fmt = fmt;
  flags = record fresh_flags { in_format = false; prec = pos 0 };
  vl = vl;
  out = [];
  written = 0;
}

-- The count of an int: a larger one has overflowed on the way, since each step adds to it.
abbrev pub counted : Fmt → Result Printer
counted s =
    let p : Printer = record { text = s.out; written = s.written } in
    if ltb s.written (2 ^ 31) then ok p else overflow

-- What vprintfmt has put, and its result.
unfoldable pub vprintfmt : Bytes → ℕ → List ℕ → ℕ → Result Printer
vprintfmt mem fmt vl fuel = vprintfmt_loop fuel (start_fmt mem fmt vl) >>= counted
