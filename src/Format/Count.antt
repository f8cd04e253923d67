-- ===== src/Format/Count.antt =====
-- The result of vprintfmt of lib/printk.c is the number of the characters it has put.
use tiny_riscv_os.Prelude.{
  ℕ, zero, suc, ◌+◌, ◌≡◌, ◌<◌, refl, inl, inr, ◌%◌, ◌^◌, Bool, Option, none, some, List, [], ◌∷◌,
  if◌then◌else◌, length, length-append, ◌==◌, Bool-cases, ℤ, pos, ◌-ℤ◌, ◌*◌, not, ◌&&◌, ◌||◌, arith,
}
use tiny_riscv_os.Bytes.{Bytes}
use tiny_riscv_os.Printk.{strtol}
use tiny_riscv_os.Printer.{
  Result, ok, no_argument, overflow, overrun, no_fuel, Printer, FmtFlags, ◌>>=◌, print_dec_int,
  puts_wo_nl, or_no_fuel, or_overrun, zero_prec, count_of,
}
use tiny_riscv_os.Printer.Count.{
  Counts, put-Counts, put_times-Counts, put_all-Counts, if-Counts, print_dec_int-Counts,
  puts_wo_nl-Counts,
}
use tiny_riscv_os.Format.{
  Fmt, va_take, va_arg, width_arg, width_text, prec_arg, prec_text, precision, put_hex, hex_digits,
  print_hex_num, print_hex, print_int, print_count, print_string, print_char, conversion,
  in_format_char, format_char, vprintfmt_loop, start_fmt, vprintfmt, printed, put_char,
}

-- As many characters have been put as are counted.
abbrev pub IsCounted : Fmt → Type 0
IsCounted s = length s.out ≡ s.written

-- What a step may do: it keeps the count right wherever it ends well.
abbrev pub KeepsCount : Fmt → Result Fmt → Type 0
KeepsCount s r = (s' : Fmt) → r ≡ ok s' → IsCounted s → IsCounted s'

-- The same after an argument has been read.
with_arg :
    (s : Fmt) (f : ℕ × Fmt → Result Fmt)
    → ((a : ℕ) (s' : Fmt) → s'.out ≡ s.out → s'.written ≡ s.written → KeepsCount s (f (a, s')))
    → KeepsCount s (va_arg s >>= f)
unfolding va_arg
with_arg s f k = go s.vl
  where
    go : (vl : List ℕ) → KeepsCount s (va_take vl s >>= f)
    go [] s1 e h = absurd (cc)
    go (a ∷ vl) s1 e h = k _ _ refl refl s1 e h

put_hex-Counts :
    (buf : List ℕ) (c : ℕ) (prefix : Bool) (f : FmtFlags) (prec : ℤ) (out : List ℕ) (p : Printer)
    → Counts out p
    → Counts out (put_hex buf c prefix f prec p)
unfolding put_hex
put_hex-Counts buf c prefix f prec out p h =
    let p1 = put_times-Counts _ 32 out p h in
    put_all-Counts buf out _ (
      put_times-Counts _ 48 out _
        (if-Counts prefix out _ _ (put-Counts out _ _ (put-Counts out _ _ p1)) p1))

-- Putting what a printer holds after the text so far.
printed-IsCounted :
    (s s' : Fmt) (p : Printer)
    → s'.written ≡ s.written
    → Counts s.out p
    → IsCounted s
    → IsCounted (printed s' p)
printed-IsCounted s s' p w c h = omega arith

put_char-IsCounted : (s : Fmt) (c : ℕ) → IsCounted s → IsCounted (put_char s c)
put_char-IsCounted s c h = omega (arith, length-append s.out (c ∷ []))

width_arg-Keeps : (s : Fmt) → KeepsCount s (width_arg s)
unfolding width_arg
width_arg-Keeps s = with_arg s _ (λ a s' o w s1 e h. ground arith)

module _ {A : Type 0} (s : Fmt) (f : A → Result Fmt) where
  or_no_fuel-Keeps :
      (o : Option A)
      → ((a : A) → o ≡ some a → KeepsCount s (f a))
      → KeepsCount s (or_no_fuel o >>= f)
  or_no_fuel-Keeps none k s1 e h = absurd (cc)
  or_no_fuel-Keeps (some a) k s1 e h = k a refl s1 e h

  or_overrun-Keeps :
      (o : Option A)
      → ((a : A) → o ≡ some a → KeepsCount s (f a))
      → KeepsCount s (or_overrun o >>= f)
  or_overrun-Keeps none k s1 e h = absurd (cc)
  or_overrun-Keeps (some a) k s1 e h = k a refl s1 e h

  bind-Keeps : (r : Result A) → ((a : A) → r ≡ ok a → KeepsCount s (f a)) → KeepsCount s (r >>= f)
  bind-Keeps (ok a) k s1 e h = k a refl s1 e h
  bind-Keeps no_argument k s1 e h = absurd (cc)
  bind-Keeps overflow k s1 e h = absurd (cc)
  bind-Keeps overrun k s1 e h = absurd (cc)
  bind-Keeps no_fuel k s1 e h = absurd (cc)

width_text-Keeps : (s : Fmt) (fuel : ℕ) → KeepsCount s (width_text s fuel)
unfolding width_text
width_text-Keeps s fuel =
    or_no_fuel-Keeps s _ (strtol s.mem s.fmt 10 fuel) (λ r e s1 q h. ground arith)

precision-Keeps : (s : Fmt) (fuel : ℕ) → KeepsCount s (precision s fuel)
unfolding precision prec_arg prec_text
precision-Keeps s fuel = elim (Bool-cases (s.mem (s.fmt + 1) == b'*')) [
  | inl star ↦ rw star (with_arg s _ (λ a s' o w s1 e h. ground arith))
  | inr text ↦
      rw text (or_no_fuel-Keeps s _ (strtol s.mem (s.fmt + 1) 10 fuel) (λ r e s1 q h. ground arith))
]

print_hex_num-Keeps : (s : Fmt) (c num : ℕ) → KeepsCount s (print_hex_num s c num)
unfolding print_hex_num
print_hex_num-Keeps s c num =
    or_overrun-Keeps s _ (hex_digits 16 (c == b'X') num []) (λ buf e s1 q h.
      let prefix = c == b'p' || (s.flags.sharpflag && not (num == 0)) in
      let room = s.flags.width -ℤ pos (2 * count_of prefix) in
      ground (
        arith,
        put_hex-Counts buf c prefix s.flags (zero_prec s.flags room) s.out
            (record { text = s.out; written = 0 }),
      ))

print_hex-Keeps : (s : Fmt) (c : ℕ) → KeepsCount s (print_hex s c)
unfolding print_hex
print_hex-Keeps s c = with_arg s _ (λ a s' o w s1 e h.
    let num = if c == b'p' || s.flags.longflag then a else a % 2 ^ 32 in
    ground (arith, print_hex_num-Keeps s' c num s1))

print_int-Keeps : (s : Fmt) (c : ℕ) → KeepsCount s (print_int s c)
unfolding print_int
print_int-Keeps s c = with_arg s _ (λ a s' o w.
    bind-Keeps s _ (print_dec_int s.out _ _ s.flags)
      λ p e s1 q h. ground (arith, print_dec_int-Counts s.out _ _ s.flags p e))

print_count-Keeps : (s : Fmt) → KeepsCount s (print_count s)
unfolding print_count
print_count-Keeps s = with_arg s _ (λ a s' o w s1 e h. ground arith)

print_string-Keeps : (s : Fmt) (fuel : ℕ) → KeepsCount s (print_string s fuel)
unfolding print_string
print_string-Keeps s fuel = with_arg s _ (λ a s' o w.
    or_no_fuel-Keeps s _ (puts_wo_nl s.mem a s.out fuel)
      λ p e s1 q h. ground (arith, puts_wo_nl-Counts s.mem a s.out fuel p e))

print_char-Keeps : (s : Fmt) → KeepsCount s (print_char s)
unfolding print_char
print_char-Keeps s =
    with_arg s _ (λ a s' o w s1 e h. ground (arith, put_char-IsCounted s' (a % 2 ^ 8)))

conversion-Keeps : (s : Fmt) (c fuel : ℕ) → KeepsCount s (conversion s c fuel)
unfolding conversion
conversion-Keeps s c fuel s1 e h = ground (
  arith,
  print_hex-Keeps s c s1,
  print_int-Keeps s c s1,
  print_count-Keeps s s1,
  print_string-Keeps s fuel s1,
  print_char-Keeps s s1,
  put_char-IsCounted s c,
)

in_format_char-Keeps : (s : Fmt) (c fuel : ℕ) → KeepsCount s (in_format_char s c fuel)
unfolding in_format_char
in_format_char-Keeps s c fuel s1 e h = ground (
  arith,
  width_arg-Keeps s s1,
  width_text-Keeps s fuel s1,
  precision-Keeps s fuel s1,
  conversion-Keeps s c fuel s1,
)

-- Every character of the format keeps the count right.
pub format_char-Keeps : (s : Fmt) (c fuel : ℕ) → KeepsCount s (format_char s c fuel)
unfolding format_char
format_char-Keeps s c fuel s1 e h =
    ground (arith, in_format_char-Keeps s c fuel s1, put_char-IsCounted s c)

bind-ok {ℓ κ} :
    {A : Type ℓ} {B : Type κ} (r : Result A) (f : A → Result B) {b : B}
    → (r >>= f) ≡ ok b
    → (a : A) × (r ≡ ok a) × (f a ≡ ok b)
bind-ok (ok a) f h = (a, refl, h)
bind-ok no_argument f h = absurd (cc)
bind-ok overflow f h = absurd (cc)
bind-ok overrun f h = absurd (cc)
bind-ok no_fuel f h = absurd (cc)

loop-IsCounted :
    (fuel : ℕ) (s s' : Fmt) → IsCounted s → vprintfmt_loop fuel s ≡ ok s' → IsCounted s'
unfolding vprintfmt_loop
loop-IsCounted zero s s' h e = absurd (cc)
loop-IsCounted (suc fuel) s s' h e = elim (Bool-cases (s.mem s.fmt == 0)) [
  | inl end ↦ ground arith
  | inr more ↦
      bind-Keeps s (λ s1. vprintfmt_loop fuel (record s1 { fmt = s1.fmt + 1 }))
        (format_char s (s.mem s.fmt) fuel)
        (λ a q s1 r k.
          loop-IsCounted fuel (record a { fmt = a.fmt + 1 }) s1
            (format_char-Keeps s (s.mem s.fmt) fuel a q k) r)
        s' (rw more at e) h
]

-- Whatever the format and the arguments: where vprintfmt ends, and no int has overflowed on the
-- way, its result is the number of the characters it has put, which is below 2^31.
pub vprintfmt_counts :
    (mem : Bytes) (fmt : ℕ) (vl : List ℕ) (fuel : ℕ) (p : Printer)
    → vprintfmt mem fmt vl fuel ≡ ok p
    → (p.written ≡ length p.text) × (p.written < 2 ^ 31)
unfolding vprintfmt
vprintfmt_counts mem fmt vl fuel p e =
    let (s, ended, same) = bind-ok (vprintfmt_loop fuel (start_fmt mem fmt vl)) _ e in
    let counted = loop-IsCounted fuel (start_fmt mem fmt vl) s refl ended in ground arith
