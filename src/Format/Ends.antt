-- ===== src/Format/Ends.antt =====
-- vprintfmt of lib/printk.c comes to an end.
use native.Mathlib.Nat.{pow-suc}
use tiny_riscv_os.Prelude.{
  ℕ, zero, suc, ◌+◌, ◌-◌, ◌/◌, ◌%◌, ◌^◌, ◌≤◌, ◌<◌, ◌≡◌, ◌≢◌, refl, sym, subst, inl, inr, ◌∙◌, ap,
  Bool, true, false, some, List, [], ◌∷◌, ◌++◌, if◌then◌else◌, leb, ltb, not, ◌&&◌, ◌||◌, ◌==◌,
  Bool-cases, ==_iff, eqb_ℤ, pos, arith,
}
use tiny_riscv_os.Buddy.{word}
use tiny_riscv_os.Bytes.{Bytes}
use tiny_riscv_os.Printk.{isspace, digit_of}
use tiny_riscv_os.Printk.Ends.{IsEnd, strtol-IsEnd}
use tiny_riscv_os.Printer.{
  Result, ok, no_argument, overflow, overrun, no_fuel, Printer, FmtFlags, fresh_flags, ◌>>=◌,
  puts_loop, puts_wo_nl, put_number, print_dec_int,
}
use tiny_riscv_os.Printer.Digits.{dec_digits-Digits}
use tiny_riscv_os.Format.{
  Fmt, va_take, va_arg, width_arg, width_text, prec_arg, prec_text, precision, hex_digits, xdigit,
  print_hex_num, print_hex, int_to_long, print_int, print_string, print_char, conversion,
  in_format_char, format_char, vprintfmt_loop, start_fmt, vprintfmt, put_char, counted,
}

-- A step that neither runs out of fuel nor stores past a buffer; where it ends well it is still in
-- the format, which ends at z, and has left memory alone.
abbrev Proceeds : Fmt → ℕ → Result Fmt → Type 0
Proceeds s z (ok s') = (s'.mem ≡ s.mem) × (s.fmt ≤ s'.fmt) × (s'.fmt < z)
Proceeds s z no_argument = Unit {0}
Proceeds s z overflow = Unit {0}
Proceeds s z overrun = ⊥
Proceeds s z no_fuel = ⊥

with_arg :
    (s : Fmt) (z : ℕ) (f : ℕ × Fmt → Result Fmt)
    → ((a : ℕ) (vl : List ℕ) → a < word → Proceeds s z (f (a, record s { vl = vl })))
    → Proceeds s z (va_arg s >>= f)
unfolding va_arg
with_arg s z f k = go s.vl
  where
    go : (vl : List ℕ) → Proceeds s z (va_take vl s >>= f)
    go [] = tt
    go (a ∷ vl) = k (a % word) vl (omega arith)

-- Sixteen places hold the digits of a word.
hex_digits_fit :
    (room num : ℕ) (upper : Bool) (buf : List ℕ)
    → 0 < room
    → num < 16 ^ room
    → (ds : List ℕ) × (hex_digits room upper num buf ≡ some ds)
unfolding hex_digits
hex_digits_fit zero num upper buf r l = absurd (omega arith)
hex_digits_fit (suc zero) num upper buf r l =
    let last : (num / 16 == 0) ≡ true = ground arith in rw last (_, refl)
hex_digits_fit (suc (suc room)) num upper buf r l = elim (Bool-cases (num / 16 == 0)) [
  | inl last ↦ rw last (_, refl)
  | inr more ↦
      let (ds, e) =
        hex_digits_fit (suc room) (num / 16) upper (xdigit upper (num % 16) ∷ buf) (omega arith)
          (omega (arith, pow-suc 16 (suc room))) in
      (ds, rw more e)
]

puts_loop_ends :
    (fuel : ℕ) (m : Bytes) (p z : ℕ) (out : List ℕ)
    → IsEnd m p z
    → z < p + fuel
    → (r : List ℕ × ℕ) × (puts_loop m p out fuel ≡ some r)
unfolding puts_loop
puts_loop_ends zero m p z out e l = absurd (omega arith)
puts_loop_ends (suc fuel) m p z out (e, b) l = elim (Bool-cases (m p == 0)) [
  | inl end ↦ rw end (_, refl)
  | inr more ↦
      let before : p ≢ z = λ q. ground (arith, ap m q) in
      let (r, done) =
        puts_loop_ends fuel m (p + 1) z (out ++ m p ∷ []) (e, omega arith) (omega arith) in
      (r, rw more done)
]

-- In a memory that is zero from `limit` on every string ends.
puts_wo_nl_ends :
    (fuel : ℕ) (m : Bytes) (limit a : ℕ) (out : List ℕ)
    → ((b : ℕ) → limit ≤ b → m b ≡ 0)
    → limit < fuel
    → (p : Printer) × (puts_wo_nl m a out fuel ≡ some p)
unfolding puts_wo_nl
puts_wo_nl_ends fuel m limit a out zeros l = elim (Bool-cases (a == 0)) [
  | inl null ↦ rw null (_, refl)
  | inr text ↦
      let (r, done) =
        puts_loop_ends fuel m a (limit + a) out (zeros (limit + a) (omega arith), omega arith)
          (omega arith) in
      (record { text = r.0; written = r.1 - a }, ground arith)
]

put_number_ends :
    (out : List ℕ) (size : ℕ) (neg sign : Bool) (f : FmtFlags)
    → size < word
    → (p : Printer) × (put_number out size neg sign f ≡ ok p)
unfolding put_number
put_number_ends out size neg sign f l =
    let (ds, e, D) = dec_digits-Digits 20 size [] (omega arith) (omega arith) tt in rw e (_, refl)

-- The buffer of print_dec_int has room for every word.
pub print_dec_int_ends :
    (out : List ℕ) (num : ℕ) (is_signed : Bool) (f : FmtFlags)
    → num < word
    → (p : Printer) × (print_dec_int out num is_signed f ≡ ok p)
unfolding print_dec_int
print_dec_int_ends out num is_signed f l =
    let neg = is_signed && leb (2 ^ 63) num in
    let sign = is_signed && (neg || f.sign || f.spaceflag) in
    let size = if neg then (word - num) % word else num in
    let small : size < word = ground arith in
    elim (Bool-cases (is_signed && num == 2 ^ 63)) [
      | inl least ↦ rw least (_, refl)
      | inr other ↦ elim (Bool-cases (eqb_ℤ f.prec (pos 0) && num == 0)) [
        | inl nothing ↦ rw (other, nothing) (_, refl)
        | inr digits ↦ rw (other, digits) (put_number_ends out size neg sign f small)
      ]
    ]

digit_first :
    (c : ℕ)
    → leb b'1' c && leb c b'9' ≡ true
    → (isspace c ≡ false) × (digit_of c ≡ some (c - 48)) × (c - 48 < 10)
unfolding isspace digit_of
digit_first c d = ground arith

long_small : (a : ℕ) (b : Bool) → a < word → (if b then a else int_to_long a) < word
unfolding int_to_long
long_small a b w = ground arith

-- The state in the middle of a format that ends at z, in a memory that is zero from limit on.
module _ (s : Fmt) (z limit fuel : ℕ) (end : s.mem z ≡ 0) (inside : s.fmt < z)
    (enough : z < s.fmt + fuel) (zeros : (b : ℕ) → limit ≤ b → s.mem b ≡ 0)
    (long : limit < fuel) where
  width_arg-Proceeds : Proceeds s z (width_arg s)
  unfolding width_arg
  width_arg-Proceeds = with_arg s z _ (λ a vl w. (refl, omega arith, inside))

  width_text-Proceeds :
      leb b'1' (s.mem s.fmt) && leb (s.mem s.fmt) b'9' ≡ true → Proceeds s z (width_text s fuel)
  unfolding width_text
  width_text-Proceeds d =
      let (r, done, lo, hi, more) = strtol-IsEnd fuel s.mem s.fmt z (end, omega arith) enough in
      let (i, e, b) = digit_first (s.mem s.fmt) d in
      let after : s.fmt < r.1 = more i (s.mem s.fmt - 48) e b in
      rw done (refl, omega arith, omega arith)

  precision-Proceeds : Proceeds s z (precision s fuel)
  unfolding precision prec_arg prec_text
  precision-Proceeds = elim (Bool-cases (s.mem (s.fmt + 1) == b'*')) [
    | inl star ↦
        let before : s.fmt + 1 ≢ z = λ q. ground (arith, ap s.mem q) in
        rw star (with_arg s z _ (λ a vl w. (refl, omega arith, omega arith)))
    | inr text ↦
        let (r, done, lo, hi, more) =
          strtol-IsEnd fuel s.mem (s.fmt + 1) z (end, omega arith) (omega arith) in
        rw (text, done) (refl, omega arith, omega arith)
  ]

  print_hex-Proceeds : (c : ℕ) → Proceeds s z (print_hex s c)
  unfolding print_hex print_hex_num
  print_hex-Proceeds c = with_arg s z _ λ a vl w.
      let num = if c == b'p' || s.flags.longflag then a else a % 2 ^ 32 in
      let small : num < word = ground arith in
      let (ds, e) = hex_digits_fit 16 num (c == b'X') [] (omega arith) (omega arith) in
      elim (Bool-cases ((eqb_ℤ s.flags.prec (pos 0) && num == 0) && not (c == b'p'))) [
        | inl nothing ↦ rw nothing (refl, omega arith, inside)
        | inr digits ↦ rw (digits, e) (refl, omega arith, inside)
      ]

  print_int-Proceeds : (c : ℕ) → Proceeds s z (print_int s c)
  unfolding print_int
  print_int-Proceeds c = with_arg s z _ λ a vl w.
      let num = if s.flags.longflag then a else int_to_long a in
      let (p, e) =
        print_dec_int_ends s.out num (not (c == b'u')) s.flags (long_small a s.flags.longflag w) in
      rw e (refl, omega arith, inside)

  print_string-Proceeds : Proceeds s z (print_string s fuel)
  unfolding print_string
  print_string-Proceeds = with_arg s z _ λ a vl w.
      let (p, e) = puts_wo_nl_ends fuel s.mem limit a s.out zeros long in
      rw e (refl, omega arith, inside)

  print_char-Proceeds : Proceeds s z (print_char s)
  unfolding print_char
  print_char-Proceeds = with_arg s z _ (λ a vl w. (refl, omega arith, inside))

  conversion-Proceeds : (c : ℕ) → c ≢ b'n' → Proceeds s z (conversion s c fuel)
  unfolding conversion
  conversion-Proceeds c plain = elim (Bool-cases ((c == b'x' || c == b'X') || c == b'p')) [
    | inl x ↦ rw x (print_hex-Proceeds c)
    | inr e1 ↦ elim (Bool-cases ((c == b'd' || c == b'i') || c == b'u')) [
      | inl d ↦ rw (e1, d) (print_int-Proceeds c)
      | inr e2 ↦ elim (Bool-cases (c == b'n')) [
        | inl n ↦ absurd (plain ((==_iff c b'n').0 n))
        | inr e3 ↦ elim (Bool-cases (c == b's')) [
          | inl t ↦ rw (e1, e2, e3, t) print_string-Proceeds
          | inr e4 ↦ elim (Bool-cases (c == b'c')) [
            | inl t ↦ rw (e1, e2, e3, e4, t) print_char-Proceeds
            | inr e5 ↦ rw (e1, e2, e3, e4, e5) (refl, omega arith, inside)
          ]
        ]
      ]
    ]
  ]

  flag_or_width-Proceeds :
      (c : ℕ) → s.mem s.fmt ≡ c → c ≢ b'n' → Proceeds s z (in_format_char s c fuel)
  unfolding in_format_char
  flag_or_width-Proceeds c here plain = elim (Bool-cases (c == b'#')) [
    | inl t ↦ rw t (refl, omega arith, inside)
    | inr e1 ↦ elim (Bool-cases (c == b'0')) [
      | inl t ↦ rw (e1, t) (refl, omega arith, inside)
      | inr e2 ↦ elim (Bool-cases ((c == b'l' || c == b'z') || (c == b't' || c == b'j'))) [
        | inl t ↦ rw (e1, e2, t) (refl, omega arith, inside)
        | inr e3 ↦ elim (Bool-cases (c == b'+')) [
          | inl t ↦ rw (e1, e2, e3, t) (refl, omega arith, inside)
          | inr e4 ↦ elim (Bool-cases (c == b' ')) [
            | inl t ↦ rw (e1, e2, e3, e4, t) (refl, omega arith, inside)
            | inr e5 ↦ elim (Bool-cases (c == b'*')) [
              | inl t ↦ rw (e1, e2, e3, e4, e5, t) width_arg-Proceeds
              | inr e6 ↦ elim (Bool-cases (leb b'1' c && leb c b'9')) [
                | inl t ↦
                    rw (e1, e2, e3, e4, e5, e6, t)
                      (width_text-Proceeds
                        (subst (λ d. leb b'1' d && leb d b'9' ≡ true) (sym here) t))
                | inr e7 ↦ elim (Bool-cases (c == b'.')) [
                  | inl t ↦ rw (e1, e2, e3, e4, e5, e6, e7, t) precision-Proceeds
                  | inr e8 ↦ rw (e1, e2, e3, e4, e5, e6, e7, e8) (conversion-Proceeds c plain)
                ]
              ]
            ]
          ]
        ]
      ]
    ]
  ]

  format_char-Proceeds : (c : ℕ) → s.mem s.fmt ≡ c → c ≢ b'n' → Proceeds s z (format_char s c fuel)
  unfolding format_char
  format_char-Proceeds c here plain =
      either s.flags.in_format (in_format_char s c fuel)
        (if c == b'%' then ok (record s { flags = fresh_flags }) else ok (put_char s c))
        (flag_or_width-Proceeds c here plain)
        (either (c == b'%') (ok (record s { flags = fresh_flags })) (ok (put_char s c))
          (refl, omega arith, inside) (refl, omega arith, inside))
    where
      either :
          (b : Bool) (q r : Result Fmt)
          → Proceeds s z q
          → Proceeds s z r
          → Proceeds s z (if b then q else r)
      either true q r p k = p
      either false q r p k = k

-- Whatever is not a store past a buffer and not a lack of fuel.
abbrev pub Ends {ℓ} : {A : Type ℓ} → Result A → Type 0
Ends (ok a) = Unit {0}
Ends no_argument = Unit {0}
Ends overflow = Unit {0}
Ends overrun = ⊥
Ends no_fuel = ⊥

bind-Ends :
    (s : Fmt) (z : ℕ) (r : Result Fmt) (f : Fmt → Result Fmt)
    → Proceeds s z r
    → ((s' : Fmt) → s'.mem ≡ s.mem → s.fmt ≤ s'.fmt → s'.fmt < z → Ends (f s'))
    → Ends (r >>= f)
bind-Ends s z (ok s') f (m, lo, hi) k = k s' m lo hi
bind-Ends s z no_argument f p k = tt
bind-Ends s z overflow f p k = tt
bind-Ends s z overrun f p k = elim p [ ]
bind-Ends s z no_fuel f p k = elim p [ ]

loop-Ends :
    (fuel : ℕ) (s : Fmt) (z limit : ℕ)
    → s.mem z ≡ 0
    → s.fmt ≤ z
    → z + limit + 1 < s.fmt + fuel
    → ((b : ℕ) → limit ≤ b → s.mem b ≡ 0)
    → ((b : ℕ) → s.fmt ≤ b → b < z → s.mem b ≢ b'n')
    → Ends (vprintfmt_loop fuel s)
unfolding vprintfmt_loop
loop-Ends zero s z limit end before enough zeros plain = absurd (omega arith)
loop-Ends (suc fuel) s z limit end before enough zeros plain =
    elim (Bool-cases (s.mem s.fmt == 0)) [
      | inl done ↦ rw done tt
      | inr more ↦
          let other : s.fmt ≢ z = λ q. ground (arith, ap s.mem q) in
          rw more (
            bind-Ends s z (format_char s (s.mem s.fmt) fuel) _
              (format_char-Proceeds s z limit fuel end (omega arith) (omega arith) zeros
                (omega arith) (s.mem s.fmt) refl (plain s.fmt (omega arith) (omega arith)))
              λ s' m lo hi.
                loop-Ends fuel (record s' { fmt = s'.fmt + 1 }) z limit (ap (λ f. f z) m ∙ end)
                  (omega arith) (omega arith) (λ b h. ap (λ f. f b) m ∙ zeros b h)
                  (λ b h k q. plain b (omega arith) k (sym (ap (λ f. f b) m) ∙ q)))
    ]

-- In a memory that is zero from some limit on, so that every string in it ends, and with a format
-- without the letter n: whatever the arguments, with more rounds as fuel than the format has
-- characters and the limit and 1, vprintfmt ends (with a result, at an argument that is missing, or
-- with a count that no int holds), and stores nothing past the end of its buffers for digits.
pub vprintfmt-Ends :
    (mem : Bytes) (fmt k limit : ℕ) (vl : List ℕ) (fuel : ℕ)
    → mem (fmt + k) ≡ 0
    → ((j : ℕ) → j < k → mem (fmt + j) ≢ b'n')
    → ((b : ℕ) → limit ≤ b → mem b ≡ 0)
    → k + limit + 1 < fuel
    → Ends (vprintfmt mem fmt vl fuel)
unfolding vprintfmt
vprintfmt-Ends mem fmt k limit vl fuel end plain zeros l =
    finish (vprintfmt_loop fuel (start_fmt mem fmt vl)) (
      loop-Ends fuel (start_fmt mem fmt vl) (fmt + k) limit end (omega arith) (omega arith) zeros
        λ b lo hi q.
          plain (b - fmt) (omega arith) (subst (λ c. mem c ≡ b'n') (the_index b fmt lo) q))
  where
    finish : (r : Result Fmt) → Ends r → Ends (r >>= counted)
    finish (ok s) e = elim (Bool-cases (ltb s.written (2 ^ 31))) [
      | inl t ↦ rw t tt
      | inr t ↦ rw t tt
    ]
    finish no_argument e = tt
    finish overflow e = tt
    finish overrun e = elim e [ ]
    finish no_fuel e = elim e [ ]

    the_index : (b fmt : ℕ) → fmt ≤ b → b ≡ fmt + (b - fmt)
    the_index b fmt lo = omega arith
