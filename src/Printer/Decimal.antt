-- ===== src/Printer/Decimal.antt =====
-- print_dec_int of lib/printk.c puts the decimal text of a number, and strtol reads it back.
use mathlib.Core.List.{append_assoc, append-nil}
use tiny_riscv_os.Prelude.{
  ℕ, suc, ◌+◌, ◌-◌, ◌%◌, ◌^◌, ◌<◌, ◌≡◌, inl, inr, refl, sym, ap, subst, ◌∙◌, Bool, true, false,
  some, List, [], ◌∷◌, ◌++◌, length, leb, ◌==◌, if◌then◌else◌, Bool-cases, ==_iff, pos, negsuc,
  pos_part, ◌-ℤ◌, arith,
}
use tiny_riscv_os.Buddy.{word}
use tiny_riscv_os.Bytes.{Bytes}
use tiny_riscv_os.Printk.{isspace, read_sign, read_number, strtol}
use tiny_riscv_os.Printk.Number.{IsStop, skip_spaces-first, read_number-step, strtol-step}
use tiny_riscv_os.Printer.{
  ok, Printer, fresh_flags, put, put_times, put_all, put_dec, max_ℤ, zero_prec, put_number,
  min_text, print_dec_int,
}
use tiny_riscv_os.Printer.Digits.{
  AreDigits, value_from, decimal, dec_digits-Digits, Holds, read_digits-AreDigits,
}

-- The decimal text of a 64-bit word as a signed number.
abbrev pub signed_text : ℕ → List ℕ
signed_text num = if leb (2 ^ 63) num then 45 ∷ decimal 20 (word - num) else decimal 20 num

put_all_lem :
    (cs : List ℕ) (p : Printer)
    → put_all cs p ≡ record { text = p.text ++ cs; written = p.written + length cs }
unfolding put_all put
put_all_lem [] p = ground (arith, append-nil p.text)
put_all_lem (c ∷ cs) p = put_all_lem cs (put c p) ∙ ground (arith, append_assoc p.text (c ∷ []) cs)

no_spaces : (d k : ℕ) → pos_part (pos 0 -ℤ max_ℤ d (negsuc 0) -ℤ pos k) ≡ 0
unfolding max_ℤ
no_spaces d k = ground arith

no_zeros : (d k : ℕ) → pos_part (negsuc 0 -ℤ pos k -ℤ pos d) ≡ 0
no_zeros d k = ground arith

-- With the flags of a plain conversion no space and no zero is put.
put_dec_plain :
    (buf out : List ℕ) (neg : Bool)
    → put_dec buf neg neg fresh_flags (negsuc 0) (record { text = out; written = 0 })
      ≡ (let cs = if neg then 45 ∷ buf else buf in record { text = out ++ cs; written = length cs })
unfolding put_dec put_times put
put_dec_plain buf out true =
    rw (no_spaces (length buf) 1, no_zeros (length buf) 1)
      (put_all_lem buf _ ∙ ground (arith, append_assoc out (45 ∷ []) buf))
put_dec_plain buf out false =
    rw (no_spaces (length buf) 0, no_zeros (length buf) 0) (put_all_lem buf _ ∙ ground arith)

put_number_plain :
    (out : List ℕ) (size : ℕ) (neg : Bool)
    → size < word
    → put_number out size neg neg fresh_flags
      ≡ ok (
          let cs = if neg then 45 ∷ decimal 20 size else decimal 20 size in
          record { text = out ++ cs; written = length cs })
unfolding put_number zero_prec
put_number_plain out size neg l =
    let (ds, e, D) = dec_digits-Digits 20 size [] (omega arith) (omega arith) tt in
    let same : ds ≡ decimal 20 size = D.text ∙ append-nil (decimal 20 size) in
    rw (e, same) (ap ok (put_dec_plain (decimal 20 size) out neg))

min_decimal : min_text ≡ signed_text (2 ^ 63)
unfolding decimal
min_decimal = refl

print_dec_int_plain :
    (out : List ℕ) (num : ℕ)
    → num < word
    → print_dec_int out num true fresh_flags
      ≡ ok (record { text = out ++ signed_text num; written = length (signed_text num) })
unfolding print_dec_int
print_dec_int_plain out num l = elim (Bool-cases (num == 2 ^ 63)) [
  | inl least ↦
      let e : num ≡ 2 ^ 63 = (==_iff num (2 ^ 63)).0 least in
      rw e (ap (λ cs. ok (record { text = out ++ cs; written = length cs })) min_decimal)
  | inr other ↦ elim (Bool-cases (leb (2 ^ 63) num)) [
    | inl neg ↦
        let size : (word - num) % word ≡ word - num = ground arith in
        rw (other, neg, size) (put_number_plain out (word - num) true (ground arith))
    | inr plus ↦ rw (other, plus) (put_number_plain out num false l)
  ]
]

strtol_start :
    (m : Bytes) (a fuel : ℕ)
    → isspace (m a) ≡ false
    → 0 < fuel
    → strtol m a 10 fuel ≡ read_number m 10 a fuel
strtol_start m a fuel z l =
    let here : a + 0 ≡ a = omega arith in
    strtol-step m a 10 fuel a (
      skip_spaces-first fuel 0 m a (λ j k. absurd (omega arith)) (ap (λ q. isspace (m q)) here ∙ z)
        l
      ∙ ap some here)

first_digit :
    (ds : List ℕ) (m : Bytes) (a : ℕ)
    → AreDigits ds
    → 0 < length ds
    → Holds m a ds
    → (isspace (m a) ≡ false) × (read_sign m a ≡ (false, a))
unfolding isspace read_sign
first_digit [] m a d l h = absurd (omega arith)
first_digit (c ∷ cs) m a (lo, hi, d) l (e, h) = (ground arith, ground arith)

first_minus :
    (m : Bytes) (a : ℕ) → m a ≡ 45 → (isspace (m a) ≡ false) × (read_sign m a ≡ (true, a + 1))
unfolding isspace read_sign
first_minus m a e = (ground arith, ground arith)

decimal-AreDigits :
    (size : ℕ)
    → size < word
    → AreDigits (decimal 20 size)
      × (value_from 0 (decimal 20 size) % word ≡ size)
      × (0 < length (decimal 20 size))
unfolding value_from
decimal-AreDigits size l =
    let (ds, e, D) = dec_digits-Digits 20 size [] (omega arith) (omega arith) tt in
    let same : ds ≡ decimal 20 size = D.text ∙ append-nil (decimal 20 size) in
    let v : value_from 0 (decimal 20 size) ≡ size = ap (value_from 0) (sym same) ∙ D.value in
    (subst AreDigits same D.digits, omega (arith, v), subst (λ xs. 0 < length xs) same D.size.0)

strtol-decimal :
    (size : ℕ) (neg : Bool) (m : Bytes) (a p fuel : ℕ)
    → size < word
    → isspace (m a) ≡ false
    → read_sign m a ≡ (neg, p)
    → Holds m p (decimal 20 size)
    → IsStop 10 (m (p + length (decimal 20 size)))
    → length (decimal 20 size) < fuel
    → strtol m a 10 fuel
      ≡ some (if neg then (word - size) % word else size, p + length (decimal 20 size))
strtol-decimal size neg m a p fuel l z sg h s f =
    let (d, v, k) = decimal-AreDigits size l in
    strtol_start m a fuel z (omega arith)
    ∙ read_number-step m 10 a p _ _ fuel neg (omega arith) sg
        (read_digits-AreDigits (decimal 20 size) fuel 0 m p d h s f)
    ∙ ap (λ n. some (if neg then (word - n) % word else n, p + length (decimal 20 size))) v

strtol-signed_text :
    (num a fuel : ℕ) (m : Bytes)
    → num < word
    → Holds m a (signed_text num)
    → IsStop 10 (m (a + length (signed_text num)))
    → length (signed_text num) < fuel
    → strtol m a 10 fuel ≡ some (num, a + length (signed_text num))
strtol-signed_text num a fuel m l h s f = go (leb (2 ^ 63) num) refl h s f
  where
    go :
        (b : Bool)
        → leb (2 ^ 63) num ≡ b
        → Holds m a (if b then 45 ∷ decimal 20 (word - num) else decimal 20 num)
        → IsStop 10 (m (a + length (if b then 45 ∷ decimal 20 (word - num) else decimal 20 num)))
        → length (if b then 45 ∷ decimal 20 (word - num) else decimal 20 num) < fuel
        → strtol m a 10 fuel
          ≡ some (num, a + length (if b then 45 ∷ decimal 20 (word - num) else decimal 20 num))
    go true e (c, h) s f =
        let (z, sg) = first_minus m a c in
        let shift : a + suc (length (decimal 20 (word - num)))
            ≡ a + 1 + length (decimal 20 (word - num)) =
          omega arith in
        let back : (word - (word - num)) % word ≡ num = omega arith in
        strtol-decimal (word - num) true m a (a + 1) fuel (ground arith) z sg h
          (subst (λ q. IsStop 10 (m q)) shift s) (omega arith)
        ∙ ground arith
    go false e h s f =
        let (d, v, k) = decimal-AreDigits num l in
        let (z, sg) = first_digit (decimal 20 num) m a d k h in
        strtol-decimal num false m a a fuel l z sg h s f

-- print_dec_int with the flags of a plain %d puts the decimal text of a signed 64-bit word, with a
-- minus if it is negative, and returns its length; and wherever that text stands before a character
-- that is no digit, strtol reads the same word back.
pub strtol-print_dec_int :
    (out : List ℕ) (num a fuel : ℕ) (m : Bytes)
    → num < word
    → Holds m a (signed_text num)
    → IsStop 10 (m (a + length (signed_text num)))
    → length (signed_text num) < fuel
    → (print_dec_int out num true fresh_flags
        ≡ ok (record { text = out ++ signed_text num; written = length (signed_text num) }))
      × (strtol m a 10 fuel ≡ some (num, a + length (signed_text num)))
strtol-print_dec_int out num a fuel m l h s f =
    (print_dec_int_plain out num l, strtol-signed_text num a fuel m l h s f)
