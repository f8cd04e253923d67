-- ===== src/Printer/Count.antt =====
-- The count that the functions of lib/printk.c return is that of the characters they have put.
use tiny_riscv_os.Prelude.{
  ℕ, zero, suc, ◌+◌, ◌-◌, ◌≤◌, ◌^◌, ◌%◌, ◌≡◌, leb, ◌&&◌, ◌||◌, inl, inr, Bool, true, false, some,
  List, [], ◌∷◌, ◌++◌, if◌then◌else◌, length, length-append, Option-cases, ℤ, arith,
}
use tiny_riscv_os.Buddy.{word}
use tiny_riscv_os.Bytes.{Bytes}
use tiny_riscv_os.Printer.{
  ok, Printer, FmtFlags, put, put_times, put_all, puts_loop, puts_wo_nl, put_dec, put_number,
  zero_prec, dec_digits, print_dec_int, null_text, min_text,
}

-- The printer has put as many characters after the text as it counts.
abbrev pub Counts : List ℕ → Printer → Type 0
Counts out p = length p.text ≡ length out + p.written

pub put-Counts : (out : List ℕ) (c : ℕ) (p : Printer) → Counts out p → Counts out (put c p)
unfolding put
put-Counts out c p h = omega (arith, h, length-append p.text (c ∷ []))

pub put_times-Counts :
    (n c : ℕ) (out : List ℕ) (p : Printer) → Counts out p → Counts out (put_times n c p)
unfolding put_times
put_times-Counts zero c out p h = h
put_times-Counts (suc n) c out p h = put_times-Counts n c out (put c p) (put-Counts out c p h)

pub put_all-Counts : (cs out : List ℕ) (p : Printer) → Counts out p → Counts out (put_all cs p)
unfolding put_all
put_all-Counts [] out p h = h
put_all-Counts (c ∷ cs) out p h = put_all-Counts cs out (put c p) (put-Counts out c p h)

pub if-Counts :
    (b : Bool) (out : List ℕ) (p q : Printer)
    → Counts out p
    → Counts out q
    → Counts out (if b then p else q)
if-Counts true out p q h k = h
if-Counts false out p q h k = k

put_dec-Counts :
    (buf : List ℕ) (neg sign : Bool) (f : FmtFlags) (prec : ℤ) (out : List ℕ) (p : Printer)
    → Counts out p
    → Counts out (put_dec buf neg sign f prec p)
unfolding put_dec
put_dec-Counts buf neg sign f prec out p h =
    let p1 = put_times-Counts _ 32 out p h in
    put_all-Counts buf out _
      (put_times-Counts _ 48 out _ (if-Counts sign out _ _ (put-Counts out _ _ p1) p1))

puts_loop-counts :
    (fuel : ℕ) (m : Bytes) (p : ℕ) (out out' : List ℕ) (q : ℕ)
    → puts_loop m p out fuel ≡ some (out', q)
    → (p ≤ q) × (length out' + p ≡ length out + q)
unfolding puts_loop
puts_loop-counts zero m p out out' q e = absurd (cc)
puts_loop-counts (suc fuel) m p out out' q e =
    ground (
      arith,
      puts_loop-counts fuel m (p + 1) (out ++ m p ∷ []) out' q,
      length-append out (m p ∷ []),
    )

-- puts_wo_nl returns the number of characters it has put.
pub puts_wo_nl-Counts :
    (m : Bytes) (s : ℕ) (out : List ℕ) (fuel : ℕ) (p : Printer)
    → puts_wo_nl m s out fuel ≡ some p
    → Counts out p
unfolding puts_wo_nl
puts_wo_nl-Counts m s out fuel p e = elim (Option-cases (puts_loop m s out fuel)) [
  | inl stuck ↦ ground (arith, length-append out null_text)
  | inr (r, done) ↦
      ground (arith, length-append out null_text, puts_loop-counts fuel m s out r.0 r.1)
]

put_number-Counts :
    (out : List ℕ) (size : ℕ) (neg sign : Bool) (f : FmtFlags) (p : Printer)
    → put_number out size neg sign f ≡ ok p
    → Counts out p
unfolding put_number
put_number-Counts out size neg sign f p e = elim (Option-cases (dec_digits 20 size [])) [
  | inl full ↦ ground arith
  | inr (buf, done) ↦ ground (
    arith,
    put_dec-Counts buf neg sign f (zero_prec f f.width) out (record { text = out; written = 0 }),
  )
]

-- print_dec_int returns the number of characters it has put.
pub print_dec_int-Counts :
    (out : List ℕ) (num : ℕ) (is_signed : Bool) (f : FmtFlags) (p : Printer)
    → print_dec_int out num is_signed f ≡ ok p
    → Counts out p
unfolding print_dec_int
print_dec_int-Counts out num is_signed f p e =
    let neg = is_signed && leb (2 ^ 63) num in
    ground (
      arith,
      length-append out min_text,
      put_number-Counts out (if neg then (word - num) % word else num) neg
          (is_signed && (neg || f.sign || f.spaceflag)) f p,
    )
