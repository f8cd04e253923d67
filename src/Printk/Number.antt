-- ===== src/Printk/Number.antt =====
-- The number that strtol of lib/printk.c reads.
use tiny_riscv_os.Prelude.{
  ℕ, zero, suc, ◌+◌, ◌-◌, ◌*◌, ◌/◌, ◌%◌, ◌≤◌, ◌<◌, ◌≡◌, ◌≢◌, ◌⊎◌, inl, inr, refl, sym, ap, ap₂,
  subst, ◌∙◌, Bool, true, false, none, some, if◌then◌else◌, ℕ_discrete, arith,
}
use tiny_riscv_os.Buddy.{word}
use tiny_riscv_os.Bytes.{Bytes}
use tiny_riscv_os.Printk.{
  isspace, skip_spaces, read_sign, read_base, digit_of, read_digits, apply_sign, read_number,
  strtol,
}

-- The number that k digits stand for, the highest first.
unfoldable pub numeral : ℕ → (ℕ → ℕ) → ℕ → ℕ
numeral base v zero = 0
numeral base v (suc k) = numeral base v k * base + v k

-- No digit of the base.
abbrev pub IsStop : ℕ → ℕ → Type 0
IsStop base c = (digit_of c ≡ none) ⊎ ((d : ℕ) × (base ≤ d) × (digit_of c ≡ some d))

pub skip_spaces-first :
    (fuel n : ℕ) (m : Bytes) (p : ℕ)
    → ((j : ℕ) → j < n → isspace (m (p + j)) ≡ true)
    → isspace (m (p + n)) ≡ false
    → n < fuel
    → skip_spaces m p fuel ≡ some (p + n)
unfolding skip_spaces
skip_spaces-first zero n m p h z l = absurd (omega arith)
skip_spaces-first (suc fuel) zero m p h z l =
    let e : p + 0 ≡ p = omega arith in
    let here : isspace (m p) ≡ false = subst (λ q. isspace (m q) ≡ false) e z in
    rw here (ap some (sym e))
skip_spaces-first (suc fuel) (suc n) m p h z l =
    let e : p + 0 ≡ p = omega arith in
    let here : isspace (m p) ≡ true = subst (λ q. isspace (m q) ≡ true) e (h 0 (omega arith)) in
    let shift : (j : ℕ) → p + suc j ≡ p + 1 + j = λ j. omega arith in
    rw here (
      skip_spaces-first fuel n m (p + 1)
        (λ j k. subst (λ q. isspace (m q) ≡ true) (shift j) (h (suc j) (omega arith)))
        (subst (λ q. isspace (m q) ≡ false) (shift n) z) (omega arith)
      ∙ ap some (sym (shift n)))

pub read_digits-stop :
    (m : Bytes) (base p ret fuel : ℕ)
    → IsStop base (m p)
    → read_digits m base p ret (suc fuel) ≡ some (ret, p)
unfolding read_digits
read_digits-stop m base p ret fuel (inl e) = ground arith
read_digits-stop m base p ret fuel (inr (d, l, e)) = ground arith

pub read_digits-step :
    (m : Bytes) (base p ret fuel d : ℕ)
    → digit_of (m p) ≡ some d
    → d < base
    → read_digits m base p ret (suc fuel)
      ≡ read_digits m base (p + 1) ((ret * base + d) % word) fuel
unfolding read_digits
read_digits-step m base p ret fuel d e l = ground arith

expand : (base q r : ℕ) → (word * q + r) * base ≡ word * (q * base) + r * base
expand base q r = omega arith

-- A carry out of 64 bits may be dropped before or after the step.
pub carry : (base x d : ℕ) → (x % word * base + d) % word ≡ (x * base + d) % word
carry base x d =
    let split : x ≡ word * (x / word) + x % word = omega arith in
    let product : x * base ≡ word * (x / word * base) + x % word * base =
      ap (λ (t : ℕ). t * base) split ∙ expand base (x / word) (x % word) in
    omega (arith, product)

-- From digit i on, with the value of the digits before it.
read_digits-from :
    (fuel i k : ℕ) (m : Bytes) (base p : ℕ) (v : ℕ → ℕ)
    → ((j : ℕ) → j < k → digit_of (m (p + j)) ≡ some (v j))
    → ((j : ℕ) → j < k → v j < base)
    → IsStop base (m (p + k))
    → i ≤ k
    → k < i + fuel
    → read_digits m base (p + i) (numeral base v i % word) fuel
      ≡ some (numeral base v k % word, p + k)
unfolding numeral
read_digits-from zero i k m base p v h s z g l = absurd (omega arith)
read_digits-from (suc fuel) i k m base p v h s z g l = elim (ℕ_discrete i k) [
  | yes here ↦ rw here (read_digits-stop m base (p + k) _ fuel z)
  | no later ↦
      let before : i < k = omega arith in
      let next : p + i + 1 ≡ p + suc i = omega arith in
      read_digits-step m base (p + i) (numeral base v i % word) fuel (v i) (h i before) (s i before)
      ∙ ap₂ (λ q r. read_digits m base q r fuel) next (carry base (numeral base v i) (v i))
      ∙ read_digits-from fuel (suc i) k m base p v h s z (omega arith) (omega arith)
]

read_base-given : (m : Bytes) (base p : ℕ) → base ≢ 0 → read_base m base p ≡ (base, p)
unfolding read_base
read_base-given m base p b = ground arith

pub read_number-step :
    (m : Bytes) (base q p ret stop fuel : ℕ) (neg : Bool)
    → base ≢ 0
    → read_sign m q ≡ (neg, p)
    → read_digits m base p 0 fuel ≡ some (ret, stop)
    → read_number m base q fuel ≡ some (if neg then (word - ret) % word else ret, stop)
unfolding read_number apply_sign
read_number-step m base q p ret stop fuel neg b e d =
    rw (e, read_base-given m base p b, ap (apply_sign neg) d) refl

pub strtol-step :
    (m : Bytes) (nptr base fuel p : ℕ)
    → skip_spaces m nptr fuel ≡ some p
    → strtol m nptr base fuel ≡ read_number m base p fuel
unfolding strtol
strtol-step m nptr base fuel p e = ground arith

read_digits-numeral :
    (m : Bytes) (base p k fuel : ℕ) (v : ℕ → ℕ)
    → ((j : ℕ) → j < k → digit_of (m (p + j)) ≡ some (v j))
    → ((j : ℕ) → j < k → v j < base)
    → IsStop base (m (p + k))
    → k < fuel
    → read_digits m base p 0 fuel ≡ some (numeral base v k % word, p + k)
unfolding numeral
read_digits-numeral m base p k fuel v hd hv hs l =
    let start : p + 0 ≡ p = omega arith in
    subst (λ q. read_digits m base q 0 fuel ≡ some (numeral base v k % word, p + k)) start
      (read_digits-from fuel 0 k m base p v hd hv hs (omega arith) (omega arith))

-- After any number of spaces and a sign or none, strtol with a base other than 0 reads the k digits
-- up to the first character that is no digit of the base: it ends, the result is their number
-- modulo 2^64, negated after a minus, and endptr is the address of that character.
pub strtol_lem :
    (m : Bytes) (nptr base fuel n p k : ℕ) (neg : Bool) (v : ℕ → ℕ)
    → base ≢ 0
    → ((j : ℕ) → j < n → isspace (m (nptr + j)) ≡ true)
    → isspace (m (nptr + n)) ≡ false
    → read_sign m (nptr + n) ≡ (neg, p)
    → ((j : ℕ) → j < k → digit_of (m (p + j)) ≡ some (v j))
    → ((j : ℕ) → j < k → v j < base)
    → IsStop base (m (p + k))
    → n < fuel
    → k < fuel
    → strtol m nptr base fuel
      ≡ some
          (if neg then (word - numeral base v k % word) % word else numeral base v k % word, p + k)
strtol_lem m nptr base fuel n p k neg v b h z e hd hv hs ln lk =
    strtol-step m nptr base fuel (nptr + n) (skip_spaces-first fuel n m nptr h z ln)
    ∙ read_number-step m base (nptr + n) p _ (p + k) fuel neg b e
        (read_digits-numeral m base p k fuel v hd hv hs lk)
