-- ===== src/Printk/Ends.antt =====
-- strtol of lib/printk.c on a text that ends: it reads no further than the zero byte.
use tiny_riscv_os.Prelude.{
  ℕ, zero, suc, ◌+◌, ◌*◌, ◌%◌, ◌≤◌, ◌<◌, ◌≡◌, ◌≢◌, inl, inr, refl, sym, subst, ap, ◌∙◌, true, false,
  some, leb, Bool-cases, Option-cases, arith,
}
use tiny_riscv_os.Buddy.{word}
use tiny_riscv_os.Bytes.{Bytes}
use tiny_riscv_os.Printk.{isspace, skip_spaces, read_sign, digit_of, read_digits, strtol}
use tiny_riscv_os.Printk.Number.{read_number-step, strtol-step}

-- The zero byte at z is at p or behind it.
abbrev pub IsEnd : Bytes → ℕ → ℕ → Type 0
IsEnd m p z = (m z ≡ 0) × (p ≤ z)

space-before : (m : Bytes) (p z : ℕ) → m z ≡ 0 → isspace (m p) ≡ true → p ≢ z
unfolding isspace
space-before m p z e s q = ground (arith, ap m q)

digit-before : (m : Bytes) (p z d : ℕ) → m z ≡ 0 → digit_of (m p) ≡ some d → p ≢ z
unfolding digit_of
digit-before m p z d e s q = ground (arith, ap m q)

skip_spaces-IsEnd :
    (fuel : ℕ) (m : Bytes) (p z : ℕ)
    → IsEnd m p z
    → z < p + fuel
    → (q : ℕ) × (skip_spaces m p fuel ≡ some q)
      × (p ≤ q)
      × (q ≤ z)
      × (isspace (m p) ≡ false → q ≡ p)
unfolding skip_spaces
skip_spaces-IsEnd zero m p z e l = absurd (omega arith)
skip_spaces-IsEnd (suc fuel) m p z (e, b) l = elim (Bool-cases (isspace (m p))) [
  | inl space ↦
      let before : p ≢ z = space-before m p z e space in
      let (q, done, lo, hi, same) =
        skip_spaces-IsEnd fuel m (p + 1) z (e, omega arith) (omega arith) in
      (q, rw space done, omega arith, hi, λ h. absurd (cc))
  | inr other ↦ (p, rw other refl, omega arith, b, λ h. refl)
]

read_digits-IsEnd :
    (fuel ret : ℕ) (m : Bytes) (p z : ℕ)
    → IsEnd m p z
    → z < p + fuel
    → (r : ℕ × ℕ) × (read_digits m 10 p ret fuel ≡ some r)
      × (p ≤ r.1)
      × (r.1 ≤ z)
      × ((d : ℕ) → digit_of (m p) ≡ some d → d < 10 → p < r.1)
unfolding read_digits
read_digits-IsEnd zero ret m p z e l = absurd (omega arith)
read_digits-IsEnd (suc fuel) ret m p z (e, b) l = elim (Option-cases (digit_of (m p))) [
  | inl other ↦ ((ret, p), ground arith, omega arith, b, λ d f s. absurd (cc))
  | inr (d, digit) ↦ elim (Bool-cases (leb 10 d)) [
    | inl large ↦ ((ret, p), ground arith, omega arith, b, λ c f s. ground arith)
    | inr small ↦
        let before : p ≢ z = digit-before m p z d e digit in
        let (r, done, lo, hi, more) =
          read_digits-IsEnd fuel ((ret * 10 + d) % word) m (p + 1) z (e, omega arith)
            (omega arith) in
        (r, ground arith, omega arith, hi, λ c f s. omega arith)
  ]
]

read_sign-IsEnd :
    (m : Bytes) (p z : ℕ)
    → IsEnd m p z
    → (p ≤ (read_sign m p).1)
      × ((read_sign m p).1 ≤ z)
      × ((d : ℕ) → digit_of (m p) ≡ some d → (read_sign m p).1 ≡ p)
unfolding read_sign digit_of
read_sign-IsEnd m p z (e, b) =
    let plus : m p ≡ 43 → p ≢ z = λ h q. omega (arith, ap m q) in
    let minus : m p ≡ 45 → p ≢ z = λ h q. omega (arith, ap m q) in
    (ground arith, ground arith, λ d f. ground arith)

-- strtol ends, at or before the end of the text, and behind a digit if the text begins with one.
pub strtol-IsEnd :
    (fuel : ℕ) (m : Bytes) (p z : ℕ)
    → IsEnd m p z
    → z < p + fuel
    → (r : ℕ × ℕ) × (strtol m p 10 fuel ≡ some r)
      × (p ≤ r.1)
      × (r.1 ≤ z)
      × (isspace (m p) ≡ false → (d : ℕ) → digit_of (m p) ≡ some d → d < 10 → p < r.1)
strtol-IsEnd fuel m p z (e, b) l =
    let (q, spaces, lo, hi, same) = skip_spaces-IsEnd fuel m p z (e, b) l in
    let (lo1, hi1, same1) = read_sign-IsEnd m q z (e, hi) in
    let s = read_sign m q in
    let (r, digits, lo2, hi2, more) = read_digits-IsEnd fuel 0 m s.1 z (e, hi1) (omega arith) in
    (
      _,
      strtol-step m p 10 fuel q spaces
          ∙ read_number-step m 10 q s.1 r.0 r.1 fuel s.0 (omega arith) refl digits,
      omega arith,
      hi2,
      λ i d f small.
          let start : q ≡ p = same i in
          let first : digit_of (m q) ≡ some d =
            subst (λ x. digit_of (m x) ≡ some d) (sym start) f in
          let unsigned : s.1 ≡ q = same1 d first in
          omega (arith, more d (subst (λ x. digit_of (m x) ≡ some d) (sym unsigned) first) small),
    )
