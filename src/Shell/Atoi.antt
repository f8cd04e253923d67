-- ===== src/Shell/Atoi.antt =====
-- user/main.c: atoi, against strtol of user/printf.c.
use tiny_riscv_os.Prelude.{
  ℕ, zero, suc, ◌+◌, ◌-◌, ◌%◌, ◌^◌, ◌≤◌, ◌<◌, ◌≡◌, ap, ◌∙◌, ◌≢◌, ◌⊎◌, inl, inr, false, some, none,
  arith,
}
use tiny_riscv_os.Result.{ok}
use tiny_riscv_os.Bytes.{Bytes}
use tiny_riscv_os.Printk.{isspace, read_sign, digit_of}
use tiny_riscv_os.Printk.Number.{numeral, strtol_lem}
use tiny_riscv_os.Printf.{strtol}
use tiny_riscv_os.Shell.{atoi}
use tiny_riscv_os.Shell.Words.{atoi-numeral}

-- The digits of a decimal text.
abbrev pub digits_at : Bytes → ℕ → ℕ → ℕ
digits_at m str j = m (str + j) - b'0'

digit_known : (c : ℕ) → b'0' ≤ c → c ≤ b'9' → digit_of c ≡ some (c - b'0')
unfolding digit_of
digit_known c l u = ground arith

end_stops : (c : ℕ) → c ≡ 0 → digit_of c ≡ none
unfolding digit_of
end_stops c e = ground (arith, e)

-- Neither space nor sign stands at the start of digits, or of no digits at all.
IsPlain : ℕ → Type 0
IsPlain c = (isspace c ≡ false) × (c ≢ 45) × (c ≢ 43)

plain : (c : ℕ) → (c ≡ 0) ⊎ ((b'0' ≤ c) × (c ≤ b'9')) → IsPlain c
unfolding IsPlain isspace
plain c (inl e) = (ground (arith, e), (λ q. omega (arith, e, q)), λ q. omega (arith, e, q))
plain c (inr (l, u)) = (ground arith, (λ q. omega arith), λ q. omega arith)

-- On a string of k decimal digits whose number is below 2^31, atoi and strtol with base 10 both end and
-- agree, and strtol stops at the end of the string.
pub atoi-strtol :
    (fuel : ℕ) (m : Bytes) (str k : ℕ)
    → ((j : ℕ) → j < k → (b'0' ≤ m (str + j)) × (m (str + j) ≤ b'9'))
    → m (str + k) ≡ 0
    → k < fuel
    → numeral 10 (digits_at m str) k < 2 ^ 31
    → (n : ℕ) × (atoi fuel m str ≡ ok n) × (strtol m str 10 fuel ≡ some (n, str + k))
unfolding IsPlain read_sign
atoi-strtol fuel m str k digits end l small =
    let v = digits_at m str in
    let n = numeral 10 v k in
    let start : str + 0 ≡ str = omega arith in
    let (space, minus, plus) = plain (m (str + 0)) (first k digits end) in
    let sign : read_sign m (str + 0) ≡ (false, str) = ground (arith, start, minus, plus) in
    let read =
      strtol_lem m str 10 fuel 0 str k false v (omega arith) (λ j h. absurd (omega arith)) space
        sign (λ j h. digit_known (m (str + j)) (digits j h).0 (digits j h).1)
        (λ j h. omega (arith, (digits j h).1)) (inl (end_stops (m (str + k)) end)) (omega arith)
        l in
    let fits : n % 2 ^ 64 ≡ n = omega arith in
    let fits' : n % 2 ^ 32 ≡ n = omega arith in
    (
      n,
      atoi-numeral fuel m str k v (λ j h. omega (arith, (digits j h).0)) end l
          ∙ ap (λ (x : ℕ). ok x) fits',
      read ∙ ap (λ (x : ℕ). some (x, str + k)) fits,
    )
  where
    first :
        (k : ℕ)
        → ((j : ℕ) → j < k → (b'0' ≤ m (str + j)) × (m (str + j) ≤ b'9'))
        → m (str + k) ≡ 0
        → (m (str + 0) ≡ 0) ⊎ ((b'0' ≤ m (str + 0)) × (m (str + 0) ≤ b'9'))
    first zero digits end = inl end
    first (suc k) digits end = inr (digits 0 (omega arith))
