-- ===== src/Buddy/Power.antt =====
-- The test for powers of two of arch/riscv/kernel/mm.c.
use tiny_riscv_os.Prelude.{
  ℕ, zero, suc, ◌-◌, ◌*◌, ◌/◌, ◌%◌, ◌^◌, ◌≤◌, ◌<◌, ◌≡◌, ap, ◌∙◌, ℕ_discrete, bit_and, ◌==◌, arith,
  pow-step, pow_pos,
}
use tiny_riscv_os.Prelude.Bits.{bit_and-step, bit_and_self, bit_and-zero}
use tiny_riscv_os.Buddy.{is_power_of_2}

-- The lowest digits of x and x - 1 are not both 1.
below_step : (x : ℕ) → 1 ≤ x → bit_and x (x - 1) ≡ bit_and (x / 2) ((x - 1) / 2) * 2
below_step x l = omega (arith, bit_and-step x (x - 1))

even_step : (x : ℕ) → 2 ≤ x → x % 2 ≡ 0 → bit_and x (x - 1) ≡ bit_and (x / 2) (x / 2 - 1) * 2
even_step x l e =
    let half : (x - 1) / 2 ≡ x / 2 - 1 = omega arith in
    below_step x (omega arith) ∙ ap (λ y. bit_and (x / 2) y * 2) half

odd_step : (x : ℕ) → 2 ≤ x → x % 2 ≡ 1 → bit_and x (x - 1) ≡ x / 2 * 2
odd_step x l o =
    let half : (x - 1) / 2 ≡ x / 2 = omega arith in
    below_step x (omega arith)
    ∙ ap (λ y. bit_and (x / 2) y * 2) half
    ∙ ap (λ y. y * 2) (bit_and_self (x / 2))

pub bit_and-pow : (d x : ℕ) → x ≡ 2 ^ d → bit_and x (x - 1) ≡ 0
bit_and-pow zero x e = rw e (bit_and-zero 1)
bit_and-pow (suc d) x e = omega (
  arith,
  pow-step d,
  pow_pos d,
  even_step x (omega (arith, pow-step d, pow_pos d)) (omega (arith, pow-step d)),
  bit_and-pow d (x / 2) (omega (arith, pow-step d)),
)

pub bit_and-between : (d x : ℕ) → 2 ^ d < x → x < 2 ^ suc d → 1 ≤ bit_and x (x - 1)
bit_and-between zero x l u = absurd (omega arith)
bit_and-between (suc d) x l u =
    let big = pow-step d in
    let bigger = pow-step (suc d) in
    let pos = pow_pos d in
    elim (ℕ_discrete (x % 2) 1) [
      | yes odd ↦ omega (arith, odd_step x (omega arith) odd)
      | no even ↦ omega (
        arith,
        even_step x (omega arith) (omega arith),
        bit_and-between d (x / 2) (omega arith) (omega arith),
      )
    ]

-- Between two powers of two, the lower one is the only one.
pub is_power_of_2_lem : (d x : ℕ) → 2 ^ d ≤ x → x < 2 ^ suc d → is_power_of_2 x ≡ (x == 2 ^ d)
unfolding is_power_of_2
is_power_of_2_lem d x l u = elim (ℕ_discrete x (2 ^ d)) [
  | yes e ↦ ground (arith, bit_and-pow d x e)
  | no ne ↦ ground (arith, bit_and-between d x (omega arith) u)
]
