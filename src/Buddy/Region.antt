-- ===== src/Buddy/Region.antt =====
-- The nodes below a node of the buddy tree (arch/riscv/kernel/mm.c), by their indices: d levels
-- down from i stand the indices from (i + 1) * 2^d - 1 on.
use tiny_riscv_os.Prelude.{
  ℕ, suc, ◌+◌, ◌*◌, ◌^◌, ◌≤◌, ◌<◌, ◌≡◌, ◌≢◌, arith, ap, dec_lt, pow-step, pow_pos, pow_strict,
}
use native.Mathlib.Nat.{mul-le-mul_left}
use tiny_riscv_os.Buddy.{left_leaf, right_leaf}

pub record Under (i j : ℕ) : Type 0 where
  pub depth : ℕ
  pub from : (i + 1) * 2 ^ depth ≤ j + 1
  pub to : j + 1 < (i + 2) * 2 ^ depth

-- One level further down there are twice as many nodes.
double : (i d : ℕ) → (2 ^ suc d ≡ 2 * 2 ^ d) × (i * 2 ^ suc d ≡ 2 * (i * 2 ^ d))
double i d = (pow-step d, rw (pow-step d) (omega arith))

pub Under-refl : (i : ℕ) → Under i i
Under-refl i = record { depth = 0; from = omega arith; to = omega arith }

pub Under-left : (i : ℕ) {j : ℕ} → Under (left_leaf i) j → Under i j
Under-left i u = record {
  depth = suc u.depth;
  from = omega (arith, double i u.depth);
  to = omega (arith, double i u.depth);
}

pub Under-right : (i : ℕ) {j : ℕ} → Under (right_leaf i) j → Under i j
Under-right i u = record {
  depth = suc u.depth;
  from = omega (arith, double i u.depth);
  to = omega (arith, double i u.depth);
}

scale_le : (i a b : ℕ) → 2 * a ≤ b → 2 * (i * a) ≤ i * b
scale_le i a b h = omega (arith, mul-le-mul_left i h)

-- Below a left child there is nothing of its sibling.
pub left-not-right : (i : ℕ) {j : ℕ} → Under (left_leaf i) j → ¬ Under (right_leaf i) j
left-not-right i u v = elim (dec_lt u.depth v.depth) [
  | yes h ↦ omega (
    arith,
    pow_strict u.depth v.depth h,
    scale_le i (2 ^ u.depth) (2 ^ v.depth) (pow_strict u.depth v.depth h),
  )
  | no h ↦ elim (dec_lt v.depth u.depth) [
    | yes h' ↦ omega (
      arith,
      pow_strict v.depth u.depth h',
      scale_le i (2 ^ v.depth) (2 ^ u.depth) (pow_strict v.depth u.depth h'),
    )
    | no h' ↦
        let same : u.depth ≡ v.depth = omega arith in
        let power : 2 ^ u.depth ≡ 2 ^ v.depth = rw same in
        omega (arith, power, ap (λ (t : ℕ). i * t) power)
  ]
]

below_pos : (i d : ℕ) → i + 1 ≤ (i + 1) * 2 ^ d
below_pos i d = grind (arith, pow_pos d)

pub left-ne : (i : ℕ) {j : ℕ} → Under (left_leaf i) j → i ≢ j
left-ne i u e = omega (arith, below_pos (left_leaf i) u.depth)

pub right-ne : (i : ℕ) {j : ℕ} → Under (right_leaf i) j → i ≢ j
right-ne i u e = omega (arith, below_pos (right_leaf i) u.depth)
