-- ===== src/Buddy/Round.antt =====
-- The rounding at the head of buddy_alloc (arch/riscv/kernel/mm.c) against a plain search for a
-- power of two.
use tiny_riscv_os.Prelude.{
  ℕ, zero, suc, ◌+◌, ◌-◌, ◌*◌, ◌/◌, ◌^◌, ◌≤◌, ◌<◌, ◌≡◌, refl, ap, sym, subst, ◌∙◌, leb,
  if◌then◌else◌, bit_or, dec_le, ℕ_discrete, arith, pow-step, pow_pos, pow_mono, pow_strict,
  pow-add,
}
use tiny_riscv_os.Prelude.Bits.{bit_or-ge, bit_or-lt, bit_or-high, bit_or-zero}
use tiny_riscv_os.Buddy.{smear, fixsize, round_pages}
use tiny_riscv_os.Buddy.Power.{is_power_of_2_lem}
use native.Mathlib.Nat.{le-div_iff_mul-le, div-lt_iff_lt-mul, div-eq_of_lt}

-- The first of p, 2p, 4p, ... that is at least n; d doublings are allowed.
unfoldable pub doubled_to : ℕ → ℕ → ℕ → ℕ
doubled_to zero p n = p
doubled_to (suc d) p n = if leb n p then p else doubled_to d (2 * p) n

-- n needs k bits and no fewer: 2^k is the least power of two that is not below n.
IsLeast : ℕ → ℕ → Type 0
IsLeast k n = (n ≤ 2 ^ k) × (2 ^ k < 2 * n)

doubled_to_lem : (d i k n : ℕ) → i ≤ k → k ≤ i + d → IsLeast k n → doubled_to d (2 ^ i) n ≡ 2 ^ k
unfolding doubled_to IsLeast
doubled_to_lem zero i k n u v (a, b) = let e : k ≡ i = omega arith in rw e refl
doubled_to_lem (suc d) i k n u v (a, b) = elim (dec_le n (2 ^ i)) [
  | yes h ↦ elim (ℕ_discrete k i) [
    | yes e ↦ ground (arith, ap (λ (t : ℕ). 2 ^ t) e)
    | no ne ↦ absurd (omega (arith, pow_strict i k (omega arith)))
  ]
  | no h ↦ elim (ℕ_discrete k i) [
    | yes e ↦ absurd (omega (arith, ap (λ (t : ℕ). 2 ^ t) e))
    | no ne ↦
        let rest : doubled_to d (2 * 2 ^ i) n ≡ 2 ^ k =
          subst (λ (t : ℕ). doubled_to d t n ≡ 2 ^ k) (pow-step i)
            (doubled_to_lem d (suc i) k n (omega arith) (omega arith) (a, b)) in
        ground (arith, rest)
  ]
]

-- A request has such a k.
exponent_of : (d n : ℕ) → 1 ≤ n → n ≤ 2 ^ d → (k : ℕ) × (k ≤ d) × IsLeast k n
unfolding IsLeast
exponent_of zero n l u = (0, omega arith, (omega arith, omega arith))
exponent_of (suc d) n l u = elim (dec_le n (2 ^ d)) [
  | yes h ↦ let (k, b, least) = exponent_of d n l h in (k, omega arith, least)
  | no h ↦ (suc d, omega arith, (u, omega (arith, pow-step d)))
]

-- Of the k bits of a, the m highest are 1.
IsTop : ℕ → ℕ → ℕ → Type 0
IsTop k m a = (a < 2 ^ k) × (2 ^ k ≤ a + 2 ^ (k - m))

-- What a shift by m leaves of 2^j.
shift_room : (m j : ℕ) → 2 ^ j ≤ 2 ^ (j - m) * 2 ^ m
shift_room m j = elim (dec_le m j) [
  | yes h ↦
      let e : j - m + m ≡ j = omega arith in
      omega (arith, pow-add (j - m) m, ap (λ (t : ℕ). 2 ^ t) e)
  | no h ↦
      let e : j - m ≡ 0 = omega arith in
      omega (arith, ap (λ (t : ℕ). 2 ^ t * 2 ^ m) e, pow_mono j m (omega arith))
]

-- What the shift by m leaves of a number whose m highest bits are 1.
shifted_down :
    (m j a : ℕ)
    → a < 2 ^ (m + j)
    → 2 ^ (m + j) ≤ a + 2 ^ j
    → (a / 2 ^ m < 2 ^ j) × (2 ^ j ≤ a / 2 ^ m + 2 ^ (j - m))
shifted_down m j a u l =
    let c = 2 ^ j - 2 ^ (j - m) in
    let whole : c + 2 ^ (j - m) ≡ 2 ^ j = omega (arith, pow_mono (j - m) j (omega arith)) in
    let below : c * 2 ^ m ≤ a =
      omega (arith, ap (λ (t : ℕ). t * 2 ^ m) whole, shift_room m j, pow-add m j) in
    (
      (div-lt_iff_lt-mul (pow_pos m)).1 (omega (arith, pow-add m j)),
      omega (arith, (le-div_iff_mul-le (pow_pos m)).1 below),
    )

smear-IsTop : (k m a : ℕ) → IsTop k m a → IsTop k (m + m) (smear m a)
unfolding IsTop
smear-IsTop k m a (u, l) = elim (dec_le m k) [
  | yes h ↦
      let j = k - m in
      let split : 2 ^ k ≡ 2 ^ (m + j) = ap (λ (t : ℕ). 2 ^ t) (omega arith) in
      let (small, large) = shifted_down m j a (omega (arith, split)) (omega (arith, split)) in
      let ones = 2 ^ m - 1 in
      let whole : ones * 2 ^ j + 2 ^ j ≡ 2 ^ k =
        let e : ones + 1 ≡ 2 ^ m = omega (arith, pow_pos m) in
        omega (arith, ap (λ (t : ℕ). t * 2 ^ j) e, pow-add m j, split) in
      let low = a + 2 ^ j - 2 ^ k in
      let parts : ones * 2 ^ j + low ≡ a = omega (arith, whole) in
      let high : smear m a ≡ ones * 2 ^ j + bit_or low (a / 2 ^ m) =
        ap (λ (t : ℕ). bit_or t (a / 2 ^ m)) (sym parts)
        ∙ bit_or-high j ones low (a / 2 ^ m) (omega (arith, whole)) small in
      let rest : k - (m + m) ≡ j - m = omega arith in
      (
        bit_or-lt k a (a / 2 ^ m) u (omega (arith, pow_mono j k (omega arith))),
        omega (
          arith,
          high,
          bit_or-ge j low (a / 2 ^ m) small,
          large,
          whole,
          ap (λ (t : ℕ). 2 ^ t) rest,
        ),
      )
  | no h ↦
      let gone : a / 2 ^ m ≡ 0 = div-eq_of_lt (omega (arith, pow_mono k m (omega arith))) in
      let kept : smear m a ≡ a = ap (bit_or a) gone ∙ bit_or-zero a in
      let last : k - m ≡ 0 = omega arith in
      (omega (arith, kept), omega (arith, kept, ap (λ (t : ℕ). 2 ^ t) last, pow_pos (k - (m + m))))
]

fixsize_lem : (k n : ℕ) → k ≤ 63 → 1 ≤ n → IsLeast k n → fixsize n ≡ 2 ^ k
unfolding fixsize IsLeast IsTop
fixsize_lem k n b l (u, least) =
    let half : 2 ^ k ≤ 2 * 2 ^ (k - 1) = elim (ℕ_discrete k 0) [
      | yes e ↦ omega (arith, ap (λ (t : ℕ). 2 ^ t) e, pow_pos (k - 1))
      | no ne ↦
          let e : suc (k - 1) ≡ k = omega arith in
          omega (arith, pow-step (k - 1), ap (λ (t : ℕ). 2 ^ t) e)
    ] in
    let t1 : IsTop k 1 (n - 1) = (omega arith, omega (arith, half)) in
    let t2 = smear-IsTop k 1 (n - 1) t1 in
    let t4 = smear-IsTop k 2 _ t2 in
    let t8 = smear-IsTop k 4 _ t4 in
    let t16 = smear-IsTop k 8 _ t8 in
    let t32 = smear-IsTop k 16 _ t16 in
    let (above, below) = smear-IsTop k 32 _ t32 in
    let all : k - 64 ≡ 0 = omega arith in
    omega (arith, above, below, ap (λ (t : ℕ). 2 ^ t) all, pow_mono k 63 b)

round_pages-pow : (k n : ℕ) → k ≤ 63 → 1 ≤ n → IsLeast k n → round_pages n ≡ 2 ^ k
unfolding round_pages IsLeast
round_pages-pow zero n b l (u, least) =
    let one : n ≡ 1 = omega arith in
    ground (arith, is_power_of_2_lem 0 n (omega arith) (omega arith), one)
round_pages-pow (suc k) n b l (u, least) =
    let p = pow-step k in
    let law = fixsize_lem (suc k) n b l (u, least) in
    elim (ℕ_discrete n (2 ^ suc k)) [
      | yes e ↦
          ground
            (arith, is_power_of_2_lem (suc k) n (omega arith) (omega (arith, pow-step (suc k))), e)
      | no ne ↦ ground (arith, is_power_of_2_lem k n (omega (arith, p)) (omega arith), law, p)
    ]

-- Up to 2^63 pages, round_pages, with the or of shifted words in fixsize, agrees with the search that
-- doubles 1 until it is large enough for the request.
pub round_pages-doubled_to : (n : ℕ) → n ≤ 2 ^ 63 → round_pages n ≡ doubled_to 63 1 n
unfolding round_pages doubled_to
round_pages-doubled_to n u = elim (ℕ_discrete n 0) [
  | yes e ↦ rw e refl
  | no ne ↦
      let (k, b, least) = exponent_of 63 n (omega arith) u in
      round_pages-pow k n b (omega arith) least
      ∙ sym (doubled_to_lem 63 0 k n (omega arith) b least)
]
