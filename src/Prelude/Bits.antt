-- ===== src/Prelude/Bits.antt =====
-- `&` and `|` at variables: the law of the lowest digit, masks, and the union of disjoint fields.
use Prim.Native.Nat.{
  ℕ, zero, suc, ◌+◌, ◌-◌, ◌*◌, ◌/◌, ◌%◌, ◌^◌, ◌≤◌, ◌<◌, min, max, bit_and, bit_or, digits,
  bit_and-bitwise, bit_or-bitwise,
}
use mathlib.Core.Path.{◌≡◌, refl, ap, ◌∙◌}
use native.Mathlib.Omega.{arith}
use tiny_riscv_os.Prelude.Powers.{pow-step, pow_pos}

-- The operation on two digits, `f`, and what stands for the digits past the first number, `z`.
module _ (z : ℕ → ℕ) (f : ℕ → ℕ → ℕ) where
  -- How many digits are counted does not matter, if there are enough of them.
  enough_digits : (c d : ℕ) (x y : ℕ) → x ≤ c → x ≤ d → digits z f c x y ≡ digits z f d x y
  enough_digits zero zero x y u v = refl
  enough_digits c d zero y u v = trivial c d
    where
      trivial : (c d : ℕ) → digits z f c 0 y ≡ digits z f d 0 y
      trivial zero zero = refl
      trivial zero (suc d) = refl
      trivial (suc c) zero = refl
      trivial (suc c) (suc d) = refl
  enough_digits (suc c) (suc d) (suc x) y u v =
      let rest = enough_digits c d (suc x / 2) (y / 2) (omega arith) (omega arith) in
      ap (λ n. n * 2 + f (suc x % 2) (y % 2)) rest
  enough_digits c d (suc x) y u v = absurd (omega arith)

  -- The lowest digit of the result comes from the lowest digits.
  lowest_digit :
      (x y : ℕ)
      → z y ≡ z (y / 2) * 2 + f 0 (y % 2)
      → digits z f x x y ≡ digits z f (x / 2) (x / 2) (y / 2) * 2 + f (x % 2) (y % 2)
  lowest_digit zero y past = past
  lowest_digit (suc x) y past =
      let same = enough_digits x (suc x / 2) (suc x / 2) (y / 2) (omega arith) (omega arith) in
      ap (λ n. n * 2 + f (suc x % 2) (y % 2)) same

pub bit_and-step : (x y : ℕ) → bit_and x y ≡ bit_and (x / 2) (y / 2) * 2 + min (x % 2) (y % 2)
bit_and-step x y =
    let whole = bit_and-bitwise x y in
    let half = bit_and-bitwise (x / 2) (y / 2) in
    omega (arith, whole, half, lowest_digit (λ n. 0) min x y (omega arith))

pub bit_or-step : (x y : ℕ) → bit_or x y ≡ bit_or (x / 2) (y / 2) * 2 + max (x % 2) (y % 2)
bit_or-step x y =
    let whole = bit_or-bitwise x y in
    let half = bit_or-bitwise (x / 2) (y / 2) in
    omega (arith, whole, half, lowest_digit (λ n. n) max x y (omega arith))

-- A number is reached from 0 by doubling and by doubling and adding 1.
halving {ℓ} : (P : ℕ → Type ℓ) → P 0 → ((n : ℕ) → P (n / 2) → P n) → (n : ℕ) → P n
halving P base step n = go n n (omega arith)
  where
    go : (c m : ℕ) → m ≤ c → P m
    go c zero u = base
    go zero (suc m) u = absurd (omega arith)
    go (suc c) (suc m) u = step (suc m) (go c (suc m / 2) (omega arith))

pub bit_and-zero : (x : ℕ) → bit_and x 0 ≡ 0
bit_and-zero =
    halving (λ n. bit_and n 0 ≡ 0) (bit_and-bitwise 0 0) λ n ih. omega (arith, bit_and-step n 0, ih)

pub bit_or-zero : (x : ℕ) → bit_or x 0 ≡ x
bit_or-zero =
    halving (λ n. bit_or n 0 ≡ n) (bit_or-bitwise 0 0) λ n ih. omega (arith, bit_or-step n 0, ih)

pub bit_and_self : (x : ℕ) → bit_and x x ≡ x
bit_and_self =
    halving (λ n. bit_and n n ≡ n) (bit_and-bitwise 0 0) λ n ih. omega (arith, bit_and-step n n, ih)

mod-double : (a m : ℕ) → 1 ≤ m → a % (2 * m) ≡ (a / 2) % m * 2 + a % 2
mod-double a m h = grind arith

-- `a & (2^k - 1)` keeps the k low bits.
pub bit_and_mask : (k a : ℕ) → bit_and a (2 ^ k - 1) ≡ a % 2 ^ k
bit_and_mask zero a = omega (arith, bit_and-zero a)
bit_and_mask (suc k) a =
    let half : (2 ^ suc k - 1) / 2 ≡ 2 ^ k - 1 = omega (arith, pow-step k, pow_pos k) in
    let rest : bit_and (a / 2) ((2 ^ suc k - 1) / 2) ≡ (a / 2) % 2 ^ k =
      rw half (bit_and_mask k (a / 2)) in
    let whole : a % 2 ^ suc k ≡ (a / 2) % 2 ^ k * 2 + a % 2 =
      rw (pow-step k) (mod-double a (2 ^ k) (pow_pos k)) in
    omega (arith, bit_and-step a (2 ^ suc k - 1), rest, whole, pow-step k, pow_pos k)

-- A field above bit k and a field below it do not overlap, and `|` is their sum.
pub bit_or_disjoint : (k x y : ℕ) → y < 2 ^ k → bit_or (x * 2 ^ k) y ≡ x * 2 ^ k + y
bit_or_disjoint zero x y h =
    let none_below : y ≡ 0 = omega arith in rw none_below (bit_or-zero (x * 1) ∙ omega arith)
bit_or_disjoint (suc k) x y h =
    let above : x * 2 ^ suc k ≡ x * 2 ^ k * 2 = omega (arith, ap (λ (t : ℕ). x * t) (pow-step k)) in
    let half : x * 2 ^ suc k / 2 ≡ x * 2 ^ k = rw above (omega arith) in
    let rest : bit_or (x * 2 ^ suc k / 2) (y / 2) ≡ x * 2 ^ k + y / 2 =
      rw half (bit_or_disjoint k x (y / 2) (omega (arith, pow-step k))) in
    omega (arith, bit_or-step (x * 2 ^ suc k) y, rest, above)

pub bit_or-ge : (k x y : ℕ) → y < 2 ^ k → y ≤ bit_or x y
bit_or-ge zero x y h = omega arith
bit_or-ge (suc k) x y h =
    omega
      (arith, bit_or-step x y, pow-step k, bit_or-ge k (x / 2) (y / 2) (omega (arith, pow-step k)))

pub bit_or-lt : (k x y : ℕ) → x < 2 ^ k → y < 2 ^ k → bit_or x y < 2 ^ k
bit_or-lt zero x y u v =
    let x0 : x ≡ 0 = omega arith in
    let y0 : y ≡ 0 = omega arith in rw (x0, y0) (omega (arith, bit_or-zero 0))
bit_or-lt (suc k) x y u v =
    let p = pow-step k in
    omega
      (arith, bit_or-step x y, p, bit_or-lt k (x / 2) (y / 2) (omega (arith, p)) (omega (arith, p)))

-- Digits above bit k on one side only stay as they are.
pub bit_or-high :
    (k x r y : ℕ) → r < 2 ^ k → y < 2 ^ k → bit_or (x * 2 ^ k + r) y ≡ x * 2 ^ k + bit_or r y
bit_or-high zero x r y u v =
    let r0 : r ≡ 0 = omega arith in
    let y0 : y ≡ 0 = omega arith in
    rw (r0, y0) (omega (arith, bit_or-zero 0, bit_or-zero (x * 1 + 0)))
bit_or-high (suc k) x r y u v =
    let p = pow-step k in
    let above : x * 2 ^ suc k ≡ x * 2 ^ k * 2 = omega (arith, ap (λ (t : ℕ). x * t) p) in
    let half : (x * 2 ^ suc k + r) / 2 ≡ x * 2 ^ k + r / 2 = omega (arith, above) in
    let rest : bit_or ((x * 2 ^ suc k + r) / 2) (y / 2) ≡ x * 2 ^ k + bit_or (r / 2) (y / 2) =
      rw half (bit_or-high k x (r / 2) (y / 2) (omega (arith, p)) (omega (arith, p))) in
    omega (arith, bit_or-step (x * 2 ^ suc k + r) y, bit_or-step r y, rest, above)
