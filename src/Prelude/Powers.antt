-- ===== src/Prelude/Powers.antt =====
-- Powers of two.
use Prim.Native.Nat.{ℕ, zero, suc, ◌+◌, ◌*◌, ◌^◌, ◌≤◌, ◌<◌}
use mathlib.Core.Path.{◌≡◌, ap}
use native.Mathlib.Omega.{arith}
use native.Mathlib.Nat.{pow-suc}

pub pow-step : (k : ℕ) → 2 ^ suc k ≡ 2 * 2 ^ k
pow-step k = omega (arith, pow-suc 2 k)

pub pow_pos : (k : ℕ) → 1 ≤ 2 ^ k
pow_pos zero = omega arith
pow_pos (suc k) = omega (arith, pow-step k, pow_pos k)

pub lt-pow : (k : ℕ) → k < 2 ^ k
lt-pow zero = omega arith
lt-pow (suc k) = omega (arith, pow-step k, lt-pow k)

pub pow_mono : (a b : ℕ) → a ≤ b → 2 ^ a ≤ 2 ^ b
pow_mono zero b h = omega (arith, pow_pos b)
pow_mono (suc a) zero h = absurd (omega arith)
pow_mono (suc a) (suc b) h = omega (arith, pow-step a, pow-step b, pow_mono a b (omega arith))

pub pow_strict : (a b : ℕ) → a < b → 2 * 2 ^ a ≤ 2 ^ b
pow_strict a b h = omega (arith, pow-step a, pow_mono (suc a) b h)

pub pow-add : (a b : ℕ) → 2 ^ (a + b) ≡ 2 ^ a * 2 ^ b
pow-add zero b = let e : zero + b ≡ b = omega arith in rw e (omega arith)
pow-add (suc a) b =
    let e : suc a + b ≡ suc (a + b) = omega arith in
    rw e (omega (arith, pow-step (a + b), pow-add a b, ap (λ (t : ℕ). t * 2 ^ b) (pow-step a)))
