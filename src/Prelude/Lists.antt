-- ===== src/Prelude/Lists.antt =====
-- Lists counted by the native numbers.
use Prim.Native.Nat.{ℕ, zero, suc, ◌+◌}
use mathlib.Core.Path.{◌≡◌}
use mathlib.Core.List.{List, [], ◌∷◌, ◌++◌}
use native.Mathlib.Omega.{arith}

module _ {ℓ} {A : Type ℓ} where
  abbrev pub length : List A → ℕ
  length [] = 0
  length (x ∷ xs) = suc (length xs)

  abbrev pub replicate : ℕ → A → List A
  replicate zero x = []
  replicate (suc n) x = x ∷ replicate n x

  pub length-append : (xs ys : List A) → length (xs ++ ys) ≡ length xs + length ys
  length-append [] ys = omega arith
  length-append (x ∷ xs) ys = omega (arith, length-append xs ys)

  pub length-replicate : (n : ℕ) (x : A) → length (replicate n x) ≡ n
  length-replicate zero x = omega arith
  length-replicate (suc n) x = omega (arith, length-replicate n x)
