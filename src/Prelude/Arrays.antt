-- ===== src/Prelude/Arrays.antt =====
-- A C array, or a stretch of memory, as a function from the index to what stands there.
use Prim.Native.Nat.{ℕ}
use mathlib.Core.Path.{◌≡◌}
use mathlib.Core.Logic.{◌≢◌}
use native.Mathlib.Omega.{arith}
use tiny_riscv_os.Prelude.Tests.{◌==◌, if◌then◌else◌}

-- The array after `f[i] = v`.
abbrev pub update {ℓ} : {A : Type ℓ} → (ℕ → A) → ℕ → A → ℕ → A
update f i v j = if i == j then v else f j

module _ {ℓ} {A : Type ℓ} (f : ℕ → A) (i : ℕ) (v : A) where
  pub update_self : update f i v i ≡ v
  update_self = ground arith

  pub update_ne : (j : ℕ) → i ≢ j → update f i v j ≡ f j
  update_ne j h = ground arith
