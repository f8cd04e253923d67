-- ===== src/Result.antt =====
-- How the calls of fs/fs.c, arch/riscv/kernel/syscall.c, arch/riscv/kernel/vm.c and
-- arch/riscv/kernel/proc.c end. Result/Yields holds what is shared by the proofs on them.
pub mod Yields
use tiny_riscv_os.Prelude.{Option, none, some}

-- How a call ends, apart from its value: the use of a null pointer, the endless loop of Err, or no
-- result (the console has no key, a format takes an argument that is not there, fuel).
pub data Result {ℓ} (A : Type ℓ) : Type ℓ where
  ok : A → Result A
  null_call halted stuck : Result A

infixl 5 ◌>>=◌
abbrev pub ◌>>=◌ {ℓ κ} : {A : Type ℓ} {B : Type κ} → Result A → (A → Result B) → Result B
ok a >>= f = f a
null_call >>= f = null_call
halted >>= f = halted
stuck >>= f = stuck

abbrev pub or_stuck {ℓ} : {A : Type ℓ} → Option A → Result A
or_stuck none = stuck
or_stuck (some a) = ok a

abbrev pub or_halted {ℓ} : {A : Type ℓ} → Option A → Result A
or_halted none = halted
or_halted (some a) = ok a
