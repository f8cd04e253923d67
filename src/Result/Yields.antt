-- ===== src/Result/Yields.antt =====
-- What holds of the value of a call (arch/riscv/kernel/syscall.c and others), if it has one.
use tiny_riscv_os.Prelude.{
  Option, none, some, Bool, true, false, if◌then◌else◌, ◌≡◌, refl, subst, ap,
}
use tiny_riscv_os.Result.{or_halted, Result, ok, null_call, halted, stuck, ◌>>=◌}

abbrev pub Yields {ℓ κ} : {A : Type ℓ} → (A → Type κ) → Result A → Type (ℓ ⊔ κ)
Yields {A = A} P q = (a : A) → q ≡ ok a → P a

abbrev value_or {ℓ} : {A : Type ℓ} → A → Result A → A
value_or a (ok b) = b
value_or a _ = a

pub ok-Yields {ℓ κ} : {A : Type ℓ} (P : A → Type κ) (a : A) → P a → Yields P (ok a)
ok-Yields P a p b e = subst P (ap (value_or a) e) p

pub null_call-Yields {ℓ κ} : {A : Type ℓ} (P : A → Type κ) → Yields P null_call
null_call-Yields P a e = absurd (cc)

pub halted-Yields {ℓ κ} : {A : Type ℓ} (P : A → Type κ) → Yields P halted
halted-Yields P a e = absurd (cc)

pub stuck-Yields {ℓ κ} : {A : Type ℓ} (P : A → Type κ) → Yields P stuck
stuck-Yields P a e = absurd (cc)

-- A property of every value of the rest is one of the whole.
pub bind-Yields {ℓ κ μ} :
    {A : Type ℓ} {B : Type κ} (P : B → Type μ) (f : A → Result B) (q : Result A)
    → ((a : A) → q ≡ ok a → Yields P (f a))
    → Yields P (q >>= f)
bind-Yields P f (ok a) k = k a refl
bind-Yields P f null_call k = null_call-Yields P
bind-Yields P f halted k = halted-Yields P
bind-Yields P f stuck k = stuck-Yields P

-- The test that a task has a table of files.
pub has_files-Yields {ℓ κ} :
    {A : Type ℓ} (P : A → Type κ) (has : Bool) {q : Result A}
    → Yields P q
    → Yields P (if has then q else halted)
has_files-Yields P true k = k
has_files-Yields P false k = halted-Yields P

pub or_halted-ok {ℓ} : {A : Type ℓ} (q : Option A) (a : A) → or_halted q ≡ ok a → q ≡ some a
or_halted-ok none a e = absurd (cc)
or_halted-ok (some b) a e = ap (λ r. some (value_or a r)) e
