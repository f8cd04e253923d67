-- ===== src/Sched/Scan.antt =====
-- The first loop of schedule in arch/riscv/kernel/proc.c finds the first task of the largest counter.
use tiny_riscv_os.Prelude.{
  ℕ, zero, suc, ◌+◌, ◌≤◌, ◌<◌, ◌≡◌, ◌∙◌, inl, inr, refl, List, [], ◌∷◌, arith, leb, Bool-cases,
  dec_lt,
}
use tiny_riscv_os.Sched.{Task, counter_at, scan}

abbrev pub length : List Task → ℕ
length [] = 0
length (t ∷ ts) = suc (length ts)

-- No counter is above the bound.
abbrev pub IsBound : List Task → ℕ → Type 0
IsBound ts best = (j : ℕ) → counter_at ts j ≤ best

-- The task at m is the first of those with the largest counter.
pub record IsFirstLargest (ts : List Task) (m : ℕ) : Type 0 where
  pub inside : m < length ts
  pub largest : (j : ℕ) → counter_at ts j ≤ counter_at ts m
  pub first : (j : ℕ) → j < m → counter_at ts j < counter_at ts m

pub scan-next : (ts : List Task) (i next best : ℕ) → IsBound ts best → scan ts i next best ≡ next
unfolding scan
scan-next [] i next best h = refl
scan-next (t ∷ ts) i next best h =
    ground (arith, h 0, scan-next ts (i + 1) next best (λ j. h (suc j)))

pub scan-largest :
    (ts : List Task) (i next best m : ℕ)
    → best < counter_at ts m
    → IsFirstLargest ts m
    → scan ts i next best ≡ i + m
unfolding scan
scan-largest [] i next best m h f = absurd (omega arith)
scan-largest (t ∷ ts) i next best zero h f =
    ground (arith, scan-next ts (i + 1) i t.counter (λ j. f.largest (suc j)))
scan-largest (t ∷ ts) i next best (suc m) h f =
    let rest : IsFirstLargest ts m = record {
      inside = omega (arith, f.inside);
      largest = λ j. f.largest (suc j);
      first = λ j lt. f.first (suc j) (omega arith);
    } in
    elim (Bool-cases (leb t.counter best)) [
      | inl e ↦ rw e (scan-largest ts (i + 1) next best m h rest ∙ omega arith)
      | inr e ↦
          rw e (scan-largest ts (i + 1) i t.counter m (f.first 0 (omega arith)) rest ∙ omega arith)
    ]

-- A list that is not empty has a first task of the largest counter.
pub first_largest : (t : Task) (ts : List Task) → (m : ℕ) × IsFirstLargest (t ∷ ts) m
first_largest t [] = (
  0,
  record {
    inside = omega arith;
    largest = elim [ zero ↦ omega arith | suc j ↦ omega arith ];
    first = λ j lt. absurd (omega arith);
  },
)
first_largest t (u ∷ ts) =
    let (m, f) = first_largest u ts in
    elim (dec_lt t.counter (counter_at (u ∷ ts) m)) [
      | yes lt ↦ (
        suc m,
        record {
          inside = omega (arith, f.inside);
          largest = elim [ zero ↦ omega arith | suc j ↦ f.largest j ];
          first = elim [ zero ↦ λ q. lt | suc j ↦ λ q. f.first j (omega arith) ];
        },
      )
      | no ge ↦ (
        0,
        record {
          inside = omega arith;
          largest = elim [ zero ↦ omega arith | suc j ↦ omega (arith, f.largest j) ];
          first = λ j q. absurd (omega arith);
        },
      )
    ]
