-- ===== src/Sched/Round.antt =====
-- The timer of arch/riscv/kernel/proc.c over a whole round: every task gets the ticks that its
-- counter promises.
use tiny_riscv_os.Prelude.{
  ℕ, zero, suc, ◌+◌, ◌-◌, ◌≤◌, ◌<◌, ◌≡◌, inl, inr, refl, true, false, List, [], ◌∷◌, none, some,
  arith, ◌==◌, if◌then◌else◌, Bool-cases, dec_lt, subst,
}
use tiny_riscv_os.Sched.{Task, Sched, counter_at, refill, spend, switch_to, schedule, do_timer}
use tiny_riscv_os.Sched.Scan.{IsBound}

-- The ticks that are left in the round.
abbrev pub total : List Task → ℕ
total [] = 0
total (t ∷ ts) = t.counter + total ts

-- The index in `others` of the task that pays for each of the next n ticks.
unfoldable pub payers : ℕ → Sched → List ℕ
payers zero s = []
payers (suc n) s = (s.current - 1) ∷ elim (do_timer s) [ none ↦ [] | some s' ↦ payers n s' ]

abbrev pub count : ℕ → List ℕ → ℕ
count i [] = 0
count i (j ∷ js) = (if i == j then 1 else 0) + count i js

-- A task other than idle runs, and has ticks left.
pub record IsRunning (s : Sched) : Type 0 where
  pub idle_counter : s.idle.counter ≡ 0
  pub other : 1 ≤ s.current
  pub left : 0 < counter_at s.others (s.current - 1)

spend-total : (ts : List Task) (i : ℕ) → 0 < counter_at ts i → total (spend ts i) + 1 ≡ total ts
spend-total [] i h = absurd (omega arith)
spend-total (t ∷ ts) zero h = omega arith
spend-total (t ∷ ts) (suc i) h = omega (arith, spend-total ts i h)

pub spend-counter_at :
    (ts : List Task) (i j : ℕ)
    → 0 < counter_at ts i
    → counter_at (spend ts i) j + (if j == i then 1 else 0) ≡ counter_at ts j
spend-counter_at [] i j h = absurd (omega arith)
spend-counter_at (t ∷ ts) zero zero h = ground arith
spend-counter_at (t ∷ ts) zero (suc j) h = ground arith
spend-counter_at (t ∷ ts) (suc i) zero h = ground arith
spend-counter_at (t ∷ ts) (suc i) (suc j) h = ground (arith, spend-counter_at ts i j h)

pub refill-spend : (ts : List Task) (i : ℕ) → refill (spend ts i) ≡ refill ts
refill-spend [] i = refl
refill-spend (t ∷ ts) zero = refl
refill-spend (t ∷ ts) (suc i) = rw (refill-spend ts i)

pub total-zero : (ts : List Task) → total ts ≡ 0 → IsBound ts 0
total-zero [] e j = omega arith
total-zero (t ∷ ts) e zero = omega arith
total-zero (t ∷ ts) e (suc j) = total-zero ts (omega arith) j

pub some_left : (ts : List Task) → 0 < total ts → (j : ℕ) × (0 < counter_at ts j)
some_left [] h = absurd (omega arith)
some_left (t ∷ ts) h = elim (dec_lt 0 t.counter) [
  | yes here ↦ (0, here)
  | no past ↦ let (j, g) = some_left ts (omega arith) in (suc j, g)
]

-- `s'` is the state after one tick: the running task has paid, and if that was the last tick of the
-- round, all counters are set again.
pub record Ticked (s s' : Sched) : Type 0 where
  pub runs : do_timer s ≡ some s'
  pub running : IsRunning s'
  pub counters :
      s'.others ≡ (if total s.others == 1 then refill s.others else spend s.others (s.current - 1))

IsRunning-at :
    (s : Sched) (m : ℕ)
    → s.idle.counter ≡ 0
    → s.current ≡ m + 1
    → 0 < counter_at s.others m
    → IsRunning s
IsRunning-at s m e c h =
    let index : m ≡ s.current - 1 = omega arith in
    record {
      idle_counter = e;
      other = omega arith;
      left = subst (λ n. 0 < counter_at s.others n) index h;
    }

pub switch-IsRunning :
    (s : Sched) (m : ℕ)
    → s.idle.counter ≡ 0
    → 0 < counter_at s.others m
    → IsRunning (switch_to s (m + 1)) × ((switch_to s (m + 1)).others ≡ s.others)
switch-IsRunning s m e h = elim (Bool-cases (m + 1 == s.current)) [
  | inl here ↦
      let same : switch_to s (m + 1) ≡ s = unfold switch_to in rw here in
      rw same (IsRunning-at s m e (ground arith) h, refl)
  | inr away ↦ (
    IsRunning-at (switch_to s (m + 1)) m (unfold switch_to in rw away e)
        (unfold switch_to in rw away) (unfold switch_to in rw away h),
    unfold switch_to in rw away,
  )
]

-- The state in which do_timer calls schedule, or returns.
abbrev pub paid : Sched → Sched
paid s = record s { others = spend s.others (s.current - 1) }

module _ (s : Sched) (v : IsRunning s) where
  pub timer-go : 0 < counter_at (paid s).others (s.current - 1) → do_timer s ≡ some (paid s)
  unfolding do_timer
  timer-go h =
      let busy : (s.current == 0) ≡ false = ground (arith, v.other) in
      let left : (counter_at s.others (s.current - 1) == 0) ≡ false = ground (arith, v.left) in
      let more : (counter_at (paid s).others (s.current - 1) == 0) ≡ false = ground arith in
      rw (busy, left, more)

  pub timer-schedule :
      counter_at (paid s).others (s.current - 1) ≡ 0 → do_timer s ≡ schedule (paid s)
  unfolding do_timer
  timer-schedule h =
      let busy : (s.current == 0) ≡ false = ground (arith, v.other) in
      let left : (counter_at s.others (s.current - 1) == 0) ≡ false = ground (arith, v.left) in
      let spent : (counter_at (paid s).others (s.current - 1) == 0) ≡ true = ground arith in
      rw (busy, left, spent)

  pub paid-total : total (paid s).others + 1 ≡ total s.others
  paid-total = spend-total s.others (s.current - 1) v.left
