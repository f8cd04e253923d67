-- ===== src/Sched/Fair.antt =====
-- A round of the scheduler in arch/riscv/kernel/proc.c, tick by tick.
use tiny_riscv_os.Prelude.{
  ℕ, zero, suc, ◌+◌, ◌-◌, ◌≤◌, ◌<◌, ◌≡◌, ◌∙◌, refl, sym, ap, true, false, List, [], ◌∷◌, some,
  arith, ◌==◌, dec_lt, subst,
}
use tiny_riscv_os.Sched.{Task, Sched, counter_at, refill, spend, switch_to, do_timer, ticks}
use tiny_riscv_os.Sched.Choice.{refilled, schedule_picks, schedule_refills}
use tiny_riscv_os.Sched.Round.{
  total, payers, count, IsRunning, spend-counter_at, refill-spend, total-zero, some_left, Ticked,
  switch-IsRunning, paid, timer-go, timer-schedule, paid-total,
}

counter_at-le-total : (ts : List Task) (i : ℕ) → counter_at ts i ≤ total ts
counter_at-le-total [] i = omega arith
counter_at-le-total (t ∷ ts) zero = omega arith
counter_at-le-total (t ∷ ts) (suc i) = omega (arith, counter_at-le-total ts i)

module _ (s : Sched) (v : IsRunning s) where
  not_last : 0 < total (paid s).others → (total s.others == 1) ≡ false
  not_last h = ground (arith, paid-total s v)

  last : total (paid s).others ≡ 0 → (total s.others == 1) ≡ true
  last h = ground (arith, paid-total s v)

  -- The running task has ticks left after this one.
  tick-stay : 0 < counter_at (paid s).others (s.current - 1) → Ticked s (paid s)
  tick-stay more = record {
    runs = timer-go s v more;
    running = record { idle_counter = v.idle_counter; other = v.other; left = more };
    counters =
        rw (not_last (omega (arith, more, counter_at-le-total (paid s).others (s.current - 1))))
          refl;
  }

  -- The running task has paid its last tick, and another has ticks left.
  tick-switch :
      counter_at (paid s).others (s.current - 1) ≡ 0
      → 0 < total (paid s).others
      → (s' : Sched) × Ticked s s'
  tick-switch done more =
      let (j, left) = some_left (paid s).others more in
      let (m, f, positive, runs) = schedule_picks (paid s) j v.idle_counter left in
      let (running, same) = switch-IsRunning (paid s) m v.idle_counter positive in
      (
        switch_to (paid s) (m + 1),
        record {
          runs = timer-schedule s v done ∙ runs;
          running = running;
          counters = rw (not_last more) same;
        },
      )

  -- The last tick of the round.
  tick-refill :
      (j : ℕ)
      → 0 < counter_at (refill s.others) j
      → counter_at (paid s).others (s.current - 1) ≡ 0
      → total (paid s).others ≡ 0
      → (s' : Sched) × Ticked s s'
  tick-refill j prio done none_left =
      let again : refill (paid s).others ≡ refill s.others =
        refill-spend s.others (s.current - 1) in
      let (m, f, positive, runs) =
        schedule_refills (paid s) j v.idle_counter (total-zero (paid s).others none_left)
          (subst (λ ts. 0 < counter_at ts j) (sym again) prio) in
      let (running, same) = switch-IsRunning (refilled (paid s)) m v.idle_counter positive in
      (
        switch_to (refilled (paid s)) (m + 1),
        record {
          runs = timer-schedule s v done ∙ runs;
          running = running;
          counters = rw (last none_left) (same ∙ again);
        },
      )

  tick-Ticked : (j : ℕ) → 0 < counter_at (refill s.others) j → (s' : Sched) × Ticked s s'
  tick-Ticked j prio = elim (dec_lt 0 (counter_at (paid s).others (s.current - 1))) [
    | yes more ↦ (paid s, tick-stay more)
    | no done ↦ elim (dec_lt 0 (total (paid s).others)) [
      | yes more ↦ tick-switch (omega arith) more
      | no none_left ↦ tick-refill j prio (omega arith) (omega arith)
    ]
  ]

payers-step :
    (n : ℕ) (s s' : Sched) → do_timer s ≡ some s' → payers (suc n) s ≡ (s.current - 1) ∷ payers n s'
unfolding payers
payers-step n s s' e = rw e

ticks-step : (n : ℕ) (s s' : Sched) → do_timer s ≡ some s' → ticks (suc n) s ≡ ticks n s'
unfolding ticks
ticks-step n s s' e = rw (e, ticks)

ticks-zero : (s : Sched) → ticks 0 s ≡ some s
unfolding ticks
ticks-zero s = refl

payers-zero : (s : Sched) → payers 0 s ≡ []
unfolding payers
payers-zero s = refl

-- What a whole round does.
pub record RoundDone (n : ℕ) (s s' : Sched) : Type 0 where
  pub runs : ticks n s ≡ some s'
  pub running : IsRunning s'
  pub counters : s'.others ≡ refill s.others
  pub paid_for : (i : ℕ) → count i (payers n s) ≡ counter_at s.others i

round_last : (s s' : Sched) → IsRunning s → Ticked s s' → total s.others ≡ 1 → RoundDone 1 s s'
round_last s s' v t e = record {
  runs = ticks-step 0 s s' t.runs ∙ ticks-zero s';
  running = t.running;
  counters = t.counters ∙ ground arith;
  paid_for = λ i.
      rw (payers-step 0 s s' t.runs, payers-zero s')
        (ground (
          arith,
          spend-counter_at s.others (s.current - 1) i v.left,
          total-zero (paid s).others (omega (arith, paid-total s v)) i,
        ));
}

round_more :
    (n : ℕ) (s s' s'' : Sched)
    → IsRunning s
    → Ticked s s'
    → s'.others ≡ spend s.others (s.current - 1)
    → RoundDone n s' s''
    → RoundDone (suc n) s s''
round_more n s s' s'' v t e r = record {
  runs = ticks-step n s s' t.runs ∙ r.runs;
  running = r.running;
  counters = r.counters ∙ rw e (refill-spend s.others (s.current - 1));
  paid_for = λ i. rw (payers-step n s s' t.runs) (
      ground (
        arith,
        spend-counter_at s.others (s.current - 1) i v.left,
        r.paid_for i,
        ap (λ ts. counter_at ts i) e,
      ));
}

rounds :
    (n : ℕ) (s : Sched) (j : ℕ)
    → IsRunning s
    → 0 < counter_at (refill s.others) j
    → total s.others ≡ n
    → (s' : Sched) × RoundDone n s s'
rounds zero s j v prio e =
    absurd (omega (arith, v.left, counter_at-le-total s.others (s.current - 1)))
rounds (suc zero) s j v prio e = let (s', t) = tick-Ticked s v j prio in (s', round_last s s' v t e)
rounds (suc (suc n)) s j v prio e =
    let (s', t) = tick-Ticked s v j prio in
    let kept : s'.others ≡ spend s.others (s.current - 1) = t.counters ∙ ground arith in
    let again : refill s'.others ≡ refill s.others =
      ap refill kept ∙ refill-spend s.others (s.current - 1) in
    let left : total s'.others ≡ suc n = rw kept (omega (arith, paid-total s v)) in
    let (s'', r) =
      rounds (suc n) s' j t.running (subst (λ ts. 0 < counter_at ts j) (sym again) prio) left in
    (s'', round_more (suc n) s s' s'' v t kept r)

-- If a task other than idle runs with ticks left, and some priority is not 0, then after as many
-- timer ticks as all counters add up to, every task has paid for exactly as many ticks as its counter
-- was, all counters are set to the priorities, and a task other than idle runs with ticks left.
pub ticks_round :
    (s : Sched) (j : ℕ)
    → IsRunning s
    → 0 < counter_at (refill s.others) j
    → (s' : Sched) × RoundDone (total s.others) s s'
ticks_round s j v prio = rounds (total s.others) s j v prio refl
