-- ===== src/Sched/Choice.antt =====
-- schedule of arch/riscv/kernel/proc.c: which task it switches to, and when it does not return.
use tiny_riscv_os.Prelude.{
  ℕ, zero, suc, ◌+◌, ◌<◌, ◌≡◌, ◌∙◌, refl, false, List, [], ◌∷◌, none, some, arith, ◌==◌,
}
use tiny_riscv_os.Sched.{Task, Sched, counter_at, scan, refill, switch_to, schedule_loop, schedule}
use tiny_riscv_os.Sched.Scan.{IsBound, IsFirstLargest, scan-next, scan-largest, first_largest}

largest_of : (ts : List Task) (j : ℕ) → 0 < counter_at ts j → (m : ℕ) × IsFirstLargest ts m
largest_of [] j h = absurd (omega arith)
largest_of (t ∷ ts) j h = first_largest t ts

pub refill-refill : (ts : List Task) → refill (refill ts) ≡ refill ts
refill-refill [] = refl
refill-refill (t ∷ ts) = rw (refill-refill ts)

-- The state with every counter set to its priority.
abbrev pub refilled : Sched → Sched
refilled s = record s { others = refill s.others }

loop-switch :
    (fuel : ℕ) (s : Sched) (m : ℕ)
    → s.idle.counter ≡ 0
    → 0 < counter_at s.others m
    → IsFirstLargest s.others m
    → schedule_loop (suc fuel) s ≡ some (switch_to s (m + 1))
unfolding schedule_loop
loop-switch fuel s m e h f =
    let best : s.idle.counter < counter_at s.others m = omega arith in
    let found : scan s.others 1 0 s.idle.counter ≡ m + 1 =
      scan-largest s.others 1 0 s.idle.counter m best f ∙ omega arith in
    let other : (m + 1 == 0) ≡ false = ground arith in rw (found, other)

loop-again :
    (fuel : ℕ) (s : Sched)
    → IsBound s.others s.idle.counter
    → schedule_loop (suc fuel) s ≡ schedule_loop fuel (refilled s)
unfolding schedule_loop
loop-again fuel s h =
    let found : scan s.others 1 0 s.idle.counter ≡ 0 = scan-next s.others 1 0 s.idle.counter h in
    rw found

-- If the idle task has counter 0 and some other task has a larger one, schedule switches to the
-- first task of the largest counter, which is positive.
pub schedule_picks :
    (s : Sched) (j : ℕ)
    → s.idle.counter ≡ 0
    → 0 < counter_at s.others j
    → (m : ℕ) × IsFirstLargest s.others m
      × (0 < counter_at s.others m)
      × (schedule s ≡ some (switch_to s (m + 1)))
unfolding schedule
schedule_picks s j e h =
    let (m, f) = largest_of s.others j h in
    let more : 0 < counter_at s.others m = omega (arith, f.largest j) in
    (m, f, more, loop-switch 1 s m e more f)

-- If all counters are 0 and some priority is not, schedule sets every counter to its priority and
-- switches to the first task of the largest one.
pub schedule_refills :
    (s : Sched) (j : ℕ)
    → s.idle.counter ≡ 0
    → IsBound s.others 0
    → 0 < counter_at (refill s.others) j
    → (m : ℕ) × IsFirstLargest (refill s.others) m
      × (0 < counter_at (refill s.others) m)
      × (schedule s ≡ some (switch_to (refilled s) (m + 1)))
unfolding schedule
schedule_refills s j e none_left h =
    let (m, f) = largest_of (refill s.others) j h in
    let more : 0 < counter_at (refill s.others) m = omega (arith, f.largest j) in
    let bound : IsBound s.others s.idle.counter = λ i. omega (arith, none_left i) in
    (m, f, more, loop-again 1 s bound ∙ loop-switch 0 (refilled s) m e more f)

spins :
    (fuel : ℕ) (s : Sched)
    → s.idle.counter ≡ 0
    → IsBound s.others 0
    → IsBound (refill s.others) 0
    → schedule_loop fuel s ≡ none
spins zero s e h g = unfold schedule_loop in refl
spins (suc fuel) s e h g =
    loop-again fuel s (λ i. omega (arith, h i))
    ∙ spins fuel (refilled s) e g (λ i. rw (refill-refill s.others) (g i))

-- If all counters and all priorities are 0, or there is no task but idle, the loop of schedule does
-- not end after any number of rounds.
pub schedule_spins :
    (s : Sched)
    → s.idle.counter ≡ 0
    → IsBound s.others 0
    → IsBound (refill s.others) 0
    → (fuel : ℕ) → schedule_loop fuel s ≡ none
schedule_spins s e h g fuel = spins fuel s e h g
