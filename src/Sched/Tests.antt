-- ===== src/Sched/Tests.antt =====
-- Runs of the scheduler of arch/riscv/kernel/proc.c.
use tiny_riscv_os.Prelude.{ℕ, zero, suc, ◌+◌, ◌<◌, ◌≡◌, refl, List, [], ◌∷◌, none, some, arith}
use tiny_riscv_os.Sched.{
  Task, Sched, counter_at, scan, switch_to, schedule_loop, schedule, do_timer,
}
use tiny_riscv_os.Sched.Scan.{IsBound, IsFirstLargest}
use tiny_riscv_os.Sched.Choice.{schedule_picks, schedule_spins}
use tiny_riscv_os.Sched.Round.{IsRunning, total, payers}
use tiny_riscv_os.Sched.Fair.{RoundDone, ticks_round}

abbrev task : ℕ → ℕ → ℕ → Task
task counter priority pid = record { counter = counter; priority = priority; pid = pid; pgd = 0 }

abbrev machine : List Task → ℕ → Sched
machine others current = record { idle = task 0 0 0; others = others; current = current; satp = 0 }

abbrev two_ready : Sched
two_ready = machine (task 1 2 1 ∷ task 3 4 2 ∷ []) 2

abbrev all_spent : Sched
all_spent = machine (task 0 2 1 ∷ task 0 4 2 ∷ []) 0

abbrev idle_only : Sched
idle_only = machine [] 0

schedule_picks_example :
    (m : ℕ) × IsFirstLargest two_ready.others m
    × (0 < counter_at two_ready.others m)
    × (schedule two_ready ≡ some (switch_to two_ready (m + 1)))
schedule_picks_example = schedule_picks two_ready 1 refl (omega arith)

all_spent-IsBound : IsBound all_spent.others 0
all_spent-IsBound zero = omega arith
all_spent-IsBound (suc zero) = omega arith
all_spent-IsBound (suc (suc j)) = omega arith

nothing-IsBound : IsBound idle_only.others 0
nothing-IsBound j = omega arith

schedule_spins_example : schedule_loop 5 idle_only ≡ none
schedule_spins_example = schedule_spins idle_only refl nothing-IsBound nothing-IsBound 5

two_ready-IsRunning : IsRunning two_ready
two_ready-IsRunning = record { idle_counter = refl; other = omega arith; left = omega arith }

ticks_round_example : (s' : Sched) × RoundDone (total two_ready.others) two_ready s'
ticks_round_example = ticks_round two_ready 0 two_ready-IsRunning (omega arith)

-- Task 2 pays three ticks and task 1 one, and task 2 begins the next round.
round_payers : payers 5 two_ready ≡ 1 ∷ 1 ∷ 1 ∷ 0 ∷ 1 ∷ []
unfolding payers do_timer schedule schedule_loop scan switch_to
round_payers = refl
