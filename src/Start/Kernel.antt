-- ===== src/Start/Kernel.antt =====
-- start_kernel of init/main.c: the first schedule after task_init.
use tiny_riscv_os.Prelude.{
  ℕ, zero, suc, ◌+◌, ◌<◌, ◌≡◌, refl, sym, subst, ap, ◌∙◌, some, List, [], ◌∷◌, arith,
}
use tiny_riscv_os.Result.{ok}
use tiny_riscv_os.Sched.{Sched, counter_at, refill, schedule, switch_to}
use tiny_riscv_os.Sched.Scan.{IsBound}
use tiny_riscv_os.Sched.Choice.{refilled, refill-refill, schedule_refills}
use tiny_riscv_os.Sched.Round.{total, IsRunning, switch-IsRunning}
use tiny_riscv_os.Sched.Fair.{RoundDone, ticks_round}
use tiny_riscv_os.Vm.{Vm, Vma}
use tiny_riscv_os.Start.{Symbols, NewTask, task_init, sched_all, idle_task}
use tiny_riscv_os.Start.Tasks.{AreStarted, task_init-Started}

no_ticks : (n i : ℕ) (ts : List NewTask) → AreStarted n i ts → IsBound (sched_all ts) 0
no_ticks zero i [] a j = omega arith
no_ticks zero i (t ∷ ts) a j = absurd a
no_ticks (suc n) i [] a j = absurd a
no_ticks (suc n) i (t ∷ ts) (s, a) zero = omega (arith, s.counter)
no_ticks (suc n) i (t ∷ ts) (s, a) (suc j) = no_ticks n (i + 1) ts a j

first_priority :
    (n i : ℕ) (ts : List NewTask)
    → AreStarted (suc n) i ts
    → 0 < counter_at (refill (sched_all ts)) 0
first_priority n i [] a = absurd a
first_priority n i (t ∷ ts) (s, a) = omega (arith, s.least)

-- The state of the scheduler that task_init leaves.
abbrev pub booted : List NewTask → ℕ → Sched
booted ts satp = record { idle = idle_task; others = sched_all ts; current = 0; satp = satp }

-- Where task_init ends, the first schedule ends too and switches to a task that has ticks left, and
-- the timer ticks that follow are shared: after as many of them as all tasks have, each task has paid
-- for exactly its own.
pub start_kernel-RoundDone :
    (y : Symbols) (old : ℕ → List Vma) (s : Vm) (r : Vm × ℕ × ℕ × List NewTask) (satp : ℕ)
    → task_init y old s ≡ ok r
    → (s1 s2 : Sched) × (schedule (booted r.3 satp) ≡ some s1)
      × IsRunning s1
      × RoundDone (total s1.others) s1 s2
start_kernel-RoundDone y old s r satp e =
    let started = task_init-Started y old s r e in
    let boot = booted r.3 satp in
    let prio = first_priority 0 1 r.3 started in
    let (m, largest, more, done) = schedule_refills boot 0 refl (no_ticks 1 1 r.3 started) prio in
    let (running, same) = switch-IsRunning (refilled boot) m refl more in
    let s1 = switch_to (refilled boot) (m + 1) in
    let again : 0 < counter_at (refill s1.others) 0 =
      subst (λ ts. 0 < counter_at ts 0) (sym (ap refill same ∙ refill-refill boot.others)) prio in
    let (s2, round) = ticks_round s1 0 running again in (s1, s2, done, running, round)
