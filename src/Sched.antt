-- ===== src/Sched.antt =====
-- arch/riscv/kernel/proc.c: the timer tick and the choice of the next task.
-- task[0] is `idle`, and `others` are task[1] to task[nr_tasks - 1], so that task[i] is the one at
-- i - 1 there; none of them is NULL. A pointer
-- to a task is its index. The register switch in entry.S is left out.
pub mod Scan
pub mod Choice
pub mod Round
pub mod Fair
mod Tests
use tiny_riscv_os.Prelude.{
  ℕ, zero, suc, ◌+◌, ◌-◌, ◌*◌, ◌/◌, ◌%◌, ◌^◌, bit_and, bit_or, Bool, true, false, ◌||◌, List, [],
  ◌∷◌, Option, none, some, leb, ◌==◌, if◌then◌else◌,
}

-- The fields of `struct task_struct` that scheduling reads and writes.
pub record Task : Type 0 where
  pub counter : ℕ
  pub priority : ℕ
  pub pid : ℕ
  pub pgd : ℕ

pub record Sched : Type 0 where
  pub idle : Task
  pub others : List Task
  pub current : ℕ
  pub satp : ℕ

-- `counter` and `pgd` of the task at an index of `others`, which counts from 0; 0 past the end.
abbrev pub counter_at : List Task → ℕ → ℕ
counter_at [] i = 0
counter_at (t ∷ ts) zero = t.counter
counter_at (t ∷ ts) (suc i) = counter_at ts i

abbrev pub pgd_at : List Task → ℕ → ℕ
pgd_at [] i = 0
pgd_at (t ∷ ts) zero = t.pgd
pgd_at (t ∷ ts) (suc i) = pgd_at ts i

-- `current->counter`
abbrev pub current_counter : Sched → ℕ
current_counter s = if s.current == 0 then s.idle.counter else counter_at s.others (s.current - 1)

-- The `for` of schedule, at index i; `next` is the best task so far, and `best` its counter.
unfoldable pub scan : List Task → ℕ → ℕ → ℕ → ℕ
scan [] i next best = next
scan (t ∷ ts) i next best =
    scan ts (i + 1) (if leb t.counter best then next else i)
      (if leb t.counter best then best else t.counter)

-- The second `for` of schedule.
abbrev pub refill : List Task → List Task
refill [] = []
refill (t ∷ ts) = record t { counter = t.priority } ∷ refill ts

-- switch_mm: the page table root, as a number of a frame, in Sv39 mode.
unfoldable pub satp_of : ℕ → ℕ
satp_of pgd = bit_or (bit_and (pgd / 2 ^ 12) 0xfff_ffff_ffff) (8 * 2 ^ 60)

unfoldable pub switch_to : Sched → ℕ → Sched
switch_to s next = if next == s.current then s else record s {
  current = next;
  satp = satp_of (if next == 0 then s.idle.pgd else pgd_at s.others (next - 1));
}

-- The `while (true)` of schedule, on fuel.
unfoldable pub schedule_loop : ℕ → Sched → Option Sched
schedule_loop zero s = none
schedule_loop (suc fuel) s =
    let next = scan s.others 1 0 s.idle.counter in
    let again = schedule_loop fuel (record s { others = refill s.others }) in
    if next == 0 then again else some (switch_to s next)

-- The second round finds a task, if there is one to find.
unfoldable pub schedule : Sched → Option Sched
schedule s = schedule_loop 2 s

-- `counter--` for the task at an index of `others`.
abbrev pub spend : List Task → ℕ → List Task
spend [] i = []
spend (t ∷ ts) zero = record t { counter = t.counter - 1 } ∷ ts
spend (t ∷ ts) (suc i) = t ∷ spend ts i

unfoldable pub do_timer : Sched → Option Sched
do_timer s =
    if s.current == 0 || current_counter s == 0
    then schedule s
    else let s' = record s { others = spend s.others (s.current - 1) } in
      if current_counter s' == 0 then schedule s' else some s'

-- n ticks of the timer, one after the other.
unfoldable pub ticks : ℕ → Sched → Option Sched
ticks zero s = some s
ticks (suc n) s = elim (do_timer s) [ none ↦ none | some s' ↦ ticks n s' ]
