-- ===== src/Start.antt =====
-- task_init of arch/riscv/kernel/proc.c. The addresses of _sramdisk, swapper_pg_dir and __dummy are
-- parameters. What the kernel writes into the structures of a task is a record, and not part of the
-- words of the memory. `old` is the list that mm.mmap of a fresh page leads to: task_init does not
-- set it. Start/Tasks holds the proof, Start/Kernel that on the first schedule.
pub mod Tasks
pub mod Kernel
mod Tests
use tiny_riscv_os.Prelude.{ℕ, zero, suc, ◌+◌, ◌-◌, ◌*◌, ◌/◌, ◌%◌, ◌^◌, List, [], ◌∷◌, map, bit_or}
use tiny_riscv_os.Result.{Result, ok, ◌>>=◌, or_stuck, or_halted}
use tiny_riscv_os.Buddy.{word}
use tiny_riscv_os.Mm.{pgsize, va2pa, alloc_pages, alloc_page, kalloc}
use tiny_riscv_os.Rand.{srand, random_priority}
use tiny_riscv_os.Sched.{Task}
use tiny_riscv_os.Vm.{Vm, Vma, do_mmap}
use tiny_riscv_os.PageFault.{vm_anon, vm_read, vm_write, copy_page}
use tiny_riscv_os.Fork.{sstatus_sum}
use tiny_riscv_os.Load.{load_elf}

abbrev pub user_end : ℕ
user_end = 0x40_0000_0000

abbrev pub nr_tasks_limit : ℕ
nr_tasks_limit = 1 + 1

-- `sizeof(struct files_struct)`
abbrev pub files_size : ℕ
files_size = 16 * 136

abbrev pub stack_flags : ℕ
stack_flags = 7

pub record Symbols : Type 0 where
  pub ramdisk : ℕ
  pub swapper_pg_dir : ℕ
  pub dummy : ℕ

-- `struct task_struct` with its `thread`.
pub record NewTask : Type 0 where
  pub at : ℕ
  pub counter : ℕ
  pub priority : ℕ
  pub pid : ℕ
  pub ra : ℕ
  pub sp : ℕ
  pub sepc : ℕ
  pub sstatus : ℕ
  pub sscratch : ℕ
  pub files : ℕ
  pub pgd : ℕ
  pub mmap : List Vma

-- The body of the loop of task_init, for the task of a number.
unfoldable pub start_task : Symbols → (ℕ → List Vma) → Vm → ℕ → ℕ → Result (Vm × ℕ × NewTask)
start_task y old s seed nr_tasks = or_stuck (kalloc s.frames) >>= λ (task, f1).
    let (seed', priority) = random_priority seed in
    or_stuck (alloc_pages f1 ((files_size + pgsize - 1) / pgsize)) >>= λ (files, f2).
    or_stuck (alloc_page f2) >>= λ (pgd, f3).
    let words = copy_page s.words pgd y.swapper_pg_dir in
    load_elf words y.ramdisk f3 (old task) >>= λ (f4, mmap, entry).
    or_halted (do_mmap f4 mmap (user_end - pgsize) pgsize 0 0 stack_flags) >>= λ (f5, mmap', start).
    let t : NewTask = record {
      at = task;
      counter = 0;
      priority = priority;
      pid = nr_tasks;
      ra = y.dummy;
      sp = (task + pgsize) % word;
      sepc = entry;
      sstatus = sstatus_sum;
      sscratch = user_end;
      files = files;
      pgd = va2pa pgd;
      mmap = mmap';
    } in
    ok (record { words = words; frames = f5 }, seed', t)

-- The loop of task_init, with n tasks left.
unfoldable pub start_tasks :
    ℕ → Symbols → (ℕ → List Vma) → Vm → ℕ → ℕ → Result (Vm × ℕ × List NewTask)
start_tasks zero y old s seed nr_tasks = ok (s, seed, [])
start_tasks (suc n) y old s seed nr_tasks = start_task y old s seed nr_tasks >>= λ (s', seed', t).
    start_tasks n y old s' seed' (nr_tasks + 1) >>= λ (s2, seed2, ts). ok (s2, seed2, t ∷ ts)

-- The state, the seed, the page of the idle task, and the other tasks.
unfoldable pub task_init : Symbols → (ℕ → List Vma) → Vm → Result (Vm × ℕ × ℕ × List NewTask)
task_init y old s = or_stuck (kalloc s.frames) >>= λ (idle, f).
    start_tasks (nr_tasks_limit - 1) y old (record s { frames = f }) (srand 2024) 1
    >>= λ (s', seed, ts). ok (s', seed, idle, ts)

-- What schedule sees of a task.
abbrev pub sched_of : NewTask → Task
sched_of t = record { counter = t.counter; priority = t.priority; pid = t.pid; pgd = t.pgd }

abbrev pub sched_all : List NewTask → List Task
sched_all [] = []
sched_all (t ∷ ts) = sched_of t ∷ sched_all ts

abbrev pub idle_task : Task
idle_task = record { counter = 0; priority = 0; pid = 0; pgd = 0 }
