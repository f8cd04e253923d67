-- ===== src/Start/Tasks.antt =====
-- The tasks that task_init of arch/riscv/kernel/proc.c starts.
use tiny_riscv_os.Prelude.{
  ℕ, zero, suc, ◌+◌, ◌-◌, ◌/◌, ◌≤◌, ◌<◌, ◌≡◌, refl, sym, subst, some, List, [], ◌∷◌, arith,
}
use tiny_riscv_os.Result.{ok, or_stuck, or_halted}
use tiny_riscv_os.Result.Yields.{Yields, ok-Yields, bind-Yields, or_halted-ok}
use tiny_riscv_os.Mm.{pgsize, kalloc, alloc_pages, alloc_page}
use tiny_riscv_os.Rand.{srand, priority_min, priority_max, random_priority_bounds}
use tiny_riscv_os.Vm.{Vm, Vma, find_vma, do_mmap}
use tiny_riscv_os.Vm.Area.{new_area, do_mmap-head}
use tiny_riscv_os.PageFault.{copy_page}
use tiny_riscv_os.Load.{load_elf}
use tiny_riscv_os.Start.{
  Symbols, NewTask, user_end, nr_tasks_limit, files_size, stack_flags, start_task, start_tasks,
  task_init,
}

abbrev pub stack : Vma
stack = new_area (user_end - pgsize) pgsize 0 0 stack_flags

-- A task that has not run yet: it has no ticks but a priority, its number, and a stack.
pub record Started (nr_tasks : ℕ) (t : NewTask) : Type 0 where
  pub counter : t.counter ≡ 0
  pub least : priority_min ≤ t.priority
  pub most : t.priority ≤ priority_max
  pub number : t.pid ≡ nr_tasks
  pub user_stack : (a : ℕ) → user_end - pgsize ≤ a → a < user_end → find_vma t.mmap a ≡ some stack
  pub user_sp : t.sscratch ≡ user_end

-- The n tasks have consecutive numbers.
abbrev pub AreStarted : ℕ → ℕ → List NewTask → Type 0
AreStarted zero i [] = Unit {0}
AreStarted zero i (t ∷ ts) = ⊥
AreStarted (suc n) i [] = ⊥
AreStarted (suc n) i (t ∷ ts) = Started i t × AreStarted n (i + 1) ts

find_vma-stack :
    (mmap : List Vma) (a : ℕ)
    → user_end - pgsize ≤ a
    → a < user_end
    → find_vma (stack ∷ mmap) a ≡ some stack
unfolding find_vma
find_vma-stack mmap a l u = ground arith

start_task-Started :
    (y : Symbols) (old : ℕ → List Vma) (s : Vm) (seed nr_tasks : ℕ)
    → Yields (λ (r : Vm × ℕ × NewTask). Started nr_tasks r.2) (start_task y old s seed nr_tasks)
unfolding start_task
start_task-Started y old s seed nr_tasks =
    let P : Vm × ℕ × NewTask → Type 0 = λ r. Started nr_tasks r.2 in
    bind-Yields P _ (or_stuck (kalloc s.frames)) λ (task, f1) e1.
      bind-Yields P _ (or_stuck (alloc_pages f1 ((files_size + pgsize - 1) / pgsize)))
        λ (files, f2) e2. bind-Yields P _ (or_stuck (alloc_page f2)) λ (pgd, f3) e3.
          bind-Yields P _
            (load_elf (copy_page s.words pgd y.swapper_pg_dir) y.ramdisk f3 (old task))
            λ (f4, mmap, entry) e4.
              bind-Yields P _
                (or_halted (do_mmap f4 mmap (user_end - pgsize) pgsize 0 0 stack_flags))
                λ (f5, mmap', start) e5.
                  let head =
                    do_mmap-head f4 f5 mmap mmap' (user_end - pgsize) pgsize 0 0 stack_flags start
                      (or_halted-ok _ (f5, mmap', start) e5) in
                  let bounds = random_priority_bounds seed in
                  ok-Yields P _ (record {
                    counter = refl;
                    least = bounds.0;
                    most = bounds.1;
                    number = refl;
                    user_stack = λ a l u.
                        subst (λ m. find_vma m a ≡ some stack) (sym head.1)
                          (find_vma-stack mmap a l u);
                    user_sp = refl;
                  })

start_tasks-Started :
    (n : ℕ) (y : Symbols) (old : ℕ → List Vma) (s : Vm) (seed nr_tasks : ℕ)
    → Yields
        (λ (r : Vm × ℕ × List NewTask). AreStarted n nr_tasks r.2)
        (start_tasks n y old s seed nr_tasks)
unfolding start_tasks
start_tasks-Started zero y old s seed nr_tasks =
    ok-Yields (λ (r : Vm × ℕ × List NewTask). AreStarted zero nr_tasks r.2) (s, seed, []) tt
start_tasks-Started (suc n) y old s seed nr_tasks =
    let P : Vm × ℕ × List NewTask → Type 0 = λ r. AreStarted (suc n) nr_tasks r.2 in
    bind-Yields P _ (start_task y old s seed nr_tasks) λ (s', seed', t) e.
      bind-Yields P _ (start_tasks n y old s' seed' (nr_tasks + 1)) λ (s2, seed2, ts) e'.
        ok-Yields P (s2, seed2, t ∷ ts)
          (
            start_task-Started y old s seed nr_tasks (s', seed', t) e,
            start_tasks-Started n y old s' seed' (nr_tasks + 1) (s2, seed2, ts) e',
          )

-- Where task_init ends, each task but idle has no ticks left, a priority between PRIORITY_MIN and
-- PRIORITY_MAX, its index as its number, and the page below USER_END as its stack; there are
-- NR_TASKS tasks with idle.
pub task_init-Started :
    (y : Symbols) (old : ℕ → List Vma) (s : Vm) (r : Vm × ℕ × ℕ × List NewTask)
    → task_init y old s ≡ ok r
    → AreStarted (nr_tasks_limit - 1) 1 r.3
unfolding task_init
task_init-Started y old s r =
    let P : Vm × ℕ × ℕ × List NewTask → Type 0 = λ q. AreStarted (nr_tasks_limit - 1) 1 q.3 in
    bind-Yields P _ (or_stuck (kalloc s.frames))
      (λ (idle, f) e.
        bind-Yields P _
          (start_tasks (nr_tasks_limit - 1) y old (record s { frames = f }) (srand 2024) 1)
          λ (s', seed, ts) e'. ok-Yields P _ (
            start_tasks-Started (nr_tasks_limit - 1) y old (record s { frames = f }) (srand 2024) 1
              (s', seed, ts) e'))
      r
