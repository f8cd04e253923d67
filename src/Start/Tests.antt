-- ===== src/Start/Tests.antt =====
-- A run of task_init (arch/riscv/kernel/proc.c) on a program of one segment.
use tiny_riscv_os.Prelude.{
  ℕ, ◌+◌, ◌-◌, ◌*◌, ◌^◌, ◌≡◌, refl, some, List, [], ltb, ◌==◌, if◌then◌else◌,
}
use tiny_riscv_os.Result.{Result, ok}
use tiny_riscv_os.Buddy.{Buddy, is_power_of_2, round_pages, descend, climb_loop, buddy_alloc}
use tiny_riscv_os.Mm.{pa2va, va2pa, pfn2phys, alloc_pages, alloc_page, kalloc}
use tiny_riscv_os.WordMemory.{byte_at, load16, load32, load64}
use tiny_riscv_os.Rand.{srand, rand, random_priority}
use tiny_riscv_os.Sched.{Sched, schedule}
use tiny_riscv_os.Sched.Round.{total, IsRunning}
use tiny_riscv_os.Sched.Fair.{RoundDone}
use tiny_riscv_os.Vm.{Vm, Vma, do_mmap}
use tiny_riscv_os.PageFault.{copy_page}
use tiny_riscv_os.Load.{segment_flags, load_segments, load_elf}
use tiny_riscv_os.Start.{Symbols, NewTask, nr_tasks_limit, start_task, start_tasks, task_init}
use tiny_riscv_os.Start.Tasks.{AreStarted, task_init-Started}
use tiny_riscv_os.Start.Kernel.{booted, start_kernel-RoundDone}

abbrev image : ℕ
image = 0xffff_ffe0_0020_0000

-- The entry point is 0x100e8, and the one program header follows at 64: a segment to be loaded,
-- readable and executable, of 0x600 bytes at 0x10000.
abbrev words : ℕ → ℕ
words a =
    if a == image + 24
    then 0x100e8
    else if a == image + 32
    then 64
    else if a == image + 56
    then 1
    else if a == image + 64
    then 5 * 2 ^ 32 + 1
    else if a == image + 72
    then 0
    else if a == image + 80
    then 0x10000
    else if a == image + 96
    then 0x600
    else if a == image + 104
    then 0x600
    else 0

-- Of 32 frames, those from 1 on are free.
abbrev frames : Buddy
frames = record {
  size = 32;
  bitmap = λ i.
      if i == 0
      then 16
      else if i == 1
      then 8
      else if i == 3
      then 4
      else if i == 7
      then 2
      else if i == 15
      then 1
      else if i == 31
      then 0
      else if ltb i 3
      then 16
      else if ltb i 7
      then 8
      else if ltb i 15
      then 4
      else if ltb i 31
      then 2
      else 1;
  ref_cnt = λ i. 0;
}

abbrev symbols : Symbols
symbols = record { ramdisk = image; swapper_pg_dir = 0xffff_ffe0_0010_0000; dummy = 0x77 }

abbrev vm : Vm
vm = record { words = words; frames = frames }

abbrev loaded : Result (Buddy × List Vma × ℕ) → Buddy × List Vma × ℕ
loaded (ok r) = r
loaded _ = (frames, [], 0)

load_elf-ok : load_elf words image frames [] ≡ ok (loaded (load_elf words image frames []))
unfolding load_elf load_segments segment_flags load16 load32 load64 byte_at do_mmap kalloc
    alloc_page alloc_pages buddy_alloc round_pages is_power_of_2 descend climb_loop pa2va pfn2phys
load_elf-ok = refl

abbrev after : Result (Vm × ℕ × ℕ × List NewTask) → Vm × ℕ × ℕ × List NewTask
after (ok r) = r
after _ = (vm, 0, 0, [])

abbrev started : Vm × ℕ × ℕ × List NewTask
started = after (task_init symbols (λ a. []) vm)

task_init-ok : task_init symbols (λ a. []) vm ≡ ok started
unfolding task_init start_tasks start_task srand rand random_priority copy_page load_elf
    load_segments segment_flags load16 load32 load64 byte_at do_mmap kalloc alloc_page alloc_pages
    buddy_alloc round_pages is_power_of_2 descend climb_loop pa2va va2pa pfn2phys
task_init-ok = refl

task_init-Started_example : AreStarted (nr_tasks_limit - 1) 1 started.3
task_init-Started_example = task_init-Started symbols (λ a. []) vm started task_init-ok

start_kernel-RoundDone_example :
    (s1 s2 : Sched) × (schedule (booted started.3 0) ≡ some s1)
    × IsRunning s1
    × RoundDone (total s1.others) s1 s2
start_kernel-RoundDone_example = start_kernel-RoundDone symbols (λ a. []) vm started 0 task_init-ok
