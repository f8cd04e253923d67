-- ===== src/Fork/Tests.antt =====
-- Runs of do_fork (arch/riscv/kernel/proc.c) for a task with one page, at 0x1000.
use tiny_riscv_os.Prelude.{ℕ, ◌+◌, ◌≡◌, refl, [], ◌∷◌, ltb, ◌==◌, if◌then◌else◌, arith}
use tiny_riscv_os.Result.{Result, ok}
use tiny_riscv_os.Buddy.{Buddy, is_power_of_2, round_pages, descend, climb_loop, buddy_alloc}
use tiny_riscv_os.Mm.{
  pa2va, va2pa, pfn2phys, phys2pfn, page_ref_inc, get_page, alloc_pages, alloc_page, kalloc,
}
use tiny_riscv_os.Vm.{
  Vm, Vma, ppn_field, entry, vpn, table_at, next_table, map_below, map_page, mapping_loop,
  create_mapping, find_pte, do_mmap,
}
use tiny_riscv_os.Syscall.{PtRegs}
use tiny_riscv_os.PageFault.{copy_page}
use tiny_riscv_os.Fork.{fork_page, fork_pages, fork_areas, Child, Parent, do_fork}
use tiny_riscv_os.Fork.Page.{Walk, AreApart, Shared, fork_page-Shared}
use tiny_riscv_os.Fork.Areas.{Forked, do_fork-Forked}

abbrev table_0 : ℕ
table_0 = 0xffff_ffe0_0010_0000

abbrev table_1 : ℕ
table_1 = 0xffff_ffe0_0010_1000

abbrev table_2 : ℕ
table_2 = 0xffff_ffe0_0010_2000

-- The tables of a child that has them already.
abbrev child_0 : ℕ
child_0 = 0xffff_ffe0_0011_0000

abbrev child_1 : ℕ
child_1 = 0xffff_ffe0_0011_1000

abbrev child_2 : ℕ
child_2 = 0xffff_ffe0_0011_2000

-- The page is at physical address 0x80103000, and writable.
abbrev leaf : ℕ
leaf = 0x2004_0c17

abbrev words : ℕ → ℕ
words a =
    if a == table_0
    then 0x2004_0401
    else if a == table_1
    then 0x2004_0801
    else if a == table_2 + 8
    then leaf
    else if a == child_0
    then 0x2004_4401
    else if a == child_1
    then 0x2004_4801
    else 0

-- Of 32 frames, those from 1 on are free; every count is 1.
abbrev frames : Buddy
frames = record {
  size = 32;
  bitmap = λ i.
      if i == 0
      then 16
      else if i == 1
      then 8
      else if i == 3
      then 4
      else if i == 7
      then 2
      else if i == 15
      then 1
      else if i == 31
      then 0
      else if ltb i 3
      then 16
      else if ltb i 7
      then 8
      else if ltb i 15
      then 4
      else if ltb i 31
      then 2
      else 1;
  ref_cnt = λ i. 1;
}

abbrev vm : Vm
vm = record { words = words; frames = frames }

parent-Walk : Walk words table_0 0x1000 table_1 table_2
unfolding entry vpn table_at pa2va
parent-Walk = record {
  top = (refl, refl);
  middle = (refl, refl);
  pmd_ne = omega arith;
  pte_ne = omega arith;
  leaf_ne = omega arith;
}

child-Walk : Walk words child_0 0x1000 child_1 child_2
unfolding entry vpn table_at pa2va
child-Walk = record {
  top = (refl, refl);
  middle = (refl, refl);
  pmd_ne = omega arith;
  pte_ne = omega arith;
  leaf_ne = omega arith;
}

apart : AreApart table_0 child_0 0x1000 table_1 table_2 child_1 child_2
unfolding entry vpn
apart = record {
  own = record { top = omega arith; middle = omega arith };
  of_child = record { top = omega arith; middle = omega arith };
  parent_child = record { top = omega arith; middle = omega arith };
  child_parent = record { top = omega arith; middle = omega arith };
  leaves = omega arith;
}

leaf_word : words (entry table_2 (vpn 0 0x1000)) ≡ leaf
unfolding entry vpn
leaf_word = refl

counted : get_page frames (table_at leaf) ≡ ((get_page frames (table_at leaf)).0, 0)
unfolding get_page phys2pfn va2pa table_at pa2va page_ref_inc
counted = refl

fork_page-Shared_example :
    (s' : Vm) × (fork_page vm table_0 child_0 0x1000 ≡ ok s')
    × (s'.frames ≡ (get_page frames (table_at leaf)).0)
    × Shared vm s' table_0 child_0 0x1000 table_2 child_2 leaf
fork_page-Shared_example =
    fork_page-Shared vm (get_page frames (table_at leaf)).0 table_0 child_0 0x1000 table_1 table_2
      child_1 child_2 leaf (omega arith) refl parent-Walk child-Walk apart leaf_word refl counted

abbrev data_area : Vma
data_area = record { vm_start = 0x1000; vm_end = 0x2000; vm_flags = 6; vm_pgoff = 0; vm_filesz = 0 }

abbrev parent : Parent
parent = record {
  task = 0xffff_ffe0_0030_0000;
  pgd = 0x8010_0000;
  mmap = data_area ∷ [];
  regs = record { x = λ i. 100 + i; sepc = 0x1000; sstatus = 0 };
  regs_at = 0xffff_ffe0_0030_0f00;
}

abbrev after : Result (Vm × Child × PtRegs × ℕ) → Vm × Child × PtRegs × ℕ
after (ok r) = r
after _ = (
  vm,
  record {
    task = 0;
    pid = 0;
    pgd = 0;
    mmap = [];
    ra = 0;
    sp = 0;
    sstatus = 0;
    sscratch = 0;
    regs = parent.regs;
  },
  parent.regs,
  0,
)

abbrev forked : Result (Vm × Child × PtRegs × ℕ)
forked = do_fork 3 vm 0xffff_ffe0_0020_0000 0x77 0x88 parent 2

forked-ok : forked ≡ ok (after forked)
unfolding do_fork fork_areas fork_pages fork_page do_mmap kalloc alloc_page alloc_pages buddy_alloc
    round_pages is_power_of_2 descend climb_loop get_page phys2pfn page_ref_inc va2pa pa2va pfn2phys
    copy_page create_mapping mapping_loop map_page map_below next_table find_pte table_at entry vpn
    ppn_field
forked-ok = refl

do_fork-Forked_example : Forked parent 2 (after forked)
do_fork-Forked_example =
    do_fork-Forked 3 vm 0xffff_ffe0_0020_0000 0x77 0x88 parent 2 (after forked)
      (omega arith, omega arith, tt) forked-ok
