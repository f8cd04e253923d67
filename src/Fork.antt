-- ===== src/Fork.antt =====
-- do_fork of arch/riscv/kernel/proc.c. The addresses of swapper_pg_dir and __ret_from_fork are
-- parameters. The fields of the child that do_fork sets are a record; that a task struct lies at the
-- start of its page matters only for the address of the saved registers. Fork/Page holds the proof
-- on one page, Fork/Areas those on the list of areas.
mod Page
mod Areas
mod Tests
use tiny_riscv_os.Prelude.{
  ℕ, zero, suc, ◌+◌, ◌-◌, ◌*◌, ◌/◌, ◌%◌, ◌^◌, Bool, true, false, Option, List, [], ◌∷◌, ltb, ◌==◌,
  if◌then◌else◌, update, bit_and,
}
use tiny_riscv_os.Result.{Result, ok, null_call, halted, stuck, ◌>>=◌, or_stuck, or_halted}
use tiny_riscv_os.Buddy.{word}
use tiny_riscv_os.Mm.{pgsize, pa2va, va2pa, get_page, alloc_page}
use tiny_riscv_os.Vm.{Vm, Vma, perm_v, perm_w, ppn_mask, create_mapping, find_pte, do_mmap}
use tiny_riscv_os.PageFault.{pgrounddown, copy_page}
use tiny_riscv_os.Syscall.{PtRegs, a0}

-- `w & ~PERM_W`
unfoldable pub clear_w : ℕ → ℕ
clear_w w = w - bit_and w perm_w

-- The body of the loop over the pages of an area. Where find_pte returns 0, address 0 is read.
unfoldable pub fork_page : Vm → ℕ → ℕ → ℕ → Result Vm
fork_page s parent child addr =
    let pte = find_pte s.words parent addr in
    let w = s.words pte in
    let pa = bit_and (w / 2 ^ 10) ppn_mask * 2 ^ 12 % word in
    let got = get_page s.frames (pa2va pa) in
    let shared : Vm = record { words = update s.words pte (clear_w w); frames = got.0 } in
    let mapped =
      or_stuck (create_mapping shared child addr pa pgsize (clear_w (bit_and (clear_w w) 0xff))) in
    if pte == 0
    then null_call
    else if bit_and w perm_v == 0
    then ok s
    else if got.1 == 0
    then mapped
    else halted

-- The loop over the pages from addr on, on fuel.
unfoldable pub fork_pages : ℕ → Vm → ℕ → ℕ → ℕ → ℕ → Result Vm
fork_pages zero s parent child addr vm_end = stuck
fork_pages (suc fuel) s parent child addr vm_end =
    let rest = fork_page s parent child addr >>= λ s'.
    fork_pages fuel s' parent child ((addr + pgsize) % word) vm_end in
    if ltb addr vm_end then rest else ok s

-- The loop over the areas of the parent; `mmap` is the list of the child.
unfoldable pub fork_areas : ℕ → Vm → ℕ → ℕ → List Vma → List Vma → Result (Vm × List Vma)
fork_areas fuel s parent child [] mmap = ok (s, mmap)
fork_areas fuel s parent child (v ∷ vs) mmap =
    or_halted (
      do_mmap s.frames mmap v.vm_start ((v.vm_end + word - v.vm_start) % word) v.vm_pgoff
        v.vm_filesz v.vm_flags)
    >>= λ (f, mmap', start).
        fork_pages fuel (record s { frames = f }) parent child (pgrounddown v.vm_start) v.vm_end
        >>= λ s'. fork_areas fuel s' parent child vs mmap'

-- What do_fork sets in the child, and in the registers that it will return with.
pub record Child : Type 0 where
  pub task : ℕ
  pub pid : ℕ
  pub pgd : ℕ
  pub mmap : List Vma
  pub ra : ℕ
  pub sp : ℕ
  pub sstatus : ℕ
  pub sscratch : ℕ
  pub regs : PtRegs

abbrev pub sstatus_sum : ℕ
sstatus_sum = 2 ^ 18

abbrev pub reg_sp : ℕ
reg_sp = 2

-- `current`, its page table and areas, and where its saved registers lie.
pub record Parent : Type 0 where
  pub task : ℕ
  pub pgd : ℕ
  pub mmap : List Vma
  pub regs : PtRegs
  pub regs_at : ℕ

unfoldable pub child_regs : PtRegs → ℕ → PtRegs
child_regs regs at = record regs {
  x = update (update regs.x reg_sp at) a0 0;
  sepc = (regs.sepc + 4) % word;
}

-- The state, the child, the registers of the parent, and the new number of tasks.
unfoldable pub do_fork : ℕ → Vm → ℕ → ℕ → ℕ → Parent → ℕ → Result (Vm × Child × PtRegs × ℕ)
do_fork fuel s swapper_pg_dir ret_from_fork sscratch p nr_tasks =
    or_stuck (alloc_page s.frames) >>= λ (child, f1).
    let words1 = copy_page s.words child p.task in
    or_stuck (alloc_page f1) >>= λ (pgd, f2).
    let words2 = copy_page words1 pgd swapper_pg_dir in
    fork_areas fuel (record { words = words2; frames = f2 }) (pa2va p.pgd) pgd p.mmap []
    >>= λ (s', mmap).
        let at = (child + p.regs_at + word - p.task) % word in
        let c : Child = record {
          task = child;
          pid = nr_tasks;
          pgd = va2pa pgd;
          mmap = mmap;
          ra = ret_from_fork;
          sp = at;
          sstatus = sstatus_sum;
          sscratch = sscratch;
          regs = child_regs p.regs at;
        } in
        ok (s', c, record p.regs { x = update p.regs.x a0 nr_tasks }, nr_tasks + 1)
