-- ===== src/Fork/Areas.antt =====
-- The areas of the child in do_fork of arch/riscv/kernel/proc.c.
use tiny_riscv_os.Prelude.{
  ℕ, ◌+◌, ◌-◌, ◌%◌, ◌≤◌, ◌<◌, ◌≡◌, ◌≢◌, refl, sym, ap, ◌∙◌, subst, List, [], ◌∷◌, arith,
}
use tiny_riscv_os.Result.{ok, or_stuck, or_halted}
use tiny_riscv_os.Result.Yields.{Yields, ok-Yields, bind-Yields, or_halted-ok}
use tiny_riscv_os.Buddy.{word}
use tiny_riscv_os.Vm.{Vm, Vma, do_mmap}
use tiny_riscv_os.Vm.Area.{new_area, do_mmap-head}
use tiny_riscv_os.Syscall.{PtRegs}
use tiny_riscv_os.PageFault.{pgrounddown, copy_page}
use tiny_riscv_os.Mm.{pa2va, alloc_page}
use tiny_riscv_os.Fork.{fork_pages, fork_areas, Child, Parent, child_regs, do_fork}

-- The list in the opposite order, before another one.
abbrev pub reversed_onto : List Vma → List Vma → List Vma
reversed_onto [] vs = vs
reversed_onto (w ∷ ws) vs = reversed_onto ws (w ∷ vs)

-- Every area of the list lies within the words.
abbrev pub AreWords : List Vma → Type 0
AreWords [] = Unit {0}
AreWords (v ∷ vs) = (v.vm_start ≤ v.vm_end) × (v.vm_end < word) × AreWords vs

new_area-same :
    (v : Vma)
    → v.vm_start ≤ v.vm_end
    → v.vm_end < word
    → new_area v.vm_start ((v.vm_end + word - v.vm_start) % word) v.vm_pgoff v.vm_filesz v.vm_flags
      ≡ v
new_area-same v a b =
    let same : (v.vm_start + (v.vm_end + word - v.vm_start) % word) % word ≡ v.vm_end =
      omega arith in
    ap (λ e. record v { vm_end = e }) same

HasAreas : List Vma → Vm × List Vma → Type 0
HasAreas vs r = r.1 ≡ vs

-- fork_areas leaves the areas of the parent in the opposite order before those of the child.
fork_areas-reversed :
    (fuel : ℕ) (s : Vm) (parent child : ℕ) (vs mmap : List Vma)
    → AreWords vs
    → Yields (HasAreas (reversed_onto vs mmap)) (fork_areas fuel s parent child vs mmap)
unfolding fork_areas HasAreas
fork_areas-reversed fuel s parent child [] mmap w = ok-Yields (HasAreas mmap) (s, mmap) refl
fork_areas-reversed fuel s parent child (v ∷ vs) mmap (a, b, w) =
    let P = HasAreas (reversed_onto vs (v ∷ mmap)) in
    let mapped =
      do_mmap s.frames mmap v.vm_start ((v.vm_end + word - v.vm_start) % word) v.vm_pgoff
        v.vm_filesz v.vm_flags in
    bind-Yields P _ (or_halted mapped) λ (f, mmap', start) e.
      let head =
        do_mmap-head s.frames f mmap mmap' v.vm_start ((v.vm_end + word - v.vm_start) % word)
          v.vm_pgoff v.vm_filesz v.vm_flags start (or_halted-ok mapped (f, mmap', start) e) in
      let new : mmap' ≡ v ∷ mmap = head.1 ∙ ap (λ x. x ∷ mmap) (new_area-same v a b) in
      bind-Yields P _
        (fork_pages fuel (record s { frames = f }) parent child (pgrounddown v.vm_start) v.vm_end)
        λ s' e'.
          subst (λ m. Yields P (fork_areas fuel s' parent child vs m)) (sym new)
            (fork_areas-reversed fuel s' parent child vs (v ∷ mmap) w)

-- What a child starts with: its areas, its number, and the registers it returns with.
pub record Forked (p : Parent) (nr_tasks : ℕ) (r : Vm × Child × PtRegs × ℕ) : Type 0 where
  pub areas : r.1.mmap ≡ reversed_onto p.mmap []
  pub number : r.1.pid ≡ nr_tasks
  pub child_result : r.1.regs.x 10 ≡ 0
  pub parent_result : r.2.x 10 ≡ r.1.pid
  pub child_goes_on : r.1.regs.sepc ≡ (p.regs.sepc + 4) % word
  pub child_same : (i : ℕ) → i ≢ 2 → i ≢ 10 → r.1.regs.x i ≡ p.regs.x i
  pub parent_same : (i : ℕ) → i ≢ 10 → r.2.x i ≡ p.regs.x i

-- Where do_fork ends, the child has the areas of the parent, in the opposite order; it returns 0 and
-- the parent the number of the child, and apart from a0, and the stack pointer of the child, both
-- have the registers of the parent; the child goes on behind the ecall.
pub do_fork-Forked :
    (fuel : ℕ) (s : Vm) (swapper_pg_dir ret_from_fork sscratch : ℕ) (p : Parent) (nr_tasks : ℕ)
    (r : Vm × Child × PtRegs × ℕ)
    → AreWords p.mmap
    → do_fork fuel s swapper_pg_dir ret_from_fork sscratch p nr_tasks ≡ ok r
    → Forked p nr_tasks r
unfolding do_fork child_regs HasAreas
do_fork-Forked fuel s swapper_pg_dir ret_from_fork sscratch p nr_tasks r w =
    let P : Vm × Child × PtRegs × ℕ → Type 0 = Forked p nr_tasks in
    bind-Yields P _ (or_stuck (alloc_page s.frames))
      (λ (child, f1) e1. bind-Yields P _ (or_stuck (alloc_page f1)) λ (pgd, f2) e2.
        bind-Yields P _
          (fork_areas fuel
            (record {
              words = copy_page (copy_page s.words child p.task) pgd swapper_pg_dir;
              frames = f2;
            })
            (pa2va p.pgd) pgd p.mmap [])
          λ (s', mmap) e3. ok-Yields P _ (record {
            areas = fork_areas-reversed fuel _ (pa2va p.pgd) pgd p.mmap [] w (s', mmap) e3;
            number = refl;
            child_result = refl;
            parent_result = refl;
            child_goes_on = refl;
            child_same = λ i a b. ground arith;
            parent_same = λ i a. ground arith;
          }))
      r
