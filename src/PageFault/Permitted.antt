-- ===== src/PageFault/Permitted.antt =====
-- The tests of do_page_fault (arch/riscv/kernel/vm.c).
use tiny_riscv_os.Prelude.{
  ℕ, ◌≤◌, ◌<◌, subst, ◌≡◌, ◌≢◌, refl, Bool, false, some, List, ◌==◌, if◌then◌else◌, Bool-cases,
  Option-cases, inl, inr, bit_and, arith,
}
use tiny_riscv_os.Result.{ok, halted}
use tiny_riscv_os.Result.Yields.{Yields, ok-Yields, halted-Yields, bind-Yields}
use tiny_riscv_os.Vm.{Vm, Vma, find_vma}
use tiny_riscv_os.Vm.Area.{Found, find_vma-Found, Found-IsIn}
use tiny_riscv_os.PageFault.{
  vm_read, vm_write, vm_exec, inst_page_fault, load_page_fault, store_page_fault, is_cow,
  check_access, do_page_fault,
}

-- The flag that an access needs, by its exception code; 0 for the codes of other traps.
abbrev pub needed_flag : ℕ → ℕ
needed_flag code =
    if code == inst_page_fault
    then vm_exec
    else if code == store_page_fault
    then vm_write
    else if code == load_page_fault
    then vm_read
    else 0

-- An area of the list, the first that contains the address, has the flag that the access needs.
pub record Permitted (mmap : List Vma) (bad_addr code : ℕ) : Type 0 where
  pub area : Vma
  pub found : find_vma mmap bad_addr ≡ some area
  pub first : Found bad_addr mmap (some area)
  pub contains : (area.vm_start ≤ bad_addr) × (bad_addr < area.vm_end)
  pub flag : needed_flag code ≢ 0 → bit_and area.vm_flags (needed_flag code) ≢ 0

need-Yields :
    (flags flag : ℕ) (cow : Bool)
    → Yields
        (λ (c : Bool). flag ≢ 0 → bit_and flags flag ≢ 0)
        (if bit_and flags flag == 0 then halted else ok cow)
need-Yields flags flag cow = elim (Bool-cases (bit_and flags flag == 0)) [
  | inl e ↦ rw e (halted-Yields (λ (c : Bool). flag ≢ 0 → bit_and flags flag ≢ 0))
  | inr e ↦
      let set : bit_and flags flag ≢ 0 = ground arith in
      rw e (ok-Yields (λ (c : Bool). flag ≢ 0 → bit_and flags flag ≢ 0) cow (λ n. set))
]

check_access-Yields :
    (words : ℕ → ℕ) (pgtbl : ℕ) (vma : Vma) (bad_addr code : ℕ)
    → Yields
        (λ (cow : Bool). needed_flag code ≢ 0 → bit_and vma.vm_flags (needed_flag code) ≢ 0)
        (check_access words pgtbl vma bad_addr code)
unfolding check_access
check_access-Yields words pgtbl vma bad_addr code = elim (Bool-cases (code == inst_page_fault)) [
  | inl e ↦ rw e (need-Yields vma.vm_flags vm_exec false)
  | inr e1 ↦ elim (Bool-cases (code == store_page_fault)) [
    | inl e ↦ rw (e1, e) (need-Yields vma.vm_flags vm_write (is_cow words pgtbl bad_addr))
    | inr e2 ↦ elim (Bool-cases (code == load_page_fault)) [
      | inl e ↦ rw (e1, e2, e) (need-Yields vma.vm_flags vm_read false)
      | inr e3 ↦
          rw (e1, e2, e3)
            (ok-Yields (λ (c : Bool). 0 ≢ 0 → bit_and vma.vm_flags 0 ≢ 0) false
              (λ n. absurd (n refl)))
    ]
  ]
]

-- Where do_page_fault ends, an area of the task contains the address, and the first one that does has
-- the flag that the access needs: VM_EXEC to execute, VM_WRITE to write, VM_READ to read.
pub do_page_fault-Permitted :
    (s s' : Vm) (pgtbl : ℕ) (mmap : List Vma) (ramdisk bad_addr scause : ℕ)
    → do_page_fault s pgtbl mmap ramdisk bad_addr scause ≡ ok s'
    → Permitted mmap bad_addr (bit_and scause 0x7fff_ffff)
unfolding do_page_fault
do_page_fault-Permitted s s' pgtbl mmap ramdisk bad_addr scause =
    let code = bit_and scause 0x7fff_ffff in
    let P : Vm → Type 0 = λ v. Permitted mmap bad_addr code in
    elim (Option-cases (find_vma mmap bad_addr)) [
      | inl none_found ↦ rw none_found (halted-Yields P s')
      | inr (vma, one) ↦ rw one (
          bind-Yields P _ (check_access s.words pgtbl vma bad_addr code)
            (λ cow e q e'. record {
              area = vma;
              found = one;
              first = subst (Found bad_addr mmap) one (find_vma-Found mmap bad_addr);
              contains =
                  Found-IsIn bad_addr mmap vma
                    (subst (Found bad_addr mmap) one (find_vma-Found mmap bad_addr));
              flag = check_access-Yields s.words pgtbl vma bad_addr code cow e;
            })
            s')
    ]
