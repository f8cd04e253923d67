-- ===== src/PageFault.antt =====
-- arch/riscv/kernel/vm.c: do_page_fault. The exception code and the address come from the registers
-- scause and stval; pgtbl is the address of the table of `current`, and ramdisk that of _sramdisk.
-- The two ranges of a memcpy do not overlap, and neither wraps. PageFault/Copy holds the proof on
-- copy on write, PageFault/Fresh those on a new page, PageFault/Permitted on the tests.
pub mod Copy
pub mod Fresh
mod Permitted
mod Tests
use tiny_riscv_os.Prelude.{
  ℕ, zero, suc, ◌+◌, ◌-◌, ◌*◌, ◌/◌, ◌%◌, ◌^◌, Bool, true, false, Option, none, some, ltb, leb, ◌&&◌,
  ◌==◌, if◌then◌else◌, not, min, max, List, bit_and, bit_or,
}
use tiny_riscv_os.Buddy.{Buddy, word}
use tiny_riscv_os.Mm.{pgsize, va2pa, put_page, alloc_page}
use tiny_riscv_os.WordMemory.{memcpy_bytes}
use tiny_riscv_os.Result.{Result, ok, halted, ◌>>=◌, or_stuck, or_halted}
use tiny_riscv_os.Vm.{
  Vma, find_vma, Vm, perm_v, perm_w, perm_a, perm_d, table_at, create_mapping, find_pte,
}

abbrev pub vm_anon : ℕ
vm_anon = 0x1

abbrev pub vm_read : ℕ
vm_read = 0x2

abbrev pub vm_write : ℕ
vm_write = 0x4

abbrev pub vm_exec : ℕ
vm_exec = 0x8

abbrev pub inst_page_fault : ℕ
inst_page_fault = 12

abbrev pub load_page_fault : ℕ
load_page_fault = 13

abbrev pub store_page_fault : ℕ
store_page_fault = 15

abbrev pub perm_u : ℕ
perm_u = 0b1_0000

-- `addr & ~(PGSIZE - 1)`
abbrev pub pgrounddown : ℕ → ℕ
pgrounddown addr = addr / pgsize * pgsize

-- `is_cow` after the test of a store fault in an area with VM_WRITE.
unfoldable pub is_cow : (ℕ → ℕ) → ℕ → ℕ → Bool
is_cow words pgtbl bad_addr =
    let pte = find_pte words pgtbl (pgrounddown bad_addr) in
    if pte == 0
    then false
    else not (bit_and (words pte) perm_v == 0) && bit_and (words pte) perm_w == 0

-- memcpy of a whole page, word by word.
unfoldable pub copy_page : (ℕ → ℕ) → ℕ → ℕ → ℕ → ℕ
copy_page words page src a =
    if leb page a && ltb a (page + pgsize) then words (src + (a - page)) else words a

-- `PERM_A | PERM_D | PERM_U | page_perm | PERM_V`, where page_perm is vm_flags without VM_ANON.
unfoldable pub fault_perm : ℕ → ℕ
fault_perm vm_flags =
    bit_or (bit_or (bit_or (bit_or perm_a perm_d) perm_u) (vm_flags - vm_flags % 2)) perm_v

-- The branch for copy on write; pgtbl is the address of the table of `current`.
unfoldable pub copy_on_write : Vm → ℕ → ℕ → ℕ → ℕ → Option Vm
copy_on_write s pgtbl bad_addr vm_flags page =
    let vpage_start = pgrounddown bad_addr in
    let src = table_at (s.words (find_pte s.words pgtbl vpage_start)) in
    create_mapping (record { words = copy_page s.words page src; frames = put_page s.frames src })
      pgtbl vpage_start (va2pa page) pgsize (fault_perm vm_flags)

-- The `switch` over the exception code: `is_cow`, or the panic.
unfoldable pub check_access : (ℕ → ℕ) → ℕ → Vma → ℕ → ℕ → Result Bool
check_access words pgtbl vma bad_addr code =
    let need : ℕ → Bool → Result Bool =
      λ flag cow. if bit_and vma.vm_flags flag == 0 then halted else ok cow in
    if code == inst_page_fault
    then need vm_exec false
    else if code == store_page_fault
    then need vm_write (is_cow words pgtbl bad_addr)
    else if code == load_page_fault
    then need vm_read false
    else ok false

-- The part of the segment that lies in the page of bad_addr is copied from the file.
unfoldable pub load_segment : (ℕ → ℕ) → Vma → ℕ → ℕ → ℕ → ℕ → ℕ
load_segment words vma ramdisk bad_addr page =
    let vpage_start = pgrounddown bad_addr in
    let vpage_end = pgrounddown ((bad_addr + pgsize) % word) in
    let vaddr_start = max vpage_start vma.vm_start in
    let vaddr_end = min vpage_end vma.vm_end in
    memcpy_bytes words (page + (vaddr_start - vpage_start))
      ((ramdisk + vma.vm_pgoff + (vaddr_start - vma.vm_start)) % word) (vaddr_end - vaddr_start)

unfoldable pub map_fresh : Vm → ℕ → Vma → ℕ → ℕ → ℕ → Option Vm
map_fresh s pgtbl vma ramdisk bad_addr page =
    let words =
      if bit_and vma.vm_flags vm_anon == 0
      then load_segment s.words vma ramdisk bad_addr page
      else s.words in
    create_mapping (record { words = words; frames = s.frames }) pgtbl (pgrounddown bad_addr)
      (va2pa page) pgsize (fault_perm vma.vm_flags)

-- alloc_page, and the branch; the result of alloc_page is not tested.
unfoldable pub map_fault : Vm → ℕ → Vma → ℕ → ℕ → Bool → Option Vm
map_fault s pgtbl vma ramdisk bad_addr cow = elim (alloc_page s.frames) [
  | none ↦ none
  | some (page, f) ↦
      if cow
      then copy_on_write (record s { frames = f }) pgtbl bad_addr vma.vm_flags page
      else map_fresh (record s { frames = f }) pgtbl vma ramdisk bad_addr page
]

unfoldable pub do_page_fault : Vm → ℕ → List Vma → ℕ → ℕ → ℕ → Result Vm
do_page_fault s pgtbl mmap ramdisk bad_addr scause = or_halted (find_vma mmap bad_addr) >>= λ vma.
    check_access s.words pgtbl vma bad_addr (bit_and scause 0x7fff_ffff) >>= λ cow.
    or_stuck (map_fault s pgtbl vma ramdisk bad_addr cow)
