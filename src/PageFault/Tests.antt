-- ===== src/PageFault/Tests.antt =====
-- A copy on write (arch/riscv/kernel/vm.c) of the page at 0x1000.
use tiny_riscv_os.Prelude.{
  ℕ, false, ◌≤◌, ◌-◌, ◌%◌, none, Option, [], ◌∷◌, bit_and, ◌+◌, ◌<◌, ◌≡◌, ◌≢◌, refl, inl, some,
  ◌==◌, if◌then◌else◌, bit_or, arith,
}
use tiny_riscv_os.Buddy.{Buddy, is_power_of_2, round_pages, descend, climb_loop, buddy_alloc}
use tiny_riscv_os.Mm.{pa2va, pgsize, va2pa, put_page, pfn2phys, alloc_pages, alloc_page}
use tiny_riscv_os.WordMemory.{byte_at}
use tiny_riscv_os.Result.{ok}
use tiny_riscv_os.Vm.{Vm, Vma, find_vma, ppn_field, entry, vpn, table_at}
use tiny_riscv_os.Vm.Entry.{Leads}
use tiny_riscv_os.PageFault.{pgrounddown, fault_perm, check_access, copy_on_write, do_page_fault}
use tiny_riscv_os.PageFault.Fresh.{IsOffPage8, Served, do_page_fault-file}
use tiny_riscv_os.PageFault.Permitted.{Permitted, do_page_fault-Permitted}
use tiny_riscv_os.PageFault.Copy.{IsOffPage, copy_on_write_lem}

abbrev table_0 : ℕ
table_0 = 0xffff_ffe0_0000_1000

abbrev table_1 : ℕ
table_1 = 0xffff_ffe0_0000_2000

abbrev table_2 : ℕ
table_2 = 0xffff_ffe0_0000_3000

-- The old page is at physical address 0x80004000, and not writable.
abbrev words : ℕ → ℕ
words a =
    if a == table_0
    then 0x2000_0801
    else if a == table_1
    then 0x2000_0c01
    else if a == table_2 + 8
    then 0x2000_1013
    else 0

abbrev vm : Vm
vm = record { words = words; frames = record { size = 8; bitmap = λ i. 0; ref_cnt = λ i. 2 } }

abbrev new_page : ℕ
new_page = 0xffff_ffe0_0000_5000

top : Leads words (entry table_0 (vpn 2 0x1000)) table_1
unfolding entry vpn table_at pa2va
top = (refl, refl)

middle : Leads words (entry table_1 (vpn 1 0x1000)) table_2
unfolding entry vpn table_at pa2va
middle = (refl, refl)

top_off : IsOffPage new_page (entry table_0 (vpn 2 0x1000))
unfolding entry vpn
top_off = inl (omega arith)

middle_off : IsOffPage new_page (entry table_1 (vpn 1 0x1000))
unfolding entry vpn
middle_off = inl (omega arith)

last_off : IsOffPage new_page (entry table_2 (vpn 0 0x1000))
unfolding entry vpn
last_off = inl (omega arith)

copy_on_write_lem_example :
    (s' : Vm) × (leaf src : ℕ) × (leaf ≡ entry table_2 (vpn 0 0x1000))
    × (src ≡ table_at (words leaf))
    × (copy_on_write vm table_0 0x1234 6 new_page ≡ some s')
    × (s'.frames ≡ put_page vm.frames src)
    × (s'.words leaf ≡ bit_or (ppn_field (va2pa new_page)) (fault_perm 6))
    × ((j : ℕ) → j < pgsize → s'.words (new_page + j) ≡ words (src + j))
    × ((a : ℕ) → leaf ≢ a → IsOffPage new_page a → s'.words a ≡ words a)
copy_on_write_lem_example =
    copy_on_write_lem vm table_0 0x1234 6 new_page table_1 table_2 (omega arith) top middle
      (omega arith) (omega arith) top_off middle_off last_off

-- Frame 5 of 8 is free.
abbrev one_free : Buddy
one_free = record {
  size = 8;
  bitmap = λ i.
      if i == 0 then 1 else if i == 2 then 1 else if i == 5 then 1 else if i == 12 then 1 else 0;
  ref_cnt = λ i. 0;
}

abbrev start : Vm
start = record { words = words; frames = one_free }

-- Readable and executable, from the start of the file.
abbrev code : Vma
code = record { vm_start = 0x1000; vm_end = 0x2000; vm_flags = 10; vm_pgoff = 0; vm_filesz = 0x800 }

abbrev ramdisk : ℕ
ramdisk = 0xffff_ffe0_0010_0000

abbrev taken : Option (ℕ × Buddy) → Buddy
taken none = one_free
taken (some (page, f)) = f

fifth_page : alloc_page one_free ≡ some (new_page, taken (alloc_page one_free))
unfolding alloc_page alloc_pages buddy_alloc round_pages is_power_of_2 descend climb_loop pa2va
    pfn2phys
fifth_page = refl

code_found : find_vma (code ∷ []) 0x1234 ≡ some code
unfolding find_vma
code_found = refl

may_read : check_access words table_0 code 0x1234 (bit_and 13 0x7fff_ffff) ≡ ok false
unfolding check_access
may_read = refl

far_2 : IsOffPage8 new_page (entry table_0 (vpn 2 0x1000))
unfolding entry vpn
far_2 = inl (omega arith)

far_1 : IsOffPage8 new_page (entry table_1 (vpn 1 0x1000))
unfolding entry vpn
far_1 = inl (omega arith)

far_0 : IsOffPage8 new_page (entry table_2 (vpn 0 0x1000))
unfolding entry vpn
far_0 = inl (omega arith)

do_page_fault-file_example :
    (s' : Vm) × (do_page_fault start table_0 (code ∷ []) ramdisk 0x1234 13 ≡ ok s')
    × (s'.frames ≡ taken (alloc_page one_free))
    × Served start s' 0x1234 10 new_page (entry table_2 (vpn 0 0x1000))
    × ((va : ℕ)
        → pgrounddown va ≡ 0x1000
        → 0x1000 ≤ va
        → va < 0x2000
        → byte_at s'.words (new_page + va % pgsize) ≡ byte_at words (ramdisk + 0 + (va - 0x1000)))
do_page_fault-file_example =
    do_page_fault-file start table_0 (code ∷ []) ramdisk 0x1234 13 code new_page
      (taken (alloc_page one_free)) table_1 table_2 (omega arith) code_found (omega arith)
      (omega arith) refl may_read fifth_page top middle (omega arith) (omega arith) far_2 far_1
      far_0

served : (s' : Vm) × (do_page_fault start table_0 (code ∷ []) ramdisk 0x1234 13 ≡ ok s')
served =
    let (s', e, frames, walk, bytes) =
      do_page_fault-file start table_0 (code ∷ []) ramdisk 0x1234 13 code new_page
        (taken (alloc_page one_free)) table_1 table_2 (omega arith) code_found (omega arith)
        (omega arith) refl may_read fifth_page top middle (omega arith) (omega arith) far_2 far_1
        far_0 in
    (s', e)

do_page_fault-Permitted_example : Permitted (code ∷ []) 0x1234 (bit_and 13 0x7fff_ffff)
do_page_fault-Permitted_example =
    do_page_fault-Permitted start served.0 table_0 (code ∷ []) ramdisk 0x1234 13 served.1
