-- ===== src/Vm/Tests.antt =====
-- Runs of arch/riscv/kernel/vm.c on a memory of four frames: frame 0 holds the root of the page
-- table and is in use.
use tiny_riscv_os.Prelude.{ℕ, ◌+◌, ◌≡◌, ◌≢◌, refl, Option, none, some, List, [], ◌∷◌, update, arith}
use tiny_riscv_os.Buddy.{Buddy, is_power_of_2, round_pages, descend, climb_loop, buddy_alloc}
use tiny_riscv_os.Mm.{pgsize, pa2va, pfn2phys, alloc_pages, alloc_page, kalloc}
use tiny_riscv_os.Vm.{
  Vm, Vma, ppn_field, entry, vpn, next_table, create_mapping, create_pte, do_mmap,
}
use tiny_riscv_os.Vm.Entry.{IsTable}
use tiny_riscv_os.Vm.Mapping.{Mapped, find_pte-create_mapping}

abbrev boot_frames : Buddy
boot_frames = record {
  size = 4;
  bitmap = update (update (update (λ _. 1) 0 2) 2 2) 3 0;
  ref_cnt = update (λ _. 0) 0 1;
}

-- No frame is free.
abbrev full_frames : Buddy
full_frames = record { size = 4; bitmap = λ _. 0; ref_cnt = λ _. 1 }

abbrev boot : Buddy → Vm
boot frames = record { words = λ _. 0; frames = frames }

abbrev root : ℕ
root = 0xffff_ffe0_0000_0000

abbrev after : Option (ℕ × Vm) → Vm
after none = boot boot_frames
after (some (table, s)) = s

abbrev middle : Vm
middle = after (next_table (boot boot_frames) (entry root (vpn 2 0x3000)))

abbrev lower : Vm
lower = after (next_table middle (entry (root + 0x1000) (vpn 1 0x3000)))

create_pte_kernel : create_pte 0x8000_0000 ≡ 0x2000_00cf
unfolding create_pte ppn_field
create_pte_kernel = refl

first_table :
    next_table (boot boot_frames) (entry root (vpn 2 0x3000)) ≡ some (root + 0x1000, middle)
unfolding next_table kalloc alloc_page alloc_pages buddy_alloc round_pages is_power_of_2 descend
    climb_loop pa2va pfn2phys entry vpn
first_table = refl

second_table :
    next_table middle (entry (root + 0x1000) (vpn 1 0x3000)) ≡ some (root + 0x2000, lower)
unfolding next_table kalloc alloc_page alloc_pages buddy_alloc round_pages is_power_of_2 descend
    climb_loop pa2va pfn2phys entry vpn
second_table = refl

IsTable-one : IsTable (root + 0x1000)
unfolding pa2va
IsTable-one = (0x8_0001, omega arith, refl)

IsTable-two : IsTable (root + 0x2000)
unfolding pa2va
IsTable-two = (0x8_0002, omega arith, refl)

entries-apart :
    (entry root (vpn 2 0x3000) ≢ entry (root + 0x1000) (vpn 1 0x3000))
    × (entry root (vpn 2 0x3000) ≢ entry (root + 0x2000) (vpn 0 0x3000))
    × (entry (root + 0x1000) (vpn 1 0x3000) ≢ entry (root + 0x2000) (vpn 0 0x3000))
unfolding entry vpn
entries-apart = (omega arith, omega arith, omega arith)

find_pte-create_mapping_example :
    (s' : Vm) × (create_mapping (boot boot_frames) root 0x3000 0x8000_3000 pgsize 0xcf ≡ some s')
    × Mapped (boot boot_frames) s' root 0x3000 0x8000_3000 0xcf (root + 0x1000) (root + 0x2000)
find_pte-create_mapping_example =
    find_pte-create_mapping (boot boot_frames) middle lower root 0x3000 0x8000_3000 0xcf
      (root + 0x1000) (root + 0x2000) (omega arith) (omega arith) (omega arith) first_table
      second_table (omega arith) (omega arith) IsTable-one IsTable-two entries-apart.0
      entries-apart.1 entries-apart.2

no_page : kalloc full_frames ≡ some (0, full_frames)
unfolding kalloc alloc_page alloc_pages buddy_alloc round_pages is_power_of_2
no_page = refl

abbrev code : Vma
code = record { vm_start = 0; vm_end = 0x1000; vm_flags = 10; vm_pgoff = 0; vm_filesz = 0x800 }

abbrev grown : Option (Buddy × List Vma × ℕ) → Buddy
grown none = boot_frames
grown (some (f, vs, start)) = f

abbrev stack : Vma
stack = record { vm_start = 0x2000; vm_end = 0x3000; vm_flags = 7; vm_pgoff = 0; vm_filesz = 0 }

stack_mapped :
    do_mmap boot_frames (code ∷ []) 0x2000 0x1000 0 0 7
    ≡ some (grown (do_mmap boot_frames (code ∷ []) 0x2000 0x1000 0 0 7), stack ∷ code ∷ [], 0x2000)
unfolding do_mmap kalloc alloc_page alloc_pages buddy_alloc round_pages is_power_of_2 descend
    climb_loop pa2va pfn2phys
stack_mapped = refl
