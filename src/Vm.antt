-- ===== src/Vm.antt =====
-- arch/riscv/kernel/vm.c: the page tables, as words in memory that the kernel reaches by address,
-- and the list of virtual memory areas. The log calls have no effect here.
-- Entry treats table entries and one walk, Mapping create_mapping on a page, Remap on a
-- page whose tables are there, Area the list of areas.
pub mod Entry
mod Mapping
pub mod Remap
pub mod Area
mod Tests
use tiny_riscv_os.Prelude.{
  ℕ, zero, suc, ◌+◌, ◌-◌, ◌*◌, ◌/◌, ◌%◌, ◌^◌, Bool, true, false, Option, none, some, List, [], ◌∷◌,
  ltb, leb, ◌&&◌, ◌==◌, if◌then◌else◌, update, bit_and, bit_or,
}
use tiny_riscv_os.Buddy.{Buddy, word}
use tiny_riscv_os.Mm.{phy_start, vm_start, pa2va, va2pa, pgsize, kalloc}

abbrev pub perm_v : ℕ
perm_v = 0b1

abbrev pub perm_r : ℕ
perm_r = 0b10

abbrev pub perm_w : ℕ
perm_w = 0b100

abbrev pub perm_x : ℕ
perm_x = 0b1000

abbrev pub perm_a : ℕ
perm_a = 0b100_0000

abbrev pub perm_d : ℕ
perm_d = 0b1000_0000

abbrev pub ppn_mask : ℕ
ppn_mask = 0xfff_ffff_ffff

-- Memory as 64-bit words by address, and the state of the page allocator.
pub record Vm : Type 0 where
  pub words : ℕ → ℕ
  pub frames : Buddy

-- `((pa >> 12) & PPN_MASK) << 10`
unfoldable pub ppn_field : ℕ → ℕ
ppn_field pa = bit_and (pa / 2 ^ 12) ppn_mask * 2 ^ 10 % word

unfoldable pub create_pte : ℕ → ℕ
create_pte pa =
    bit_or
      (bit_or (bit_or (bit_or (bit_or (bit_or (ppn_field pa) perm_a) perm_d) perm_x) perm_r) perm_w)
      perm_v

-- The index of a level: `(va >> 12) & 0x1ff` at level 0, and 9 bits more for each level.
unfoldable pub vpn : ℕ → ℕ → ℕ
vpn level va = bit_and (va / 2 ^ (12 + 9 * level)) 0x1ff

-- `&table[i]`
unfoldable pub entry : ℕ → ℕ → ℕ
entry table i = (table + 8 * i) % word

-- `(((w >> 10) & PPN_MASK) << 12) + PA2VA_OFFSET`
unfoldable pub table_at : ℕ → ℕ
table_at w = pa2va (bit_and (w / 2 ^ 10) ppn_mask * 2 ^ 12 % word)

-- The table below an entry, which a fresh page becomes if the entry is not valid. The entry is
-- stored even where kalloc returned 0.
unfoldable pub next_table : Vm → ℕ → Option (ℕ × Vm)
next_table s at =
    if bit_and (s.words at) perm_v == 0
    then elim (kalloc s.frames) [
      | none ↦ none
      | some (table, f) ↦ some (
        table,
        record { words = update s.words at (bit_or (ppn_field (va2pa table)) perm_v); frames = f },
      )
    ]
    else some (table_at (s.words at), s)

-- `pte[vpn[0]] = (cur_ppn << 10) | perm`
unfoldable pub store_leaf : Vm → ℕ → ℕ → ℕ → Vm
store_leaf s at pa perm = record s { words = update s.words at (bit_or (ppn_field pa) perm) }

-- The second half of a round: below the table of the middle level.
unfoldable pub map_below : Vm → ℕ → ℕ → ℕ → ℕ → Option (Bool × Vm)
map_below s pmd va pa perm =
    if pmd == 0 then some (false, s) else elim (next_table s (entry pmd (vpn 1 va))) [
      | none ↦ none
      | some (pte, s') ↦
          if pte == 0
          then some (false, s')
          else some (true, store_leaf s' (entry pte (vpn 0 va)) pa perm)
    ]

-- A round of create_mapping; false where it returns, since a table could not be allocated.
unfoldable pub map_page : Vm → ℕ → ℕ → ℕ → ℕ → Option (Bool × Vm)
map_page s pgtbl va pa perm = elim (next_table s (entry pgtbl (vpn 2 va))) [
  | none ↦ none
  | some (pmd, s') ↦ map_below s' pmd va pa perm
]

-- The rounds at `offset`, `offset + PGSIZE`, ... while the offset is below `sz`, on fuel.
unfoldable pub mapping_loop : ℕ → Vm → ℕ → ℕ → ℕ → ℕ → ℕ → ℕ → Option Vm
mapping_loop zero s pgtbl va pa offset sz perm = none
mapping_loop (suc fuel) s pgtbl va pa offset sz perm =
    if ltb offset sz
    then elim (map_page s pgtbl ((va + offset) % word) ((pa + offset) % word) perm) [
      | none ↦ none
      | some (false, s') ↦ some s'
      | some (true, s') ↦ mapping_loop fuel s' pgtbl va pa (offset + pgsize) sz perm
    ]
    else some s

unfoldable pub create_mapping : Vm → ℕ → ℕ → ℕ → ℕ → ℕ → Option Vm
create_mapping s pgtbl va pa sz perm = mapping_loop (sz / pgsize + 2) s pgtbl va pa 0 sz perm

-- The address of the entry for a page, or 0.
unfoldable pub find_pte : (ℕ → ℕ) → ℕ → ℕ → ℕ
find_pte words pgtbl va =
    let top = words (entry pgtbl (vpn 2 va)) in
    if bit_and top perm_v == 0
    then 0
    else let middle = words (entry (table_at top) (vpn 1 va)) in
      if bit_and middle perm_v == 0 then 0 else entry (table_at middle) (vpn 0 va)

-- A virtual memory area; the list is in the order of vm_next.
pub record Vma : Type 0 where
  pub vm_start : ℕ
  pub vm_end : ℕ
  pub vm_flags : ℕ
  pub vm_pgoff : ℕ
  pub vm_filesz : ℕ

unfoldable pub find_vma : List Vma → ℕ → Option Vma
find_vma [] addr = none
find_vma (v ∷ vs) addr =
    let rest = find_vma vs addr in if leb v.vm_start addr && ltb addr v.vm_end then some v else rest

-- The new area goes to the head of the list; a page is allocated for it. Where kalloc returns 0
-- the kernel halts in Err, which is the result none.
unfoldable pub do_mmap : Buddy → List Vma → ℕ → ℕ → ℕ → ℕ → ℕ → Option (Buddy × List Vma × ℕ)
do_mmap frames mmap addr len vm_pgoff vm_filesz vm_flags = elim (kalloc frames) [
  | none ↦ none
  | some (page, f) ↦
      let vma : Vma = record {
        vm_start = addr;
        vm_end = (addr + len) % word;
        vm_flags = vm_flags;
        vm_pgoff = vm_pgoff;
        vm_filesz = vm_filesz;
      } in
      if page == 0 then none else some (f, vma ∷ mmap, addr)
]
