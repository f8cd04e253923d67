-- ===== src/Boot.antt =====
-- arch/riscv/kernel/vm.c and arch/riscv/kernel/mm.c: what the kernel does with its page tables before
-- the first task. The addresses of the linker's symbols are parameters. Boot/Direct holds the proof on
-- the early page table.
mod Direct
mod Tests
use tiny_riscv_os.Prelude.{
  ℕ, zero, suc, ◌+◌, ◌-◌, ◌*◌, ◌/◌, ◌%◌, ◌^◌, Option, none, some, ltb, leb, ◌&&◌, if◌then◌else◌,
  update, bit_and, bit_or,
}
use tiny_riscv_os.Result.{Result, ok, ◌>>=◌, or_stuck}
use tiny_riscv_os.Buddy.{Buddy, word}
use tiny_riscv_os.Mm.{phy_start, vm_start, pgsize, va2pa, kfree}
use tiny_riscv_os.BuddyInit.{phy_size, buddy_init}
use tiny_riscv_os.Vm.{
  Vm, perm_v, perm_r, perm_w, perm_x, perm_a, perm_d, ppn_mask, create_pte, entry, create_mapping,
}
use tiny_riscv_os.Virtio.{virtio_start, virtio_size, virtio_count, io_to_virt}

abbrev pub huge_page : ℕ
huge_page = 0x4000_0000

-- The loop of setup_vm from i on, on fuel; identity_vpn is only printed.
unfoldable pub setup_vm_loop : ℕ → (ℕ → ℕ) → ℕ → ℕ → Option (ℕ → ℕ)
setup_vm_loop zero words early_pgtbl i = none
setup_vm_loop (suc fuel) words early_pgtbl i =
    let direct_map_vpn = bit_and ((vm_start + i) % word / 2 ^ 30) 0x1ff in
    let rest =
      setup_vm_loop fuel
        (update words (entry early_pgtbl direct_map_vpn) (create_pte (phy_start + i))) early_pgtbl
        (i + huge_page) in
    if ltb i phy_size then rest else some words

unfoldable pub setup_vm : (ℕ → ℕ) → ℕ → Option (ℕ → ℕ)
setup_vm words early_pgtbl = setup_vm_loop (phy_size / huge_page + 2) words early_pgtbl 0

-- The linker's symbols that setup_vm_final uses.
pub record Sections : Type 0 where
  pub stext : ℕ
  pub etext : ℕ
  pub srodata : ℕ
  pub erodata : ℕ
  pub sdata : ℕ
  pub edata : ℕ
  pub sbss : ℕ
  pub ebss : ℕ
  pub ekernel : ℕ
  pub sramdisk : ℕ
  pub eramdisk : ℕ

-- A section with its size, at its own place in the direct map.
abbrev pub map_section : ℕ → Vm → ℕ → ℕ → ℕ → Result Vm
map_section pgtbl s start end perm =
    or_stuck (create_mapping s pgtbl start (va2pa start) ((end + word - start) % word) perm)

-- memset of a page of words to 0.
unfoldable pub clear_page : (ℕ → ℕ) → ℕ → ℕ → ℕ
clear_page words page a = if leb page a && ltb a (page + pgsize) then 0 else words a

-- The state, and what is stored in satp.
unfoldable pub setup_vm_final : Sections → Vm → ℕ → Result (Vm × ℕ)
setup_vm_final y s swapper_pg_dir =
    let text = bit_or (bit_or (bit_or perm_a perm_x) perm_r) perm_v in
    let rodata = bit_or (bit_or perm_a perm_r) perm_v in
    let writable = bit_or (bit_or (bit_or perm_a perm_w) perm_r) perm_v in
    let dirty = bit_or (bit_or (bit_or (bit_or perm_a perm_d) perm_w) perm_r) perm_v in
    let ramdisk = bit_or (bit_or (bit_or (bit_or perm_a perm_r) perm_w) perm_x) perm_v in
    let s0 : Vm = record s { words = clear_page s.words swapper_pg_dir } in
    let rest_end =
      (y.ekernel + (phy_size + word - (va2pa y.ekernel + word - phy_start) % word)) % word in
    map_section swapper_pg_dir s0 y.stext y.etext text >>= λ s1.
    map_section swapper_pg_dir s1 y.srodata y.erodata rodata >>= λ s2.
    map_section swapper_pg_dir s2 y.sdata y.edata writable >>= λ s3.
    map_section swapper_pg_dir s3 y.sbss y.ebss dirty >>= λ s4.
    map_section swapper_pg_dir s4 y.ekernel rest_end dirty >>= λ s5.
    map_section swapper_pg_dir s5 y.sramdisk y.eramdisk ramdisk >>= λ s6.
    or_stuck (
      create_mapping s6 swapper_pg_dir (io_to_virt virtio_start) virtio_start
        (virtio_size * virtio_count) writable)
    >>= λ s7. ok (s7, bit_or (8 * 2 ^ 60) (bit_and (va2pa swapper_pg_dir / 2 ^ 12) ppn_mask))

-- `(addr + PGSIZE - 1) & ~(PGSIZE - 1)`
abbrev pub pgroundup : ℕ → ℕ
pgroundup addr = (addr + pgsize - 1) % word / pgsize * pgsize

-- The loop of kfreerange, on fuel.
unfoldable pub kfreerange_loop : ℕ → Buddy → ℕ → ℕ → Option Buddy
kfreerange_loop zero s addr end = none
kfreerange_loop (suc fuel) s addr end =
    let rest = kfreerange_loop fuel (kfree s addr) ((addr + pgsize) % word) end in
    if leb ((addr + pgsize) % word) end then rest else some s

unfoldable pub kfreerange : ℕ → Buddy → ℕ → ℕ → Option Buddy
kfreerange fuel s start end = kfreerange_loop fuel s (pgroundup start) end

abbrev pub mm_init : ℕ → ℕ → Option Buddy
mm_init = buddy_init
