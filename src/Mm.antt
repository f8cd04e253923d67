-- ===== src/Mm.antt =====
-- arch/riscv/kernel/mm.c: page frames by address and by number, reference counts, and kalloc.
-- An address is a 64-bit word; differences and sums wrap. The log calls have no effect here.
pub mod Counts
pub mod Address
mod Tests
use tiny_riscv_os.Prelude.{
  ℕ, ◌+◌, ◌-◌, ◌*◌, ◌/◌, ◌%◌, ◌^◌, Option, none, some, ltb, ◌==◌, if◌then◌else◌, update,
}
use tiny_riscv_os.Buddy.{Buddy, word, buddy_alloc, buddy_free}

abbrev pub phy_start : ℕ
phy_start = 0x8000_0000

abbrev pub vm_start : ℕ
vm_start = 0xffff_ffe0_0000_0000

abbrev pub pa2va_offset : ℕ
pa2va_offset = vm_start - phy_start

abbrev pub pgsize : ℕ
pgsize = 0x1000

unfoldable pub va2pa : ℕ → ℕ
va2pa x = (x + word - pa2va_offset) % word

unfoldable pub pa2va : ℕ → ℕ
pa2va x = (x + pa2va_offset) % word

unfoldable pub pfn2phys : ℕ → ℕ
pfn2phys x = (x * 2 ^ 12 % word + phy_start) % word

unfoldable pub phys2pfn : ℕ → ℕ
phys2pfn x = (x + word - phy_start) % word / 2 ^ 12

unfoldable pub page_ref_inc : Buddy → ℕ → Buddy
page_ref_inc s pfn = record s { ref_cnt = update s.ref_cnt pfn ((s.ref_cnt pfn + 1) % word) }

-- A count of 0 is left alone, but the page is freed once more.
unfoldable pub page_ref_dec : Buddy → ℕ → Buddy
page_ref_dec s pfn =
    let s' =
      if ltb 0 (s.ref_cnt pfn)
      then record s { ref_cnt = update s.ref_cnt pfn (s.ref_cnt pfn - 1) }
      else s in
    if s'.ref_cnt pfn == 0 then buddy_free s' pfn else s'

-- The result is 1 if the page is not allocated.
unfoldable pub get_page : Buddy → ℕ → Buddy × ℕ
get_page s va =
    let pfn = phys2pfn (va2pa va) in if s.ref_cnt pfn == 0 then (s, 1) else (page_ref_inc s pfn, 0)

unfoldable pub get_page_refcnt : Buddy → ℕ → ℕ
get_page_refcnt s va = s.ref_cnt (phys2pfn (va2pa va))

unfoldable pub put_page : Buddy → ℕ → Buddy
put_page s va = page_ref_dec s (phys2pfn (va2pa va))

-- The address, with 0 where frame 0 came back, which stands for failure.
unfoldable pub alloc_pages : Buddy → ℕ → Option (ℕ × Buddy)
alloc_pages s nrpages = elim (buddy_alloc s nrpages) [
  | none ↦ none
  | some (pfn, s') ↦ some (if pfn == 0 then 0 else pa2va (pfn2phys pfn), s')
]

unfoldable pub alloc_page : Buddy → Option (ℕ × Buddy)
alloc_page s = alloc_pages s 1

unfoldable pub free_pages : Buddy → ℕ → Buddy
free_pages s va = buddy_free s (phys2pfn (va2pa va))

unfoldable pub kalloc : Buddy → Option (ℕ × Buddy)
kalloc s = alloc_page s

unfoldable pub kfree : Buddy → ℕ → Buddy
kfree s addr = free_pages s addr
