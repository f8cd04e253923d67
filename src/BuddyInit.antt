-- ===== src/BuddyInit.antt =====
-- arch/riscv/kernel/mm.c: buddy_init. The two arrays lie behind the kernel, from the address of
-- _ekernel on, which is a parameter. BuddyInit/Fill treats the loop that fills
-- `bitmap`, BuddyInit/Reserve the frames of the kernel.
mod Fill
mod Reserve
mod Tests
use tiny_riscv_os.Prelude.{
  ℕ, zero, suc, ◌+◌, ◌-◌, ◌*◌, ◌/◌, ◌%◌, ◌^◌, Bool, true, false, Option, none, some, ltb,
  if◌then◌else◌, update,
}
use tiny_riscv_os.Buddy.{Buddy, word, is_power_of_2, fixsize, buddy_alloc}
use tiny_riscv_os.Mm.{pgsize, va2pa, pfn2phys}

abbrev pub phy_size : ℕ
phy_size = 128 * 1024 * 1024

-- The loop over the nodes of the tree, with n nodes left.
unfoldable pub fill_loop : ℕ → ℕ → ℕ → (ℕ → ℕ) → ℕ → ℕ
fill_loop zero i node_size bitmap = bitmap
fill_loop (suc n) i node_size bitmap =
    let size = if is_power_of_2 (i + 1) then node_size / 2 else node_size in
    fill_loop n (i + 1) size (update bitmap i size)

-- The loop over the frames below free_page_start, on fuel.
unfoldable pub reserve_loop : ℕ → ℕ → ℕ → Buddy → Option Buddy
reserve_loop zero pfn free_page_start s = none
reserve_loop (suc fuel) pfn free_page_start s =
    let reserved : Option Buddy = elim (buddy_alloc s 1) [
      | none ↦ none
      | some (r, s') ↦ reserve_loop fuel (pfn + 1) free_page_start s'
    ] in
    if ltb (pfn2phys pfn) (va2pa free_page_start) then reserved else some s

unfoldable pub buddy_size : ℕ
buddy_size = let size = phy_size / pgsize in if is_power_of_2 size then size else fixsize size

-- free_page_start behind the two arrays.
unfoldable pub arrays_end : ℕ → ℕ
arrays_end ekernel = (ekernel + 2 * buddy_size * 8 + buddy_size * 8) % word

unfoldable pub buddy_init : ℕ → ℕ → Option Buddy
buddy_init fuel ekernel = reserve_loop fuel 0 (arrays_end ekernel) (record {
  size = buddy_size;
  bitmap = fill_loop (2 * buddy_size - 1) 0 (buddy_size * 2) (λ i. 0);
  ref_cnt = λ i. 0;
})
