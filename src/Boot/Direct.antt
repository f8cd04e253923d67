-- ===== src/Boot/Direct.antt =====
-- arch/riscv/kernel/vm.c: the early page table of setup_vm.
use tiny_riscv_os.Prelude.{
  ℕ, ◌+◌, ◌*◌, ◌/◌, ◌%◌, ◌^◌, ◌≤◌, ◌<◌, ◌≡◌, ◌≢◌, refl, ap, some, update, update_self, update_ne,
  bit_and, arith,
}
use tiny_riscv_os.Mm.{phy_start, vm_start, va2pa}
use tiny_riscv_os.BuddyInit.{phy_size}
use tiny_riscv_os.Vm.{ppn_mask, ppn_field, create_pte, vpn, entry}
use tiny_riscv_os.Boot.{huge_page, setup_vm_loop, setup_vm}

-- The physical address that an entry of the top level gives if it is a leaf: a page of 1 GiB.
abbrev pub huge_pa : ℕ → ℕ → ℕ
huge_pa w va = bit_and (w / 2 ^ 10) ppn_mask * 2 ^ 12 + va % huge_page

top_index : (va : ℕ) → vm_start ≤ va → va < vm_start + phy_size → vpn 2 va ≡ 384
unfolding vpn
top_index va l u =
    let e : va / 2 ^ 30 ≡ vm_start / 2 ^ 30 = omega arith in ap (λ (t : ℕ). bit_and t 0x1ff) e

-- setup_vm ends, and changes one word of the early table: every address of the direct map then goes by
-- a valid entry, with all permissions, to its physical address.
pub setup_vm_lem :
    (words : ℕ → ℕ) (early_pgtbl : ℕ)
    → (words' : ℕ → ℕ) × (setup_vm words early_pgtbl ≡ some words')
      × ((va : ℕ)
          → vm_start ≤ va
          → va < vm_start + phy_size
          → (bit_and (words' (entry early_pgtbl (vpn 2 va))) 0xf ≡ 0xf)
            × (huge_pa (words' (entry early_pgtbl (vpn 2 va))) va ≡ va2pa va))
      × ((a : ℕ) → entry early_pgtbl 384 ≢ a → words' a ≡ words a)
unfolding setup_vm setup_vm_loop create_pte ppn_field va2pa
setup_vm_lem words early_pgtbl =
    let at = entry early_pgtbl 384 in
    (
      update words at (create_pte phy_start),
      refl,
      (λ va l u.
          let index = top_index va l u in
          let found : update words at (create_pte phy_start) (entry early_pgtbl (vpn 2 va))
              ≡ create_pte phy_start =
            rw index (update_self words at (create_pte phy_start)) in
          (rw found refl, rw found (omega arith))),
      λ a ne. update_ne words at (create_pte phy_start) a ne,
    )
