-- ===== src/Boot/Tests.antt =====
-- The early page table of arch/riscv/kernel/vm.c, at one place.
use tiny_riscv_os.Prelude.{ℕ, ◌+◌, ◌≤◌, ◌<◌, ◌≡◌, ◌≢◌, some, bit_and}
use tiny_riscv_os.Mm.{vm_start, va2pa}
use tiny_riscv_os.BuddyInit.{phy_size}
use tiny_riscv_os.Vm.{vpn, entry}
use tiny_riscv_os.Boot.{setup_vm}
use tiny_riscv_os.Boot.Direct.{huge_pa, setup_vm_lem}

setup_vm_lem_example :
    (words' : ℕ → ℕ) × (setup_vm (λ a. 0) 0x8020_1000 ≡ some words')
    × ((va : ℕ)
        → vm_start ≤ va
        → va < vm_start + phy_size
        → (bit_and (words' (entry 0x8020_1000 (vpn 2 va))) 0xf ≡ 0xf)
          × (huge_pa (words' (entry 0x8020_1000 (vpn 2 va))) va ≡ va2pa va))
    × ((a : ℕ) → entry 0x8020_1000 384 ≢ a → words' a ≡ 0)
setup_vm_lem_example = setup_vm_lem (λ a. 0) 0x8020_1000
