-- ===== src/Rand/Tests.antt =====
-- Runs of lib/rand.c.
use tiny_riscv_os.Prelude.{◌≡◌, refl}
use tiny_riscv_os.Rand.{srand}

boot_seed : srand 2024 ≡ 2023
unfolding srand
boot_seed = refl
