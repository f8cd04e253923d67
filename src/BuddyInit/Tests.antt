-- ===== src/BuddyInit/Tests.antt =====
-- The rounding of a request, and buddy_init of arch/riscv/kernel/mm.c for a kernel that ends 2 MiB
-- and 128 KiB into memory.
use tiny_riscv_os.Prelude.{ℕ, ◌^◌, ◌<◌, ◌≡◌, some, ltb, arith}
use tiny_riscv_os.Buddy.{Buddy, round_pages}
use tiny_riscv_os.Buddy.Round.{doubled_to, round_pages-doubled_to}
use tiny_riscv_os.Buddy.Tree.{Tree, is_used}
use tiny_riscv_os.Buddy.State.{Represents}
use tiny_riscv_os.Mm.{va2pa, pfn2phys}
use tiny_riscv_os.BuddyInit.{arrays_end, buddy_init}
use tiny_riscv_os.BuddyInit.Reserve.{buddy_init-Represents}

abbrev kernel_end : ℕ
kernel_end = 0xffff_ffe0_0022_0000

buddy_init-Represents_example :
    (s : Buddy) × (t : Tree) × (buddy_init 40000 kernel_end ≡ some s)
    × Represents s 15 t
    × ((p : ℕ) → p < 2 ^ 15 → is_used 15 t p ≡ ltb (pfn2phys p) (va2pa (arrays_end kernel_end)))
buddy_init-Represents_example =
    buddy_init-Represents 40000 kernel_end (omega arith) (omega arith) (omega arith)

round_pages-doubled_to_example : round_pages 0x1_0000_0001 ≡ doubled_to 63 1 0x1_0000_0001
round_pages-doubled_to_example = round_pages-doubled_to 0x1_0000_0001 (omega arith)
