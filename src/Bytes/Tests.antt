-- ===== src/Bytes/Tests.antt =====
-- Runs of lib/string.c on a memory that holds 7, 6, ..., 1, 0, 0, ...
use tiny_riscv_os.Prelude.{negsuc, ◌+◌, ◌-◌, ◌≡◌, refl}
use tiny_riscv_os.Bytes.{Bytes, memcpy, memmove, memcmp, memcpy_loop, memmove_back, memcmp_loop}
use tiny_riscv_os.Bytes.Copy.{overwritten, memmove_lem}

abbrev countdown : Bytes
countdown a = 7 - a

memmove_lem_example :
    memmove countdown 2 1 4 5 ≡ overwritten countdown 2 4 (λ j. countdown (1 + j)) 5
memmove_lem_example = memmove_lem countdown 2 1 4 5

-- memcpy forward into its own source repeats the first byte, where memmove does not.
memcpy_overlap : (memcpy countdown 2 1 4 5 ≡ 6) × (memmove countdown 2 1 4 5 ≡ 3)
unfolding memcpy memcpy_loop memmove memmove_back
memcpy_overlap = (refl, refl)

memcmp_smaller : memcmp countdown 4 2 3 ≡ negsuc 0
unfolding memcmp memcmp_loop
memcmp_smaller = refl
