-- ===== src/Rand.antt =====
-- lib/rand.c: the linear congruential generator, and the priorities that task_init of
-- arch/riscv/kernel/proc.c draws from it.
mod Tests
use tiny_riscv_os.Prelude.{
  ℕ, zero, suc, ◌+◌, ◌-◌, ◌*◌, ◌/◌, ◌%◌, ◌^◌, ◌≤◌, ◌<◌, ◌≡◌, ◌≢◌, refl, arith,
}

-- `seed = s - 1`, an unsigned int widened to 64 bits.
unfoldable pub srand : ℕ → ℕ
srand s = (s + 2 ^ 32 - 1) % 2 ^ 32

-- The new seed and the result, which the shift keeps below 2^31, so that it is not negative as an
-- int.
unfoldable pub rand : ℕ → ℕ × ℕ
rand seed = let seed' = (6364136223846793005 * seed + 1) % 2 ^ 64 in (seed', seed' / 2 ^ 33)

abbrev pub priority_min : ℕ
priority_min = 1

abbrev pub priority_max : ℕ
priority_max = 10

-- `(rand() % (PRIORITY_MAX - PRIORITY_MIN + 1)) + PRIORITY_MIN`
unfoldable pub random_priority : ℕ → ℕ × ℕ
random_priority seed =
    let (seed', r) = rand seed in (seed', r % (priority_max - priority_min + 1) + priority_min)

-- A priority lies between PRIORITY_MIN and PRIORITY_MAX, and the seed stays a 64-bit word.
pub random_priority_bounds :
    (seed : ℕ)
    → (priority_min ≤ (random_priority seed).1)
      × ((random_priority seed).1 ≤ priority_max)
      × ((random_priority seed).0 < 2 ^ 64)
unfolding random_priority rand
random_priority_bounds seed = omega arith

-- rand steps from different seeds to different seeds: on 64-bit words the generator loses none.
pub rand-injective : (a b : ℕ) → a < 2 ^ 64 → b < 2 ^ 64 → (rand a).0 ≡ (rand b).0 → a ≡ b
unfolding rand
rand-injective a b ha hb e = omega arith
