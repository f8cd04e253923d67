-- ===== src/WordMemory.antt =====
-- The bytes of a memory of 64-bit words, which vm.c and proc.c of arch/riscv/kernel reach by
-- address: a word stands at a multiple of 8, with its lowest byte first.
pub mod Bytes
use tiny_riscv_os.Prelude.{
  ℕ, ◌+◌, ◌-◌, ◌*◌, ◌/◌, ◌%◌, ◌^◌, Bool, leb, ltb, ◌&&◌, ◌||◌, if◌then◌else◌,
}

unfoldable pub byte_at : (ℕ → ℕ) → ℕ → ℕ
byte_at words b = words (b / 8 * 8) / 2 ^ (8 * (b % 8)) % 2 ^ 8

unfoldable pub word_of : (ℕ → ℕ) → ℕ
word_of c =
    c 0
    + 2 ^ 8 * c 1
    + 2 ^ 16 * c 2
    + 2 ^ 24 * c 3
    + 2 ^ 32 * c 4
    + 2 ^ 40 * c 5
    + 2 ^ 48 * c 6
    + 2 ^ 56 * c 7

-- memcpy of n bytes between ranges that do not overlap; a word that it does not touch stays.
unfoldable pub memcpy_bytes : (ℕ → ℕ) → ℕ → ℕ → ℕ → ℕ → ℕ
memcpy_bytes words dst src n a =
    let byte : ℕ → ℕ = λ b.
      if leb dst b && ltb b (dst + n) then byte_at words (src + (b - dst)) else byte_at words b in
    if leb (a + 8) dst || leb (dst + n) a then words a else word_of (λ k. byte (a + k))

-- A uint16_t, a uint32_t and a uint64_t, at any byte.
unfoldable pub load16 : (ℕ → ℕ) → ℕ → ℕ
load16 words b = byte_at words b + 2 ^ 8 * byte_at words (b + 1)

unfoldable pub load32 : (ℕ → ℕ) → ℕ → ℕ
load32 words b = load16 words b + 2 ^ 16 * load16 words (b + 2)

unfoldable pub load64 : (ℕ → ℕ) → ℕ → ℕ
load64 words b = load32 words b + 2 ^ 32 * load32 words (b + 4)
