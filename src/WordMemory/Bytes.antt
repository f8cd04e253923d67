-- ===== src/WordMemory/Bytes.antt =====
-- The bytes of a memory of words after a memcpy.
use tiny_riscv_os.Prelude.{
  ℕ, zero, suc, ◌+◌, ◌-◌, ◌*◌, ◌/◌, ◌%◌, ◌^◌, ◌≤◌, ◌<◌, ◌≡◌, ◌⊎◌, inl, inr, refl, ap, ◌∙◌, false,
  leb, ltb, ◌&&◌, ◌||◌, if◌then◌else◌, Bool-cases, arith,
}
use tiny_riscv_os.WordMemory.{byte_at, word_of, memcpy_bytes}

-- The k-th byte of a word.
word_of-byte :
    (c : ℕ → ℕ) (k : ℕ) → ((j : ℕ) → c j < 2 ^ 8) → k < 8 → word_of c / 2 ^ (8 * k) % 2 ^ 8 ≡ c k
unfolding word_of
word_of-byte c zero s l = omega (arith, s 0)
word_of-byte c (suc zero) s l = omega (arith, s 0, s 1)
word_of-byte c (suc (suc zero)) s l = omega (arith, s 0, s 1, s 2)
word_of-byte c (suc (suc (suc zero))) s l = omega (arith, s 0, s 1, s 2, s 3)
word_of-byte c (suc (suc (suc (suc zero)))) s l = omega (arith, s 0, s 1, s 2, s 3, s 4)
word_of-byte c (suc (suc (suc (suc (suc zero))))) s l = omega (arith, s 0, s 1, s 2, s 3, s 4, s 5)
word_of-byte c (suc (suc (suc (suc (suc (suc zero)))))) s l =
    omega (arith, s 0, s 1, s 2, s 3, s 4, s 5, s 6)
word_of-byte c (suc (suc (suc (suc (suc (suc (suc zero))))))) s l =
    omega (arith, s 0, s 1, s 2, s 3, s 4, s 5, s 6, s 7)
word_of-byte c (suc (suc (suc (suc (suc (suc (suc (suc k)))))))) s l = absurd (omega arith)

byte_at-small : (words : ℕ → ℕ) (b : ℕ) → byte_at words b < 2 ^ 8
unfolding byte_at
byte_at-small words b = omega arith

-- What memcpy leaves at byte b.
abbrev pub copied_byte : (ℕ → ℕ) → ℕ → ℕ → ℕ → ℕ → ℕ
copied_byte words dst src n b =
    if leb dst b && ltb b (dst + n) then byte_at words (src + (b - dst)) else byte_at words b

copied_byte-small : (words : ℕ → ℕ) (dst src n b : ℕ) → copied_byte words dst src n b < 2 ^ 8
copied_byte-small words dst src n b =
    ground (arith, byte_at-small words (src + (b - dst)), byte_at-small words b)

pub byte_at-memcpy_bytes :
    (words : ℕ → ℕ) (dst src n b : ℕ)
    → byte_at (memcpy_bytes words dst src n) b ≡ copied_byte words dst src n b
unfolding memcpy_bytes
byte_at-memcpy_bytes words dst src n b =
    elim (Bool-cases (leb (b / 8 * 8 + 8) dst || leb (dst + n) (b / 8 * 8))) [
      | inl far ↦
          let out : (leb dst b && ltb b (dst + n)) ≡ false = ground arith in
          unfold byte_at in rw (far, out) refl
      | inr near ↦
          let whole : b / 8 * 8 + b % 8 ≡ b = omega arith in
          unfold byte_at in
          rw near (
            word_of-byte (λ k. copied_byte words dst src n (b / 8 * 8 + k)) (b % 8)
              (λ j. copied_byte-small words dst src n (b / 8 * 8 + j)) (omega arith)
            ∙ ap (copied_byte words dst src n) whole)
    ]

pub memcpy_bytes-off :
    (words : ℕ → ℕ) (dst src n a : ℕ)
    → (a + 8 ≤ dst) ⊎ (dst + n ≤ a)
    → memcpy_bytes words dst src n a ≡ words a
unfolding memcpy_bytes
memcpy_bytes-off words dst src n a (inl l) = ground arith
memcpy_bytes-off words dst src n a (inr l) = ground arith
