-- ===== src/Bytes/Copy.antt =====
-- The stores of lib/string.c: what stands at each address after them.
use tiny_riscv_os.Prelude.{
  ℕ, zero, suc, ◌+◌, ◌-◌, ◌%◌, ◌≤◌, ◌<◌, ◌≡◌, ◌⊎◌, inl, inr, refl, sym, ap, subst, ◌^◌, ◌∙◌, leb,
  ◌&&◌, ltb, Bool-cases, if◌then◌else◌, update, update_self, update_ne, dec_lt, dec_le, ℕ_discrete,
  arith,
}
use tiny_riscv_os.Bytes.{Bytes, memset_loop, memset, memcpy_loop, memcpy, memmove_back, memmove}

-- An address outside the n bytes from d.
abbrev pub IsOutside : ℕ → ℕ → ℕ → Type 0
IsOutside d n a = (a < d) ⊎ (d + n ≤ a)

memset_loop-outside :
    (n i : ℕ) (m : Bytes) (s c a : ℕ) → IsOutside (s + i) n a → memset_loop m s c i n a ≡ m a
unfolding memset_loop
memset_loop-outside zero i m s c a h = refl
memset_loop-outside (suc n) i m s c a h =
    memset_loop-outside n (i + 1) _ s c a (ground arith)
    ∙ update_ne m (s + i) (c % 2 ^ 8) a (ground arith)

memset_loop-inside :
    (n i : ℕ) (m : Bytes) (s c j : ℕ)
    → i ≤ j
    → j < i + n
    → memset_loop m s c i n (s + j) ≡ c % 2 ^ 8
unfolding memset_loop
memset_loop-inside zero i m s c j g l = absurd (omega arith)
memset_loop-inside (suc n) i m s c j g l = elim (ℕ_discrete i j) [
  | yes here ↦
      memset_loop-outside n (i + 1) _ s c (s + j) (inl (omega arith))
      ∙ subst (λ (a : ℕ). update m (s + i) (c % 2 ^ 8) (s + a) ≡ c % 2 ^ 8) here
          (update_self m (s + i) (c % 2 ^ 8))
  | no later ↦ memset_loop-inside n (i + 1) _ s c j (omega arith) (omega arith)
]

memcpy_loop-outside :
    (n i : ℕ) (m : Bytes) (d s a : ℕ) → IsOutside (d + i) n a → memcpy_loop m d s i n a ≡ m a
unfolding memcpy_loop
memcpy_loop-outside zero i m d s a h = refl
memcpy_loop-outside (suc n) i m d s a h =
    memcpy_loop-outside n (i + 1) _ d s a (ground arith)
    ∙ update_ne m (d + i) (m (s + i)) a (ground arith)

memcpy_loop-inside :
    (n i : ℕ) (m : Bytes) (d s j : ℕ)
    → (d ≤ s) ⊎ (s + (i + n) ≤ d + i)
    → i ≤ j
    → j < i + n
    → memcpy_loop m d s i n (d + j) ≡ m (s + j)
unfolding memcpy_loop
memcpy_loop-inside zero i m d s j h g l = absurd (omega arith)
memcpy_loop-inside (suc n) i m d s j h g l = elim (ℕ_discrete i j) [
  | yes here ↦
      memcpy_loop-outside n (i + 1) _ d s (d + j) (inl (omega arith))
      ∙ subst (λ (a : ℕ). update m (d + i) (m (s + i)) (d + a) ≡ m (s + a)) here
          (update_self m (d + i) (m (s + i)))
  | no later ↦
      memcpy_loop-inside n (i + 1) _ d s j (ground arith) (omega arith) (omega arith)
      ∙ update_ne m (d + i) (m (s + i)) (s + j) (ground arith)
]

memmove_back-outside :
    (n : ℕ) (m : Bytes) (d s a : ℕ) → IsOutside d n a → memmove_back m d s n a ≡ m a
unfolding memmove_back
memmove_back-outside zero m d s a h = refl
memmove_back-outside (suc n) m d s a h =
    memmove_back-outside n _ d s a (ground arith) ∙ update_ne m (d + n) (m (s + n)) a (ground arith)

memmove_back-inside :
    (n : ℕ) (m : Bytes) (d s j : ℕ) → s ≤ d → j < n → memmove_back m d s n (d + j) ≡ m (s + j)
unfolding memmove_back
memmove_back-inside zero m d s j h l = absurd (omega arith)
memmove_back-inside (suc n) m d s j h l = elim (dec_lt j n) [
  | yes k ↦
      memmove_back-inside n _ d s j h k ∙ update_ne m (d + n) (m (s + n)) (s + j) (ground arith)
  | no k ↦
      memmove_back-outside n _ d s (d + j) (inr (omega arith))
      ∙ (let last : n ≡ j = omega arith in
          subst (λ (a : ℕ). update m (d + n) (m (s + n)) (d + a) ≡ m (s + a)) last
            (update_self m (d + n) (m (s + n))))
]

-- The memory m with v j at the byte j of the n bytes from d.
abbrev pub overwritten : Bytes → ℕ → ℕ → (ℕ → ℕ) → Bytes
overwritten m d n v a = if leb d a && ltb a (d + n) then v (a - d) else m a

-- Memory is overwritten if it is at each byte, and not elsewhere.
pub overwritten_intro :
    (m m' : Bytes) (d n : ℕ) (v : ℕ → ℕ)
    → ((j : ℕ) → j < n → m' (d + j) ≡ v j)
    → ((a : ℕ) → IsOutside d n a → m' a ≡ m a)
    → (a : ℕ) → m' a ≡ overwritten m d n v a
overwritten_intro m m' d n v inside outside a = elim (dec_le d a) [
  | no before ↦ outside a (inl (omega arith)) ∙ ground arith
  | yes from ↦ elim (dec_lt a (d + n)) [
    | no past ↦ outside a (inr (omega arith)) ∙ ground arith
    | yes before ↦
        let index : d + (a - d) ≡ a = omega arith in
        ap m' (sym index) ∙ inside (a - d) (omega arith) ∙ ground arith
  ]
]

-- memset stores the low byte of c at each of the n bytes, and changes no other byte.
pub memset_lem : (m : Bytes) (s c n a : ℕ) → memset m s c n a ≡ overwritten m s n (λ j. c % 2 ^ 8) a
unfolding memset
memset_lem m s c n =
    overwritten_intro m (memset_loop m s c 0 n) s n (λ j. c % 2 ^ 8)
      (λ j l. memset_loop-inside n 0 m s c j (omega arith) (omega arith))
      (λ a o. memset_loop-outside n 0 m s c a (ground arith))

-- If the destination does not start inside the source, after its first byte, memcpy leaves at the
-- destination the n bytes of the source as they were before, and changes no other byte.
pub memcpy_lem :
    (m : Bytes) (d s n : ℕ)
    → (d ≤ s) ⊎ (s + n ≤ d)
    → (a : ℕ) → memcpy m d s n a ≡ overwritten m d n (λ j. m (s + j)) a
unfolding memcpy
memcpy_lem m d s n h =
    overwritten_intro m (memcpy_loop m d s 0 n) d n (λ j. m (s + j))
      (λ j l. memcpy_loop-inside n 0 m d s j (ground arith) (omega arith) (omega arith))
      (λ a o. memcpy_loop-outside n 0 m d s a (ground arith))

-- However the two ranges overlap, memmove leaves at the destination the n bytes of the source as
-- they were before, and changes no other byte.
pub memmove_lem :
    (m : Bytes) (d s n a : ℕ) → memmove m d s n a ≡ overwritten m d n (λ j. m (s + j)) a
unfolding memmove
memmove_lem m d s n = elim (Bool-cases (ltb d s)) [
  | inl e ↦ rw e (memcpy_lem m d s n (inl (ground arith)))
  | inr e ↦ rw e (
      overwritten_intro m (memmove_back m d s n) d n (λ j. m (s + j))
        (λ j l. memmove_back-inside n m d s j (ground arith) l)
        (λ a o. memmove_back-outside n m d s a o))
]
