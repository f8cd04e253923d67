-- ===== src/Bytes/Compare.antt =====
-- The functions of lib/string.c that only read.
use tiny_riscv_os.Prelude.{
  pos, negsuc, ℕ, zero, suc, ◌+◌, ◌<◌, ◌≡◌, ◌≢◌, refl, true, false, some, ltb, ◌==◌, ==_iff,
  ℕ_discrete, ◌≤◌, if◌then◌else◌, arith,
}
use tiny_riscv_os.Bytes.{Bytes, memcmp_loop, memcmp, strlen_loop, strlen}

memcmp_loop-same :
    (n i : ℕ) (m : Bytes) (u1 u2 : ℕ)
    → ((j : ℕ) → j < i + n → m (u1 + j) ≡ m (u2 + j))
    → memcmp_loop m u1 u2 i n ≡ pos 0
unfolding memcmp_loop
memcmp_loop-same zero i m u1 u2 h = refl
memcmp_loop-same (suc n) i m u1 u2 h =
    let e : (m (u1 + i) == m (u2 + i)) ≡ true =
      (==_iff (m (u1 + i)) (m (u2 + i))).1 (h i (omega arith)) in
    rw e (memcmp_loop-same n (i + 1) m u1 u2 (λ j l. h j (omega arith)))

memcmp_loop-first :
    (n i k : ℕ) (m : Bytes) (u1 u2 : ℕ)
    → ((j : ℕ) → j < k → m (u1 + j) ≡ m (u2 + j))
    → m (u1 + k) ≢ m (u2 + k)
    → i ≤ k
    → k < i + n
    → memcmp_loop m u1 u2 i n ≡ (if ltb (m (u1 + k)) (m (u2 + k)) then negsuc 0 else pos 1)
unfolding memcmp_loop
memcmp_loop-first zero i k m u1 u2 h d g l = absurd (omega arith)
memcmp_loop-first (suc n) i k m u1 u2 h d g l = elim (ℕ_discrete i k) [
  | yes here ↦ rw here (ground arith)
  | no later ↦
      let e : (m (u1 + i) == m (u2 + i)) ≡ true =
        (==_iff (m (u1 + i)) (m (u2 + i))).1 (h i (omega arith)) in
      rw e (memcmp_loop-first n (i + 1) k m u1 u2 h d (omega arith) (omega arith))
]

-- The first of the n bytes that differs decides memcmp: the result is -1 if the first argument's byte
-- is the smaller, and 1 if the second's is.
pub memcmp-first :
    (m : Bytes) (s1 s2 n k : ℕ)
    → ((j : ℕ) → j < k → m (s1 + j) ≡ m (s2 + j))
    → m (s1 + k) ≢ m (s2 + k)
    → k < n
    → memcmp m s1 s2 n ≡ (if ltb (m (s1 + k)) (m (s2 + k)) then negsuc 0 else pos 1)
unfolding memcmp
memcmp-first m s1 s2 n k h d l = memcmp_loop-first n 0 k m s1 s2 h d (omega arith) (omega arith)

-- memcmp returns 0 if the n bytes are equal.
pub memcmp-same :
    (m : Bytes) (s1 s2 n : ℕ)
    → ((j : ℕ) → j < n → m (s1 + j) ≡ m (s2 + j))
    → memcmp m s1 s2 n ≡ pos 0
unfolding memcmp
memcmp-same m s1 s2 n h = memcmp_loop-same n 0 m s1 s2 (λ j l. h j (omega arith))

strlen_loop-first :
    (fuel i k : ℕ) (m : Bytes) (s : ℕ)
    → ((j : ℕ) → j < k → m (s + j) ≢ 0)
    → m (s + k) ≡ 0
    → i ≤ k
    → k < i + fuel
    → strlen_loop m s i fuel ≡ some k
unfolding strlen_loop
strlen_loop-first zero i k m s h z g l = absurd (omega arith)
strlen_loop-first (suc fuel) i k m s h z g l = elim (ℕ_discrete i k) [
  | yes here ↦ rw here (ground arith)
  | no later ↦
      let nonzero : m (s + i) ≢ 0 = h i (omega arith) in
      let e : (m (s + i) == 0) ≡ false = ground arith in
      rw e (strlen_loop-first fuel (i + 1) k m s h z (omega arith) (omega arith))
]

-- On a string whose first zero byte is at index k, strlen ends within k + 1 rounds and returns k.
pub strlen_lem :
    (m : Bytes) (s k fuel : ℕ)
    → ((j : ℕ) → j < k → m (s + j) ≢ 0)
    → m (s + k) ≡ 0
    → k < fuel
    → strlen m s fuel ≡ some k
unfolding strlen
strlen_lem m s k fuel h z l = strlen_loop-first fuel 0 k m s h z (omega arith) (omega arith)
