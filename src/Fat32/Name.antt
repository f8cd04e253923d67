-- ===== src/Fat32/Name.antt =====
-- to_upper_case of fs/fat32.c.
use tiny_riscv_os.Prelude.{
  ℕ, zero, suc, ◌+◌, ◌≤◌, ◌<◌, ◌≡◌, ◌≢◌, refl, sym, ap, subst, ◌∙◌, true, false, some, ◌==◌, update,
  update_self, update_ne, inl, ◌⊎◌, ℕ_discrete, arith,
}
use tiny_riscv_os.Bytes.{Bytes}
use tiny_riscv_os.Bytes.Copy.{overwritten, overwritten_intro}
use tiny_riscv_os.Fat32.{upper, to_upper_case_loop, to_upper_case}

-- What the loop leaves from index i to the zero byte at index k.
record Raised (m m' : Bytes) (str i k : ℕ) : Type 0 where
  inside : (j : ℕ) → i ≤ j → j < k → m' (str + j) ≡ upper (m (str + j))
  outside : (a : ℕ) → (a < str + i) ⊎ (str + k ≤ a) → m' a ≡ m a

to_upper_case_loop-Raised :
    (fuel i k : ℕ) (m : Bytes) (str : ℕ)
    → ((j : ℕ) → i ≤ j → j < k → m (str + j) ≢ 0)
    → m (str + k) ≡ 0
    → i ≤ k
    → k < i + fuel
    → (m' : Bytes) × (to_upper_case_loop m str i fuel ≡ some m') × Raised m m' str i k
unfolding to_upper_case_loop
to_upper_case_loop-Raised zero i k m str h z g l = absurd (omega arith)
to_upper_case_loop-Raised (suc fuel) i k m str h z g l = elim (ℕ_discrete i k) [
  | yes here ↦
      let e : (m (str + i) == 0) ≡ true = rw here (ground arith) in
      (m, rw e refl, record { inside = λ j a b. absurd (omega arith); outside = λ a o. refl })
  | no later ↦
      let nonzero : m (str + i) ≢ 0 = h i (omega arith) (omega arith) in
      let e : (m (str + i) == 0) ≡ false = ground arith in
      let stored = update m (str + i) (upper (m (str + i))) in
      let kept : (a : ℕ) → str + i ≢ a → stored a ≡ m a =
        update_ne m (str + i) (upper (m (str + i))) in
      let (m', eq, r) =
        to_upper_case_loop-Raised fuel (i + 1) k stored str
          (λ j a b. subst (λ c. c ≢ 0) (sym (kept (str + j) (omega arith))) (h j (omega arith) b))
          (kept (str + k) (omega arith) ∙ z) (omega arith) (omega arith) in
      (
        m',
        rw e eq,
        record {
          inside = λ j a b. elim (ℕ_discrete i j) [
            | yes same ↦
                r.outside (str + j) (inl (omega arith))
                ∙ subst (λ c. stored (str + c) ≡ upper (m (str + c))) same
                    (update_self m (str + i) (upper (m (str + i))))
            | no after ↦ r.inside j (omega arith) b ∙ ap upper (kept (str + j) (omega arith))
          ];
          outside = λ a o. r.outside a (ground arith) ∙ kept a (ground arith);
        },
      )
]

-- On a string whose first zero byte is at index k, to_upper_case ends within k + 1 rounds, and has
-- then replaced every character of the string by its capital and changed no other byte.
pub to_upper_case_lem :
    (m : Bytes) (str k fuel : ℕ)
    → ((j : ℕ) → j < k → m (str + j) ≢ 0)
    → m (str + k) ≡ 0
    → k < fuel
    → (m' : Bytes) × (to_upper_case m str fuel ≡ some m')
      × ((a : ℕ) → m' a ≡ overwritten m str k (λ j. upper (m (str + j))) a)
unfolding to_upper_case
to_upper_case_lem m str k fuel h z l =
    let (m', eq, r) =
      to_upper_case_loop-Raised fuel 0 k m str (λ j a b. h j b) z (omega arith) (omega arith) in
    (
      m',
      eq,
      overwritten_intro m m' str k (λ j. upper (m (str + j))) (λ j b. r.inside j (omega arith) b)
          (λ a o. r.outside a (ground arith)),
    )
