-- ===== src/BuddyInit/Fill.antt =====
-- The loop of buddy_init of arch/riscv/kernel/mm.c that marks every node as free.
use tiny_riscv_os.Prelude.{
  ℕ, zero, suc, ◌+◌, ◌-◌, ◌*◌, ◌/◌, ◌^◌, ◌≤◌, ◌<◌, ◌≡◌, ◌⊎◌, inl, inr, refl, sym, ap, ◌∙◌, true,
  false, if◌then◌else◌, ℕ_discrete, dec_lt, update, update_self, update_ne, arith, pow-step,
  pow_pos, pow_mono,
}
use tiny_riscv_os.Buddy.{left_leaf, right_leaf, is_power_of_2}
use tiny_riscv_os.Buddy.Tree.{free}
use tiny_riscv_os.Buddy.Rep.{Rep}
use tiny_riscv_os.BuddyInit.{fill_loop}
use tiny_riscv_os.Buddy.Power.{is_power_of_2_lem}

-- A number lies between two powers of two once only.
same_depth : (d e x : ℕ) → 2 ^ d ≤ x → x < 2 ^ suc d → 2 ^ e ≤ x → x < 2 ^ suc e → d ≡ e
same_depth d e x a b k l = elim (dec_lt d e) [
  | yes below ↦ absurd (omega (arith, pow_mono (suc d) e below))
  | no up ↦ elim (dec_lt e d) [
    | yes above ↦ absurd (omega (arith, pow_mono (suc e) d above))
    | no down ↦ omega arith
  ]
]

-- The node size that the loop has reached before node i, at depth d.
abbrev pub IsNodeSize : ℕ → ℕ → ℕ → ℕ → Type 0
IsNodeSize h d i size =
    ((i + 1 ≡ 2 ^ d) × (size ≡ 2 * 2 ^ (h - d))) ⊎ ((2 ^ d < i + 1) × (size ≡ 2 ^ (h - d)))

module _ (h : ℕ) where
  -- The size that the loop stores at node i.
  stored :
      (d i size : ℕ)
      → 2 ^ d ≤ i + 1
      → i + 1 < 2 ^ suc d
      → IsNodeSize h d i size
      → (if is_power_of_2 (i + 1) then size / 2 else size) ≡ 2 ^ (h - d)
  stored d i size l u (inl (e, v)) =
      let yes_power : is_power_of_2 (i + 1) ≡ true =
        is_power_of_2_lem d (i + 1) l u ∙ ground arith in
      rw yes_power (omega arith)
  stored d i size l u (inr (ne, v)) =
      let no_power : is_power_of_2 (i + 1) ≡ false =
        is_power_of_2_lem d (i + 1) l u ∙ ground arith in
      rw no_power v

  -- From node i on, n nodes hold the size of their block, and the others what they held before.
  abbrev pub Filled : ℕ → ℕ → (ℕ → ℕ) → (ℕ → ℕ) → Type 0
  Filled n i b c =
      ((j : ℕ) → j < i → c j ≡ b j)
      × ((j e : ℕ) → i ≤ j → j < i + n → 2 ^ e ≤ j + 1 → j + 1 < 2 ^ suc e → c j ≡ 2 ^ (h - e))

  Filled-suc :
      (n d i v : ℕ) (b c : ℕ → ℕ)
      → 2 ^ d ≤ i + 1
      → i + 1 < 2 ^ suc d
      → v ≡ 2 ^ (h - d)
      → Filled n (i + 1) (update b i v) c
      → Filled (suc n) i b c
  Filled-suc n d i v b c l u here (before, after) = (
    λ j m. before j (omega arith) ∙ update_ne b i v j (omega arith),
    λ j e m k p q. elim (ℕ_discrete i j) [
      | yes same ↦
          let depth : d ≡ e = same_depth d e (i + 1) l u (omega arith) (omega arith) in
          before j (omega arith)
          ∙ ap (update b i v) (sym same)
          ∙ update_self b i v
          ∙ here
          ∙ ap (λ x. 2 ^ (h - x)) depth
      | no other ↦ after j e (omega arith) (omega arith) p q
    ],
  )

  -- The size for the node after node i, at depth d.
  next-IsNodeSize :
      (d i v : ℕ)
      → i + 1 + 1 ≡ 2 ^ suc d
      → v ≡ 2 ^ (h - d)
      → suc d ≤ h
      → IsNodeSize h (suc d) (i + 1) v
  next-IsNodeSize d i v e s l =
      let half : h - d ≡ suc (h - suc d) = omega arith in
      inl (e, s ∙ ap (λ x. 2 ^ x) half ∙ pow-step (h - suc d))

  -- The loop stores at every node that is left the size of its block, and changes no other one.
  pub fill_loop-Filled :
      (n d i size : ℕ) (b : ℕ → ℕ)
      → i + n + 1 ≡ 2 ^ suc h
      → 2 ^ d ≤ i + 1
      → i + 1 < 2 ^ suc d
      → (d ≤ h → IsNodeSize h d i size)
      → Filled n i b (fill_loop n i size b)
  unfolding fill_loop
  fill_loop-Filled zero d i size b total l u s = (λ j m. refl, λ j e m k. absurd (omega arith))
  fill_loop-Filled (suc n) d i size b total l u s =
      let v = if is_power_of_2 (i + 1) then size / 2 else size in
      let deep : d ≤ h = elim (dec_lt h d) [
        | yes past ↦ absurd (omega (arith, pow_mono (suc h) d past))
        | no low ↦ omega arith
      ] in
      let here : v ≡ 2 ^ (h - d) = stored d i size l u (s deep) in
      Filled-suc n d i v b (fill_loop n (i + 1) v (update b i v)) l u here
        (elim (dec_lt (i + 1 + 1) (2 ^ suc d)) [
          | yes inside ↦
              fill_loop-Filled n d (i + 1) v (update b i v) (omega arith) (omega arith) inside
                (λ low. inr (omega arith, here))
          | no outside ↦
              fill_loop-Filled n (suc d) (i + 1) v (update b i v) (omega arith) (omega arith)
                (omega (arith, pow-step (suc d), pow_pos d, pow-step d))
                (λ low. next-IsNodeSize d i v (omega arith) here low)
        ])

  -- A node all of whose marks are those of free blocks.
  pub Rep-free :
      (b : ℕ → ℕ) (k d i : ℕ)
      → k + d ≡ h
      → 2 ^ d ≤ i + 1
      → i + 1 < 2 ^ suc d
      → ((j e : ℕ) → e ≤ h → 2 ^ e ≤ j + 1 → j + 1 < 2 ^ suc e → b j ≡ 2 ^ (h - e))
      → Rep b k i free
  Rep-free b zero d i sum l u all =
      let height : h - d ≡ 0 = omega arith in all i d (omega arith) l u ∙ ap (λ x. 2 ^ x) height
  Rep-free b (suc k) d i sum l u all =
      let height : h - d ≡ suc k = omega arith in
      let step = pow-step d in
      let step' = pow-step (suc d) in
      (
        all i d (omega arith) l u ∙ ap (λ x. 2 ^ x) height,
        Rep-free b k (suc d) (left_leaf i) (omega arith) (omega arith) (omega arith) all,
        Rep-free b k (suc d) (right_leaf i) (omega arith) (omega arith) (omega arith) all,
      )
