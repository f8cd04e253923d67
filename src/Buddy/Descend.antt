-- ===== src/Buddy/Descend.antt =====
-- buddy_alloc of arch/riscv/kernel/mm.c: its two loops, one after the other, have the effect of one
-- recursion down the tree.
use tiny_riscv_os.Prelude.{
  ℕ, zero, suc, ◌+◌, ◌*◌, ◌/◌, ◌^◌, ◌≤◌, ◌<◌, ◌≡◌, ◌≢◌, refl, sym, ◌∙◌, ap, inl, inr, true, false,
  some, arith, leb, ◌==◌, Bool-cases, update, pow-step, pow_pos, pow_strict, dec_lt,
}
use tiny_riscv_os.Buddy.{left_leaf, right_leaf, parent, descend, refresh, climb_loop}
use tiny_riscv_os.Buddy.Tree.{Tree, lower, upper, longest, grant_at}
use tiny_riscv_os.Buddy.Rep.{Rep, Rep-longest, Rep-lower, Rep-upper, longest-le}
use tiny_riscv_os.Buddy.Alloc.{
  mark, mark-top, mark-left, mark-right, grant_at-top, grant_at-left, grant_at-right, longest-upper,
}

-- The climb does not depend on its fuel, once that reaches the index.
climb_fuel : (f g : ℕ) (b : ℕ → ℕ) (i : ℕ) → i ≤ f → i ≤ g → climb_loop f b i ≡ climb_loop g b i
unfolding climb_loop
climb_fuel zero zero b i p q = refl
climb_fuel zero (suc g) b i p q = ground arith
climb_fuel (suc f) zero b i p q = ground arith
climb_fuel (suc f) (suc g) b i p q =
    ground (arith, climb_fuel f g (refresh b (parent i)) (parent i))

climb_step :
    (b : ℕ → ℕ) (i c : ℕ) → 1 ≤ c → parent c ≡ i → climb_loop c b c ≡ climb_loop i (refresh b i) i
unfolding climb_loop
climb_step b i zero p e = absurd (omega arith)
climb_step b i (suc c) p e =
    let inner : (suc c == 0) ≡ false = ground arith in
    rw (inner, e) (climb_fuel c i (refresh b i) i (omega arith) (omega arith))

pow-ne : (a b : ℕ) → a ≢ b → (2 ^ a == 2 ^ b) ≡ false
pow-ne a b ne = elim (dec_lt a b) [
  | yes h ↦ ground (arith, pow_strict a b h, pow_pos a)
  | no h ↦ ground (arith, pow_strict b a (omega arith), pow_pos b)
]

-- Where the walk down from node i, of height h, arrives, and what the walk up from there leaves.
pub record Found (b : ℕ → ℕ) (fuel h i k : ℕ) (t : Tree) : Type 0 where
  pub index : ℕ
  pub found : descend fuel b (2 ^ k) (2 ^ h) i ≡ some (index, 2 ^ k)
  pub place : (index + 1) * 2 ^ k ≡ (i + 1) * 2 ^ h + grant_at h k t
  pub climbs : climb_loop index (update b index 0) index ≡ climb_loop i (mark b h i k) i

module _ (b : ℕ → ℕ) (fuel h i k : ℕ) where
  descend-top : h ≡ k → descend (suc fuel) b (2 ^ k) (2 ^ h) i ≡ some (i, 2 ^ k)
  unfolding descend
  descend-top e = ground (arith, ap (λ (m : ℕ). 2 ^ m) e)

  descend-left :
      suc h ≢ k
      → leb (2 ^ k) (b (left_leaf i)) ≡ true
      → descend (suc fuel) b (2 ^ k) (2 ^ suc h) i ≡ descend fuel b (2 ^ k) (2 ^ h) (left_leaf i)
  unfolding descend
  descend-left ne l =
      let half : 2 ^ suc h / 2 ≡ 2 ^ h = omega (arith, pow-step h) in
      rw (pow-ne (suc h) k ne, l, half)

  descend-right :
      suc h ≢ k
      → leb (2 ^ k) (b (left_leaf i)) ≡ false
      → descend (suc fuel) b (2 ^ k) (2 ^ suc h) i ≡ descend fuel b (2 ^ k) (2 ^ h) (right_leaf i)
  unfolding descend
  descend-right ne l =
      let half : 2 ^ suc h / 2 ≡ 2 ^ h = omega (arith, pow-step h) in
      rw (pow-ne (suc h) k ne, l, half)

pow-le-one : (k : ℕ) → 2 ^ k ≤ 1 → 0 ≡ k
pow-le-one zero h = refl
pow-le-one (suc k) h = absurd (omega (arith, pow-step k, pow_pos k))

doubled : (h i : ℕ) → (2 ^ suc h ≡ 2 * 2 ^ h) × (i * 2 ^ suc h ≡ 2 * (i * 2 ^ h))
doubled h i = (pow-step h, rw (pow-step h) (omega arith))

-- From any node whose tree has room, the walk arrives at the block that `grant_at` names.
pub descend-Found :
    (b : ℕ → ℕ) (fuel h i k : ℕ) (t : Tree)
    → h < fuel
    → 2 ^ k ≤ longest h t
    → Rep b h i t
    → Found b fuel h i k t
descend-Found b zero h i k t f fits r = absurd (omega arith)
descend-Found b (suc fuel) zero i k t f fits r =
    let e = pow-le-one k (omega (arith, longest-le 0 t)) in
    record {
      index = i;
      found = descend-top b fuel 0 i k e;
      place = unfold grant_at in rw (← e) (omega arith);
      climbs = unfold mark in refl;
    }
descend-Found b (suc fuel) (suc h) i k t f fits r = elim (Bool-cases (suc h == k)) [
  | inl e ↦
      let e' : suc h ≡ k = ground arith in
      record {
        index = i;
        found = descend-top b fuel (suc h) i k e';
        place = rw (grant_at-top h k t e, ← e') (omega arith);
        climbs = rw (mark-top b h i k e);
      }
  | inr e ↦
      let seen = Rep-longest b h (left_leaf i) (lower t) (Rep-lower b h i t r) in
      elim (Bool-cases (leb (2 ^ k) (longest h (lower t)))) [
        | inl l ↦
            let deeper =
              descend-Found b fuel h (left_leaf i) k (lower t) (omega arith) (ground arith)
                (Rep-lower b h i t r) in
            record {
              index = deeper.index;
              found = descend-left b fuel h i k (ground arith) (rw seen l) ∙ deeper.found;
              place = rw (grant_at-left h k t e l) (omega (arith, deeper.place, doubled h i));
              climbs =
                  deeper.climbs
                  ∙ climb_step (mark b h (left_leaf i) k) i (left_leaf i) (omega arith)
                      (omega arith)
                  ∙ ap (λ c. climb_loop i c i) (sym (mark-left b h i k e (rw seen l)));
            }
        | inr l ↦
            let deeper =
              descend-Found b fuel h (right_leaf i) k (upper t) (omega arith)
                (longest-upper h k t (ground arith) fits l) (Rep-upper b h i t r) in
            record {
              index = deeper.index;
              found = descend-right b fuel h i k (ground arith) (rw seen l) ∙ deeper.found;
              place = rw (grant_at-right h k t e l) (omega (arith, deeper.place, doubled h i));
              climbs =
                  deeper.climbs
                  ∙ climb_step (mark b h (right_leaf i) k) i (right_leaf i) (omega arith)
                      (omega arith)
                  ∙ ap (λ c. climb_loop i c i) (sym (mark-right b h i k e (rw seen l)));
            }
      ]
]
