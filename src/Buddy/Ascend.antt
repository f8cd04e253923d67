-- ===== src/Buddy/Ascend.antt =====
-- buddy_free of arch/riscv/kernel/mm.c: its two loops, one after the other, have the effect of one
-- recursion down the tree.
use tiny_riscv_os.Prelude.{
  ℕ, zero, suc, ◌+◌, ◌-◌, ◌*◌, ◌^◌, ◌≤◌, ◌<◌, ◌≡◌, refl, sym, ◌∙◌, ap, inl, inr, true, false, arith,
  ltb, ◌==◌, Bool-cases, update, pow-step, pow_pos, dec_lt,
}
use tiny_riscv_os.Buddy.{left_leaf, right_leaf, parent, ascend, merge, merge_loop}
use tiny_riscv_os.Buddy.Tree.{Tree, free, used, node, is_used}
use tiny_riscv_os.Buddy.Rep.{Rep, Rep-longest}
use tiny_riscv_os.Buddy.Free.{unmark, unmark-left, unmark-right}

merge_fuel :
    (f g : ℕ) (b : ℕ → ℕ) (i n : ℕ) → i ≤ f → i ≤ g → merge_loop f b i n ≡ merge_loop g b i n
unfolding merge_loop
merge_fuel zero zero b i n p q = refl
merge_fuel zero (suc g) b i n p q = ground arith
merge_fuel (suc f) zero b i n p q = ground arith
merge_fuel (suc f) (suc g) b i n p q =
    ground (arith, merge_fuel f g (merge b (parent i) (n * 2)) (parent i) (n * 2))

merge_step :
    (b : ℕ → ℕ) (i c n m : ℕ)
    → 1 ≤ c
    → parent c ≡ i
    → n * 2 ≡ m
    → merge_loop c b c n ≡ merge_loop i (merge b i m) i m
unfolding merge_loop
merge_step b i zero n m p e d = absurd (omega arith)
merge_step b i (suc c) n m p e d =
    let inner : (suc c == 0) ≡ false = ground arith in
    rw (inner, e, d) (merge_fuel c i (merge b i m) i m (omega arith) (omega arith))

ascend_fuel : (f g : ℕ) (b : ℕ → ℕ) (i n : ℕ) → i ≤ f → i ≤ g → ascend f b i n ≡ ascend g b i n
unfolding ascend
ascend_fuel zero zero b i n p q = refl
ascend_fuel zero (suc g) b i n p q = ground arith
ascend_fuel (suc f) zero b i n p q = ground arith
ascend_fuel (suc f) (suc g) b i n p q = ground (arith, ascend_fuel f g b (parent i) (n * 2))

-- Past a node that is not marked 0 the walk goes on to the parent.
pub ascend_step :
    (b : ℕ → ℕ) (i c n m : ℕ)
    → 1 ≤ c
    → parent c ≡ i
    → n * 2 ≡ m
    → 1 ≤ b c
    → ascend c b c n ≡ ascend i b i m
unfolding ascend
ascend_step b i zero n m p e d full = absurd (omega arith)
ascend_step b i (suc c) n m p e d full =
    let inner : (suc c == 0) ≡ false = ground arith in
    let marked : (b (suc c) == 0) ≡ false = ground arith in
    rw (inner, marked, e, d) (ascend_fuel c i b i m (omega arith) (omega arith))

pub doubled : (h i : ℕ) → (2 ^ h * 2 ≡ 2 ^ suc h) × (i * 2 ^ suc h ≡ 2 * (i * 2 ^ h))
doubled h i = (omega (arith, pow-step h), rw (pow-step h) (omega arith))

-- From a leaf below a free node the walk arrives at that node.
pub ascend-free :
    (b : ℕ → ℕ) (h i p leaf : ℕ)
    → p < 2 ^ h
    → leaf + 1 ≡ (i + 1) * 2 ^ h + p
    → Rep b h i free
    → ascend leaf b leaf 1 ≡ ascend i b i (2 ^ h)
ascend-free b zero i p leaf lt e r = let here : leaf ≡ i = omega arith in rw here
ascend-free b (suc h) i p leaf lt e r = elim (dec_lt p (2 ^ h)) [
  | yes below ↦
      ascend-free b h (left_leaf i) p leaf below (omega (arith, doubled h i)) r.1
      ∙ ascend_step b i (left_leaf i) (2 ^ h) (2 ^ suc h) (omega arith) (omega arith)
          (doubled h i).0 (omega (arith, Rep-longest b h (left_leaf i) free r.1, pow_pos h))
  | no above ↦
      ascend-free b h (right_leaf i) (p - 2 ^ h) leaf (omega (arith, pow-step h))
        (omega (arith, doubled h i)) r.2
      ∙ ascend_step b i (right_leaf i) (2 ^ h) (2 ^ suc h) (omega arith) (omega arith)
          (doubled h i).0 (omega (arith, Rep-longest b h (right_leaf i) free r.2, pow_pos h))
]

-- A node marked 0 ends the walk.
ascend-zero : (b : ℕ → ℕ) (i n : ℕ) → b i ≡ 0 → ascend i b i n ≡ (i, n)
unfolding ascend
ascend-zero b zero n e = rw e
ascend-zero b (suc i) n e = rw e

-- From a leaf below a block that is handed out the walk arrives at the block.
ascend-used :
    (b : ℕ → ℕ) (h i p leaf : ℕ)
    → p < 2 ^ h
    → leaf + 1 ≡ (i + 1) * 2 ^ h + p
    → Rep b h i used
    → ascend leaf b leaf 1 ≡ (i, 2 ^ h)
ascend-used b zero i p leaf lt e r =
    let here : leaf ≡ i = omega arith in rw here (ascend-zero b i 1 r)
ascend-used b (suc h) i p leaf lt e r = elim (dec_lt p (2 ^ h)) [
  | yes below ↦
      ascend-free b h (left_leaf i) p leaf below (omega (arith, doubled h i)) r.1
      ∙ ascend_step b i (left_leaf i) (2 ^ h) (2 ^ suc h) (omega arith) (omega arith)
          (doubled h i).0 (omega (arith, Rep-longest b h (left_leaf i) free r.1, pow_pos h))
      ∙ ascend-zero b i (2 ^ suc h) r.0
  | no above ↦
      ascend-free b h (right_leaf i) (p - 2 ^ h) leaf (omega (arith, pow-step h))
        (omega (arith, doubled h i)) r.2
      ∙ ascend_step b i (right_leaf i) (2 ^ h) (2 ^ suc h) (omega arith) (omega arith)
          (doubled h i).0 (omega (arith, Rep-longest b h (right_leaf i) free r.2, pow_pos h))
      ∙ ascend-zero b i (2 ^ suc h) r.0
]

-- Where the walk up from a leaf ends, and what the second walk leaves.
pub record Released (b : ℕ → ℕ) (h i : ℕ) (t : Tree) (p leaf : ℕ) : Type 0 where
  pub index : ℕ
  pub size : ℕ
  pub found : ascend leaf b leaf 1 ≡ (index, size)
  pub merges :
      merge_loop index (update b index size) index size ≡ merge_loop i (unmark b h i t p) i (2 ^ h)

pub ascend-Released :
    (b : ℕ → ℕ) (h i : ℕ) (t : Tree) (p leaf : ℕ)
    → p < 2 ^ h
    → leaf + 1 ≡ (i + 1) * 2 ^ h + p
    → is_used h t p ≡ true
    → Rep b h i t
    → Released b h i t p leaf
ascend-Released b h i free p leaf lt e u r = absurd (cc)
ascend-Released b h i used p leaf lt e u r = record {
  index = i;
  size = 2 ^ h;
  found = ascend-used b h i p leaf lt e r;
  merges = unfold unmark in refl;
}
ascend-Released b zero i (node l r) p leaf lt e u x = absurd x
ascend-Released b (suc h) i (node l r) p leaf lt e u x = elim (Bool-cases (ltb p (2 ^ h))) [
  | inl s ↦
      let deeper =
        ascend-Released b h (left_leaf i) l p leaf (ground arith) (omega (arith, doubled h i))
          (ground arith) x.1 in
      record {
        index = deeper.index;
        size = deeper.size;
        found = deeper.found;
        merges =
            deeper.merges
            ∙ merge_step (unmark b h (left_leaf i) l p) i (left_leaf i) (2 ^ h) (2 ^ suc h)
                (omega arith) (omega arith) (doubled h i).0
            ∙ ap (λ c. merge_loop i c i (2 ^ suc h)) (sym (unmark-left b h i l r p s));
      }
  | inr s ↦
      let deeper =
        ascend-Released b h (right_leaf i) r (p - 2 ^ h) leaf (ground (arith, pow-step h))
          (ground (arith, doubled h i)) (ground arith) x.2 in
      record {
        index = deeper.index;
        size = deeper.size;
        found = deeper.found;
        merges =
            deeper.merges
            ∙ merge_step (unmark b h (right_leaf i) r (p - 2 ^ h)) i (right_leaf i) (2 ^ h)
                (2 ^ suc h) (omega arith) (omega arith) (doubled h i).0
            ∙ ap (λ c. merge_loop i c i (2 ^ suc h)) (sym (unmark-right b h i l r p s));
      }
]
