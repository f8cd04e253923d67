-- ===== src/Buddy/DoubleFree.antt =====
-- What buddy_free of arch/riscv/kernel/mm.c does to a frame that is free already.
use tiny_riscv_os.Prelude.{
  ℕ, zero, suc, ◌+◌, ◌-◌, ◌*◌, ◌^◌, ◌≤◌, ◌<◌, ◌≡◌, ◌∙◌, inl, inr, true, false, arith, ltb, ◌==◌,
  Bool-cases, pow-step, pow_pos,
}
use tiny_riscv_os.Buddy.{Buddy, left_leaf, right_leaf, ascend, merge_loop, release, buddy_free}
use tiny_riscv_os.Buddy.Tree.{Tree, free, used, node, longest, is_used}
use tiny_riscv_os.Buddy.Rep.{Rep, Rep-longest}
use tiny_riscv_os.Buddy.Ascend.{ascend_step, ascend-free, doubled}
use tiny_riscv_os.Buddy.State.{Represents}

-- A tree with a free page has a free block.
longest_pos : (h : ℕ) (t : Tree) (p : ℕ) → p < 2 ^ h → is_used h t p ≡ false → 1 ≤ longest h t
longest_pos h free p lt u = pow_pos h
longest_pos h used p lt u = absurd (cc)
longest_pos zero (node l r) p lt u = absurd (cc)
longest_pos (suc h) (node l r) p lt u =
    ground (arith, pow-step h, longest_pos h l p, longest_pos h r (p - 2 ^ h))

-- From the leaf of a free page the walk meets no node marked 0.
ascend-loose :
    (b : ℕ → ℕ) (h i : ℕ) (t : Tree) (p leaf : ℕ)
    → p < 2 ^ h
    → leaf + 1 ≡ (i + 1) * 2 ^ h + p
    → is_used h t p ≡ false
    → Rep b h i t
    → ascend leaf b leaf 1 ≡ ascend i b i (2 ^ h)
ascend-loose b h i free p leaf lt e u r = ascend-free b h i p leaf lt e r
ascend-loose b h i used p leaf lt e u r = absurd (cc)
ascend-loose b zero i (node l r) p leaf lt e u x = absurd x
ascend-loose b (suc h) i (node l r) p leaf lt e u x = elim (Bool-cases (ltb p (2 ^ h))) [
  | inl s ↦
      let lt' : p < 2 ^ h = ground arith in
      let u' : is_used h l p ≡ false = ground arith in
      ascend-loose b h (left_leaf i) l p leaf lt' (omega (arith, doubled h i)) u' x.1
      ∙ ascend_step b i (left_leaf i) (2 ^ h) (2 ^ suc h) (omega arith) (omega arith)
          (doubled h i).0
          (omega (arith, Rep-longest b h (left_leaf i) l x.1, longest_pos h l p lt' u'))
  | inr s ↦
      let lt' : p - 2 ^ h < 2 ^ h = ground (arith, pow-step h) in
      let u' : is_used h r (p - 2 ^ h) ≡ false = ground arith in
      ascend-loose b h (right_leaf i) r (p - 2 ^ h) leaf lt' (ground (arith, doubled h i)) u' x.2
      ∙ ascend_step b i (right_leaf i) (2 ^ h) (2 ^ suc h) (omega arith) (omega arith)
          (doubled h i).0
          (omega (arith, Rep-longest b h (right_leaf i) r x.2, longest_pos h r (p - 2 ^ h) lt' u'))
]

ascend-root : (b : ℕ → ℕ) (n : ℕ) → 1 ≤ b 0 → ascend 0 b 0 n ≡ (0, n * 2)
unfolding ascend
ascend-root b n full = ground arith

-- In a state that stands for a tree of blocks, buddy_free on a frame that is free and has count 0
-- marks the root with twice the number of frames, more than there are.
pub buddy_free-free :
    (s : Buddy) (h : ℕ) (t : Tree) (p : ℕ)
    → Represents s h t
    → p < 2 ^ h
    → is_used h t p ≡ false
    → s.ref_cnt p ≡ 0
    → (buddy_free s p).bitmap 0 ≡ 2 * s.size
unfolding buddy_free release merge_loop
buddy_free-free s h t p v lt u c =
    let unused : (s.ref_cnt p == 0) ≡ true = ground arith in
    let up : ascend (p + s.size - 1) s.bitmap (p + s.size - 1) 1 ≡ (0, 2 ^ h * 2) =
      ascend-loose s.bitmap h 0 t p (p + s.size - 1) lt (omega (arith, v.size, pow_pos h)) u v.rep
      ∙ ascend-root s.bitmap (2 ^ h)
          (omega (arith, Rep-longest s.bitmap h 0 t v.rep, longest_pos h t p lt u)) in
    rw (unused, up) (omega (arith, v.size))
