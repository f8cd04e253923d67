-- ===== src/Buddy/Rep.antt =====
-- How the array `bitmap` of arch/riscv/kernel/mm.c represents a tree of blocks.
use tiny_riscv_os.Prelude.{
  ℕ, zero, suc, ◌^◌, ◌≤◌, ◌≡◌, refl, ◌∙◌, max, arith, update, update_ne, pow-step, pow_pos,
}
use tiny_riscv_os.Buddy.{left_leaf, right_leaf}
use tiny_riscv_os.Buddy.Tree.{Tree, free, used, node, lower, upper, longest}
use tiny_riscv_os.Buddy.Region.{
  Under, Under-refl, Under-left, Under-right, left-not-right, left-ne, right-ne,
}

-- Node i, of height h, holds the tree. The nodes below a block that was handed out keep their
-- marks.
abbrev pub Rep : (ℕ → ℕ) → ℕ → ℕ → Tree → Type 0
Rep b zero i free = b i ≡ 1
Rep b zero i used = b i ≡ 0
Rep b zero i (node l r) = ⊥
Rep b (suc h) i free = (b i ≡ 2 ^ suc h) × Rep b h (left_leaf i) free × Rep b h (right_leaf i) free
Rep b (suc h) i used = (b i ≡ 0) × Rep b h (left_leaf i) free × Rep b h (right_leaf i) free
Rep b (suc h) i (node l r) =
    (b i ≡ max (longest h l) (longest h r)) × Rep b h (left_leaf i) l × Rep b h (right_leaf i) r

pub Rep-longest : (b : ℕ → ℕ) (h i : ℕ) (t : Tree) → Rep b h i t → b i ≡ longest h t
Rep-longest b zero i free r = r
Rep-longest b zero i used r = r
Rep-longest b zero i (node l r) p = absurd p
Rep-longest b (suc h) i free r = r.0
Rep-longest b (suc h) i used r = r.0
Rep-longest b (suc h) i (node l r) p = p.0

pub Rep-lower :
    (b : ℕ → ℕ) (h i : ℕ) (t : Tree) → Rep b (suc h) i t → Rep b h (left_leaf i) (lower t)
Rep-lower b h i free r = r.1
Rep-lower b h i used r = r.1
Rep-lower b h i (node l r) p = p.1

pub Rep-upper :
    (b : ℕ → ℕ) (h i : ℕ) (t : Tree) → Rep b (suc h) i t → Rep b h (right_leaf i) (upper t)
Rep-upper b h i free r = r.2
Rep-upper b h i used r = r.2
Rep-upper b h i (node l r) p = p.2

-- A node is represented by what stands below it only.
pub Rep-frame :
    (b c : ℕ → ℕ) (h i : ℕ) (t : Tree)
    → ((j : ℕ) → Under i j → c j ≡ b j)
    → Rep b h i t
    → Rep c h i t
Rep-frame b c zero i free same r = same i (Under-refl i) ∙ r
Rep-frame b c zero i used same r = same i (Under-refl i) ∙ r
Rep-frame b c zero i (node l r) same p = p
Rep-frame b c (suc h) i free same r = (
  same i (Under-refl i) ∙ r.0,
  Rep-frame b c h (left_leaf i) free (λ j u. same j (Under-left i u)) r.1,
  Rep-frame b c h (right_leaf i) free (λ j u. same j (Under-right i u)) r.2,
)
Rep-frame b c (suc h) i used same r = (
  same i (Under-refl i) ∙ r.0,
  Rep-frame b c h (left_leaf i) free (λ j u. same j (Under-left i u)) r.1,
  Rep-frame b c h (right_leaf i) free (λ j u. same j (Under-right i u)) r.2,
)
Rep-frame b c (suc h) i (node l r) same p = (
  same i (Under-refl i) ∙ p.0,
  Rep-frame b c h (left_leaf i) l (λ j u. same j (Under-left i u)) p.1,
  Rep-frame b c h (right_leaf i) r (λ j u. same j (Under-right i u)) p.2,
)

-- `c` is `b` but for what stands below node i.
abbrev pub Within : (ℕ → ℕ) → (ℕ → ℕ) → ℕ → Type 0
Within b c i = (j : ℕ) → ¬ Under i j → c j ≡ b j

pub Within-update : (b : ℕ → ℕ) (i v : ℕ) → Within b (update b i v) i
Within-update b i v j h = update_ne b i v j (λ e. h (rw e (Under-refl j)))

pub Within-left : (b c : ℕ → ℕ) (i v : ℕ) → Within b c (left_leaf i) → Within b (update c i v) i
Within-left b c i v same j h =
    update_ne c i v j (λ e. h (rw e (Under-refl j))) ∙ same j (λ u. h (Under-left i u))

pub Within-right : (b c : ℕ → ℕ) (i v : ℕ) → Within b c (right_leaf i) → Within b (update c i v) i
Within-right b c i v same j h =
    update_ne c i v j (λ e. h (rw e (Under-refl j))) ∙ same j (λ u. h (Under-right i u))

module _ (b : ℕ → ℕ) (h i v : ℕ) (t : Tree) where
  -- A write to a node leaves both halves below it.
  pub Rep-write-left : Rep b h (left_leaf i) t → Rep (update b i v) h (left_leaf i) t
  Rep-write-left =
      Rep-frame b (update b i v) h (left_leaf i) t (λ j u. update_ne b i v j (left-ne i u))

  pub Rep-write-right : Rep b h (right_leaf i) t → Rep (update b i v) h (right_leaf i) t
  Rep-write-right =
      Rep-frame b (update b i v) h (right_leaf i) t (λ j u. update_ne b i v j (right-ne i u))

module _ (b c : ℕ → ℕ) (h i : ℕ) (t : Tree) where
  -- A change below one child leaves the other.
  pub Rep-beside-left :
      Within b c (left_leaf i) → Rep b h (right_leaf i) t → Rep c h (right_leaf i) t
  Rep-beside-left same =
      Rep-frame b c h (right_leaf i) t (λ j u. same j (λ w. left-not-right i w u))

  pub Rep-beside-right :
      Within b c (right_leaf i) → Rep b h (left_leaf i) t → Rep c h (left_leaf i) t
  Rep-beside-right same =
      Rep-frame b c h (left_leaf i) t (λ j u. same j (λ w. left-not-right i u w))

pub longest-le : (h : ℕ) (t : Tree) → longest h t ≤ 2 ^ h
longest-le h free = omega arith
longest-le h used = omega arith
longest-le zero (node l r) = omega arith
longest-le (suc h) (node l r) = omega (arith, pow-step h, longest-le h l, longest-le h r)

-- Only a tree that is one free block has all of its pages in one block.
pub free_of_longest : (h : ℕ) (t : Tree) → 2 ^ h ≤ longest h t → t ≡ free
free_of_longest h free e = refl
free_of_longest h used e = absurd (omega (arith, pow_pos h))
free_of_longest zero (node l r) e = absurd (omega arith)
free_of_longest (suc h) (node l r) e =
    absurd (omega (arith, pow-step h, pow_pos h, longest-le h l, longest-le h r))
