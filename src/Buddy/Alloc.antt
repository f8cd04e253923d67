-- ===== src/Buddy/Alloc.antt =====
-- The loops of buddy_alloc in arch/riscv/kernel/mm.c, by recursion on the tree.
use tiny_riscv_os.Prelude.{
  ℕ, zero, suc, ◌+◌, ◌^◌, ◌≤◌, ◌≡◌, ◌≢◌, sym, ◌∙◌, ap₂, max, inl, inr, true, false, arith, leb,
  ◌==◌, if◌then◌else◌, Bool-cases, update, update_self, pow_pos, pow_mono, pow_strict, dec_lt,
  subst,
}
use tiny_riscv_os.Buddy.{left_leaf, right_leaf, refresh}
use tiny_riscv_os.Buddy.Tree.{Tree, free, used, node, lower, upper, longest, grant, grant_at}
use tiny_riscv_os.Buddy.Rep.{
  Rep, Rep-longest, Rep-lower, Rep-upper, Within, Within-update, Within-left, Within-right,
  Rep-write-left, Rep-write-right, Rep-beside-left, Rep-beside-right, free_of_longest,
}

-- Mark a block of 2^k pages below node i, of height h, and refresh the nodes between.
unfoldable pub mark : (ℕ → ℕ) → ℕ → ℕ → ℕ → ℕ → ℕ
mark b zero i k = update b i 0
mark b (suc h) i k =
    let below = refresh (mark b h (left_leaf i) k) i in
    let above = refresh (mark b h (right_leaf i) k) i in
    if suc h == k then update b i 0 else if leb (2 ^ k) (b (left_leaf i)) then below else above

pub mark-Within : (b : ℕ → ℕ) (h i k : ℕ) → Within b (mark b h i k) i
unfolding mark
mark-Within b zero i k = Within-update b i 0
mark-Within b (suc h) i k = elim (Bool-cases (suc h == k)) [
  | inl e ↦ rw e (Within-update b i 0)
  | inr e ↦ rw e (elim (Bool-cases (leb (2 ^ k) (b (left_leaf i)))) [
    | inl l ↦ rw l (Within-left b _ i _ (mark-Within b h (left_leaf i) k))
    | inr l ↦ rw l (Within-right b _ i _ (mark-Within b h (right_leaf i) k))
  ])
]

-- The refreshed node over two halves that are represented.
refresh-Rep :
    (c : ℕ → ℕ) (h i : ℕ) (l r : Tree)
    → Rep c h (left_leaf i) l
    → Rep c h (right_leaf i) r
    → Rep (refresh c i) (suc h) i (node l r)
refresh-Rep c h i l r p q = (
  update_self c i _
      ∙ ap₂ max (Rep-longest c h (left_leaf i) l p) (Rep-longest c h (right_leaf i) r q),
  Rep-write-left c h i _ l p,
  Rep-write-right c h i _ r q,
)

-- A half that is large enough exists below a node that is.
pub longest-upper :
    (h k : ℕ) (t : Tree)
    → suc h ≢ k
    → 2 ^ k ≤ longest (suc h) t
    → leb (2 ^ k) (longest h (lower t)) ≡ false
    → 2 ^ k ≤ longest h (upper t)
longest-upper h k free ne fits e = absurd (elim (dec_lt h k) [
  | yes above ↦ omega (arith, pow_pos h, pow_strict (suc h) k (omega arith))
  | no within ↦ ground (arith, pow_mono k h (omega arith))
])
longest-upper h k used ne fits e = absurd (omega (arith, pow_pos k))
longest-upper h k (node l r) ne fits e = ground arith

-- One level of `mark`, on each branch.
module _ (b : ℕ → ℕ) (h i k : ℕ) where
  pub mark-top : (suc h == k) ≡ true → mark b (suc h) i k ≡ update b i 0
  unfolding mark
  mark-top e = rw e

  pub mark-left :
      (suc h == k) ≡ false
      → leb (2 ^ k) (b (left_leaf i)) ≡ true
      → mark b (suc h) i k ≡ refresh (mark b h (left_leaf i) k) i
  unfolding mark
  mark-left e l = rw (e, l)

  pub mark-right :
      (suc h == k) ≡ false
      → leb (2 ^ k) (b (left_leaf i)) ≡ false
      → mark b (suc h) i k ≡ refresh (mark b h (right_leaf i) k) i
  unfolding mark
  mark-right e l = rw (e, l)

-- The same of the specification.
module _ (h k : ℕ) (t : Tree) where
  pub grant-top : (suc h == k) ≡ true → grant (suc h) k t ≡ used
  unfolding grant
  grant-top e = rw e

  pub grant_at-top : (suc h == k) ≡ true → grant_at (suc h) k t ≡ 0
  unfolding grant_at
  grant_at-top e = rw e

  pub grant-left :
      (suc h == k) ≡ false
      → leb (2 ^ k) (longest h (lower t)) ≡ true
      → grant (suc h) k t ≡ node (grant h k (lower t)) (upper t)
  unfolding grant
  grant-left e l = rw (e, l)

  pub grant-right :
      (suc h == k) ≡ false
      → leb (2 ^ k) (longest h (lower t)) ≡ false
      → grant (suc h) k t ≡ node (lower t) (grant h k (upper t))
  unfolding grant
  grant-right e l = rw (e, l)

  pub grant_at-left :
      (suc h == k) ≡ false
      → leb (2 ^ k) (longest h (lower t)) ≡ true
      → grant_at (suc h) k t ≡ grant_at h k (lower t)
  unfolding grant_at
  grant_at-left e l = rw (e, l)

  pub grant_at-right :
      (suc h == k) ≡ false
      → leb (2 ^ k) (longest h (lower t)) ≡ false
      → grant_at (suc h) k t ≡ 2 ^ h + grant_at h k (upper t)
  unfolding grant_at
  grant_at-right e l = rw (e, l)

pub free_at_top : (h k : ℕ) (t : Tree) → (suc h == k) ≡ true → 2 ^ k ≤ longest (suc h) t → t ≡ free
free_at_top h k t e fits =
    let height : suc h ≡ k = ground arith in
    free_of_longest (suc h) t (subst (λ m. 2 ^ m ≤ longest (suc h) t) (sym height) fits)

mark-Rep_top : (b : ℕ → ℕ) (h i : ℕ) → Rep b (suc h) i free → Rep (update b i 0) (suc h) i used
mark-Rep_top b h i r =
    (update_self b i 0, Rep-write-left b h i 0 free r.1, Rep-write-right b h i 0 free r.2)

-- `mark` does to the array what `grant` does to the tree.
pub mark-Rep :
    (b : ℕ → ℕ) (h i k : ℕ) (t : Tree)
    → 2 ^ k ≤ longest h t
    → Rep b h i t
    → Rep (mark b h i k) h i (grant h k t)
mark-Rep b zero i k t fits r = unfold mark grant in update_self b i 0
mark-Rep b (suc h) i k t fits r = elim (Bool-cases (suc h == k)) [
  | inl e ↦
      rw (mark-top b h i k e, grant-top h k t e)
        (mark-Rep_top b h i (subst (Rep b (suc h) i) (free_at_top h k t e fits) r))
  | inr e ↦
      let seen = Rep-longest b h (left_leaf i) (lower t) (Rep-lower b h i t r) in
      elim (Bool-cases (leb (2 ^ k) (longest h (lower t)))) [
        | inl l ↦
            rw (mark-left b h i k e (rw seen l), grant-left h k t e l)
              (refresh-Rep (mark b h (left_leaf i) k) h i _ _
                (mark-Rep b h (left_leaf i) k (lower t) (ground arith) (Rep-lower b h i t r))
                (Rep-beside-left b _ h i (upper t) (mark-Within b h (left_leaf i) k)
                  (Rep-upper b h i t r)))
        | inr l ↦
            rw (mark-right b h i k e (rw seen l), grant-right h k t e l)
              (refresh-Rep (mark b h (right_leaf i) k) h i _ _
                (Rep-beside-right b _ h i (lower t) (mark-Within b h (right_leaf i) k)
                  (Rep-lower b h i t r))
                (mark-Rep b h (right_leaf i) k (upper t) (longest-upper h k t (ground arith) fits l)
                  (Rep-upper b h i t r)))
      ]
]
