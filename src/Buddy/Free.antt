-- ===== src/Buddy/Free.antt =====
-- The loops of buddy_free in arch/riscv/kernel/mm.c, by recursion on the tree.
use tiny_riscv_os.Prelude.{
  ℕ, zero, suc, ◌+◌, ◌-◌, ◌^◌, ◌≡◌, refl, inl, inr, true, false, arith, ltb, ◌==◌, if◌then◌else◌,
  Bool-cases, update, update_self, pow-step, subst,
}
use tiny_riscv_os.Buddy.{left_leaf, right_leaf, merge}
use tiny_riscv_os.Buddy.Tree.{Tree, free, used, node, longest, give_back, join}
use tiny_riscv_os.Buddy.Rep.{
  Rep, Rep-longest, Within, Within-update, Within-left, Within-right, Rep-write-left,
  Rep-write-right, Rep-beside-left, Rep-beside-right, longest-le, free_of_longest,
}

-- Take back the block of page p below node i, and merge the nodes between.
unfoldable pub unmark : (ℕ → ℕ) → ℕ → ℕ → Tree → ℕ → ℕ → ℕ
unmark b h i free p = b
unmark b h i used p = update b i (2 ^ h)
unmark b zero i (node l r) p = b
unmark b (suc h) i (node l r) p =
    let below = merge (unmark b h (left_leaf i) l p) i (2 ^ suc h) in
    let above = merge (unmark b h (right_leaf i) r (p - 2 ^ h)) i (2 ^ suc h) in
    if ltb p (2 ^ h) then below else above

unmark-Within : (b : ℕ → ℕ) (h i : ℕ) (t : Tree) (p : ℕ) → Within b (unmark b h i t p) i
unfolding unmark
unmark-Within b h i free p = λ j o. refl
unmark-Within b h i used p = Within-update b i (2 ^ h)
unmark-Within b zero i (node l r) p = λ j o. refl
unmark-Within b (suc h) i (node l r) p = elim (Bool-cases (ltb p (2 ^ h))) [
  | inl e ↦ rw e (Within-left b _ i _ (unmark-Within b h (left_leaf i) l p))
  | inr e ↦ rw e (Within-right b _ i _ (unmark-Within b h (right_leaf i) r (p - 2 ^ h)))
]

-- Two free buddies add up to the whole node, and nothing else does.
join_full :
    (h : ℕ) (l r : Tree) → (longest h l + longest h r == 2 ^ suc h) ≡ true → (l ≡ free) × (r ≡ free)
join_full h l r e =
    let sum : longest h l + longest h r ≡ 2 ^ suc h = ground arith in
    (
      free_of_longest h l (omega (arith, pow-step h, longest-le h r)),
      free_of_longest h r (omega (arith, pow-step h, longest-le h l)),
    )

join_parted :
    (h : ℕ) (l r : Tree) → (longest h l + longest h r == 2 ^ suc h) ≡ false → join l r ≡ node l r
join_parted h free free e = absurd (ground (arith, pow-step h))
join_parted h free used e = refl
join_parted h free (node a b) e = refl
join_parted h used r e = refl
join_parted h (node a b) r e = refl

merge-Rep :
    (c : ℕ → ℕ) (h i : ℕ) (l r : Tree)
    → Rep c h (left_leaf i) l
    → Rep c h (right_leaf i) r
    → Rep (merge c i (2 ^ suc h)) (suc h) i (join l r)
merge-Rep c h i l r p q =
    let cl = Rep-longest c h (left_leaf i) l p in
    let cr = Rep-longest c h (right_leaf i) r q in
    elim (Bool-cases (longest h l + longest h r == 2 ^ suc h)) [
      | inl e ↦
          let (fl, fr) = join_full h l r e in
          rw (fl, fr)
            (
              ground (arith, update_self c i (2 ^ suc h)),
              Rep-write-left c h i _ free (subst (Rep c h (left_leaf i)) fl p),
              Rep-write-right c h i _ free (subst (Rep c h (right_leaf i)) fr q),
            )
      | inr e ↦
          rw (join_parted h l r e)
            (ground arith, Rep-write-left c h i _ l p, Rep-write-right c h i _ r q)
    ]

module _ (b : ℕ → ℕ) (h i : ℕ) (l r : Tree) (p : ℕ) where
  pub unmark-left :
      ltb p (2 ^ h) ≡ true
      → unmark b (suc h) i (node l r) p ≡ merge (unmark b h (left_leaf i) l p) i (2 ^ suc h)
  unfolding unmark
  unmark-left e = rw e

  pub unmark-right :
      ltb p (2 ^ h) ≡ false
      → unmark b (suc h) i (node l r) p
        ≡ merge (unmark b h (right_leaf i) r (p - 2 ^ h)) i (2 ^ suc h)
  unfolding unmark
  unmark-right e = rw e

module _ (h : ℕ) (l r : Tree) (p : ℕ) where
  pub give_back-left :
      ltb p (2 ^ h) ≡ true → give_back (suc h) (node l r) p ≡ join (give_back h l p) r
  unfolding give_back
  give_back-left e = rw e

  pub give_back-right :
      ltb p (2 ^ h) ≡ false → give_back (suc h) (node l r) p ≡ join l (give_back h r (p - 2 ^ h))
  unfolding give_back
  give_back-right e = rw e

-- `unmark` does to the array what `give_back` does to the tree.
pub unmark-Rep :
    (b : ℕ → ℕ) (h i : ℕ) (t : Tree) (p : ℕ)
    → Rep b h i t
    → Rep (unmark b h i t p) h i (give_back h t p)
unmark-Rep b h i free p r = unfold unmark give_back in r
unmark-Rep b zero i used p r = unfold unmark give_back in update_self b i 1
unmark-Rep b (suc h) i used p r =
    unfold unmark give_back in
    (update_self b i (2 ^ suc h), Rep-write-left b h i _ free r.1, Rep-write-right b h i _ free r.2)
unmark-Rep b zero i (node l r) p x = absurd x
unmark-Rep b (suc h) i (node l r) p x = elim (Bool-cases (ltb p (2 ^ h))) [
  | inl e ↦
      rw (unmark-left b h i l r p e, give_back-left h l r p e)
        (merge-Rep _ h i _ r (unmark-Rep b h (left_leaf i) l p x.1)
          (Rep-beside-left b _ h i r (unmark-Within b h (left_leaf i) l p) x.2))
  | inr e ↦
      rw (unmark-right b h i l r p e, give_back-right h l r p e)
        (merge-Rep _ h i l _
          (Rep-beside-right b _ h i l (unmark-Within b h (right_leaf i) r (p - 2 ^ h)) x.1)
          (unmark-Rep b h (right_leaf i) r (p - 2 ^ h) x.2))
]
