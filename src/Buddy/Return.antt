-- ===== src/Buddy/Return.antt =====
-- What the specification of arch/riscv/kernel/mm.c takes back: the block of the page, and nothing
-- else.
use tiny_riscv_os.Prelude.{
  ℕ, zero, suc, ◌+◌, ◌-◌, ◌^◌, ◌≤◌, ◌<◌, ◌≡◌, refl, ◌∙◌, inl, inr, true, false, arith, ltb,
  if◌then◌else◌, Bool-cases, pow-step,
}
use tiny_riscv_os.Buddy.Tree.{
  Tree, free, used, node, is_used, owner_at, owner_height, give_back, join,
}
use tiny_riscv_os.Buddy.Free.{give_back-left, give_back-right}
use tiny_riscv_os.Buddy.Grant.{in_block}
use tiny_riscv_os.Buddy.Complete.{WellFormed}

-- `join` is a node for every question about pages.
is_used-join :
    (h : ℕ) (l r : Tree) (p : ℕ) → is_used (suc h) (join l r) p ≡ is_used (suc h) (node l r) p
is_used-join h free free p = ground arith
is_used-join h free used p = refl
is_used-join h free (node a b) p = refl
is_used-join h used r p = refl
is_used-join h (node a b) r p = refl

owner_at-join :
    (h : ℕ) (l r : Tree) (p : ℕ)
    → is_used (suc h) (join l r) p ≡ true
    → owner_at (suc h) (join l r) p ≡ owner_at (suc h) (node l r) p
owner_at-join h free free p e = absurd (cc)
owner_at-join h free used p e = refl
owner_at-join h free (node a b) p e = refl
owner_at-join h used r p e = refl
owner_at-join h (node a b) r p e = refl

-- A page that is handed out lies in its block, and the block in the tree.
pub owner_inside :
    (h : ℕ) (t : Tree) (p : ℕ)
    → p < 2 ^ h
    → is_used h t p ≡ true
    → (in_block (owner_at h t p) (owner_height h t p) p ≡ true)
      × (owner_at h t p + 2 ^ owner_height h t p ≤ 2 ^ h)
owner_inside h free p lt u = absurd (cc)
owner_inside h used p lt u = (ground arith, omega arith)
owner_inside zero (node l r) p lt u = (ground arith, omega arith)
owner_inside (suc h) (node l r) p lt u =
    ground (arith, pow-step h, owner_inside h l p, owner_inside h r (p - 2 ^ h))

-- Which pages are handed out after the return of page p.
pub give_back-is_used :
    (h : ℕ) (t : Tree) (p j : ℕ)
    → p < 2 ^ h
    → j < 2 ^ h
    → is_used h t p ≡ true
    → is_used h (give_back h t p) j
      ≡ (if in_block (owner_at h t p) (owner_height h t p) j then false else is_used h t j)
give_back-is_used h free p j lt lj u = absurd (cc)
give_back-is_used h used p j lt lj u = unfold give_back in ground arith
give_back-is_used zero (node l r) p j lt lj u = unfold give_back in ground arith
give_back-is_used (suc h) (node l r) p j lt lj u = elim (Bool-cases (ltb p (2 ^ h))) [
  | inl e ↦
      rw (give_back-left h l r p e, is_used-join h (give_back h l p) r j)
        (ground (arith, give_back-is_used h l p j, owner_inside h l p))
  | inr e ↦
      rw (give_back-right h l r p e, is_used-join h l (give_back h r (p - 2 ^ h)) j)
        (ground (
          arith,
          pow-step h,
          give_back-is_used h r (p - 2 ^ h) (j - 2 ^ h),
          owner_inside h r (p - 2 ^ h),
        ))
]

-- A page that is still handed out is so in the same block as before.
pub give_back-owner_at :
    (h : ℕ) (t : Tree) (p j : ℕ)
    → p < 2 ^ h
    → j < 2 ^ h
    → is_used h (give_back h t p) j ≡ true
    → owner_at h (give_back h t p) j ≡ owner_at h t j
give_back-owner_at h free p j lt lj u = unfold give_back in refl
give_back-owner_at h used p j lt lj u = unfold give_back in refl
give_back-owner_at zero (node l r) p j lt lj u = unfold give_back in refl
give_back-owner_at (suc h) (node l r) p j lt lj u = elim (Bool-cases (ltb p (2 ^ h))) [
  | inl e ↦
      let u' = rw (give_back-left h l r p e) at u in
      let u'' = rw (is_used-join h (give_back h l p) r j) at u' in
      rw (give_back-left h l r p e)
        (owner_at-join h (give_back h l p) r j u' ∙ ground (arith, give_back-owner_at h l p j))
  | inr e ↦
      let u' = rw (give_back-right h l r p e) at u in
      let u'' = rw (is_used-join h l (give_back h r (p - 2 ^ h)) j) at u' in
      rw (give_back-right h l r p e) (
        owner_at-join h l (give_back h r (p - 2 ^ h)) j u'
        ∙ ground (arith, pow-step h, give_back-owner_at h r (p - 2 ^ h) (j - 2 ^ h)))
]

join-WellFormed :
    (h : ℕ) (l r : Tree) → WellFormed h l → WellFormed h r → WellFormed (suc h) (join l r)
join-WellFormed h free free w v = tt
join-WellFormed h free used w v = (refl, w, v)
join-WellFormed h free (node a b) w v = (refl, w, v)
join-WellFormed h used r w v = (refl, w, v)
join-WellFormed h (node a b) r w v = (refl, w, v)

pub give_back-WellFormed :
    (h : ℕ) (t : Tree) (p : ℕ) → WellFormed h t → WellFormed h (give_back h t p)
give_back-WellFormed h free p w = unfold give_back in tt
give_back-WellFormed h used p w = unfold give_back in tt
give_back-WellFormed zero (node l r) p w = absurd w
give_back-WellFormed (suc h) (node l r) p w = elim (Bool-cases (ltb p (2 ^ h))) [
  | inl e ↦
      rw (give_back-left h l r p e) (join-WellFormed h _ r (give_back-WellFormed h l p w.1) w.2)
  | inr e ↦
      rw (give_back-right h l r p e)
        (join-WellFormed h l _ w.1 (give_back-WellFormed h r (p - 2 ^ h) w.2))
]

-- All pages of a block have the same first page.
pub owner_at_same :
    (h : ℕ) (t : Tree) (p j : ℕ)
    → p < 2 ^ h
    → j < 2 ^ h
    → is_used h t p ≡ true
    → in_block (owner_at h t p) (owner_height h t p) j ≡ true
    → owner_at h t j ≡ owner_at h t p
owner_at_same h free p j lt lj u i = refl
owner_at_same h used p j lt lj u i = refl
owner_at_same zero (node l r) p j lt lj u i = refl
owner_at_same (suc h) (node l r) p j lt lj u i = ground (
  arith,
  pow-step h,
  owner_inside h l p,
  owner_at_same h l p j,
  owner_at_same h r (p - 2 ^ h) (j - 2 ^ h),
)
