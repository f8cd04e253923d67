-- ===== src/Buddy/Grant.antt =====
-- What the specification of arch/riscv/kernel/mm.c grants: a block inside the tree, aligned to its
-- size, free before, and nothing else.
use tiny_riscv_os.Prelude.{
  ℕ, zero, suc, ◌+◌, ◌-◌, ◌^◌, ◌≤◌, ◌<◌, ◌≡◌, ◌≢◌, refl, ap, inl, inr, Bool, true, false, ◌&&◌,
  arith, ltb, leb, ◌==◌, if◌then◌else◌, Bool-cases, pow-step, pow_pos,
}
use tiny_riscv_os.Buddy.Tree.{
  Tree, free, used, node, lower, upper, longest, is_used, grant, grant_at,
}
use tiny_riscv_os.Buddy.Rep.{longest-le}
use tiny_riscv_os.Buddy.Alloc.{
  grant-top, grant-left, grant-right, grant_at-top, grant_at-left, grant_at-right, longest-upper,
  free_at_top,
}

-- Whether page p lies in the block of 2^k pages from `start` on.
abbrev pub in_block : ℕ → ℕ → ℕ → Bool
in_block start k p = leb start p && ltb p (start + 2 ^ k)

pub is_used-halves :
    (h : ℕ) (t : Tree) (p : ℕ)
    → t ≢ used
    → is_used (suc h) t p
      ≡ (if ltb p (2 ^ h) then is_used h (lower t) p else is_used h (upper t) (p - 2 ^ h))
is_used-halves h free p ne = ground arith
is_used-halves h used p ne = absurd (ne refl)
is_used-halves h (node l r) p ne = refl

pub ne_used : (h k : ℕ) (t : Tree) → 2 ^ k ≤ longest h t → t ≢ used
ne_used h k t fits e = absurd (omega (arith, pow_pos k, zero_used))
  where
    zero_used : longest h t ≡ 0
    zero_used = rw e

longest-zero : (k : ℕ) (t : Tree) → 2 ^ k ≤ longest 0 t → (k ≡ 0) × (t ≡ free)
longest-zero zero free fits = (refl, refl)
longest-zero zero used fits = absurd (omega arith)
longest-zero zero (node l r) fits = absurd (omega arith)
longest-zero (suc k) t fits = absurd (omega (arith, pow-step k, pow_pos k, longest-le 0 t))

-- The block ends inside the tree, and starts at a multiple of its size.
pub grant_at_fits : (h k : ℕ) (t : Tree) → 2 ^ k ≤ longest h t → grant_at h k t + 2 ^ k ≤ 2 ^ h
grant_at_fits zero k t fits = unfold grant_at in omega (arith, longest-le 0 t)
grant_at_fits (suc h) k t fits = elim (Bool-cases (suc h == k)) [
  | inl e ↦ rw (grant_at-top h k t e) (omega (arith, longest-le (suc h) t))
  | inr e ↦ elim (Bool-cases (leb (2 ^ k) (longest h (lower t)))) [
    | inl l ↦
        rw (grant_at-left h k t e l)
          (omega (arith, pow-step h, grant_at_fits h k (lower t) (ground arith)))
    | inr l ↦ rw (grant_at-right h k t e l) (
        omega (
          arith,
          pow-step h,
          grant_at_fits h k (upper t) (longest-upper h k t (ground arith) fits l),
        ))
  ]
]

-- The pages of the tree after a grant.
pub grant-is_used :
    (h k : ℕ) (t : Tree) (p : ℕ)
    → 2 ^ k ≤ longest h t
    → p < 2 ^ h
    → is_used h (grant h k t) p ≡ (if in_block (grant_at h k t) k p then true else is_used h t p)
grant-is_used zero k t p fits lt =
    let (e, e') = longest-zero k t fits in unfold grant grant_at in rw e (ground arith)
grant-is_used (suc h) k t p fits lt = elim (Bool-cases (suc h == k)) [
  | inl e ↦
      rw (grant-top h k t e, grant_at-top h k t e)
        (ground (arith, longest-le (suc h) t, ap (λ (m : ℕ). 2 ^ m) (height e)))
  | inr e ↦ elim (Bool-cases (leb (2 ^ k) (longest h (lower t)))) [
    | inl l ↦
        rw
          (
            grant-left h k t e l,
            grant_at-left h k t e l,
            is_used-halves h t p (ne_used (suc h) k t fits),
          )
          (ground (arith, grant_at_fits h k (lower t), grant-is_used h k (lower t) p))
    | inr l ↦
        let room = longest-upper h k t (ground arith) fits l in
        rw
          (
            grant-right h k t e l,
            grant_at-right h k t e l,
            is_used-halves h t p (ne_used (suc h) k t fits),
          )
          (ground (arith, pow-step h, grant-is_used h k (upper t) (p - 2 ^ h) room))
  ]
]
  where
    height : (suc h == k) ≡ true → suc h ≡ k
    height e = ground arith

-- The block was free.
pub grant_was_free :
    (h k : ℕ) (t : Tree) (p : ℕ)
    → 2 ^ k ≤ longest h t
    → in_block (grant_at h k t) k p ≡ true
    → is_used h t p ≡ false
grant_was_free zero k t p fits inside = rw (longest-zero k t fits).1
grant_was_free (suc h) k t p fits inside = elim (Bool-cases (suc h == k)) [
  | inl e ↦ rw (free_at_top h k t e fits)
  | inr e ↦ elim (Bool-cases (leb (2 ^ k) (longest h (lower t)))) [
    | inl l ↦
        let inside' = rw (grant_at-left h k t e l) at inside in
        rw (is_used-halves h t p (ne_used (suc h) k t fits))
          (ground (arith, grant_at_fits h k (lower t), grant_was_free h k (lower t) p))
    | inr l ↦
        let inside' = rw (grant_at-right h k t e l) at inside in
        let room = longest-upper h k t (ground arith) fits l in
        rw (is_used-halves h t p (ne_used (suc h) k t fits))
          (ground (arith, grant_was_free h k (upper t) (p - 2 ^ h) room))
  ]
]
