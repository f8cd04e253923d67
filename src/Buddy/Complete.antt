-- ===== src/Buddy/Complete.antt =====
-- The specification of arch/riscv/kernel/mm.c refuses a request only if no aligned block is free,
-- and grants the lowest one.
use tiny_riscv_os.Prelude.{
  ℕ, zero, suc, ◌+◌, ◌-◌, ◌*◌, ◌^◌, ◌≤◌, ◌<◌, ◌≡◌, ◌≢◌, ◌⊎◌, refl, sym, ap, ap₂, inl, inr, true,
  false, arith, leb, ◌==◌, Bool-cases, pow-step, pow_pos, pow_strict, pow-add, dec_lt, subst,
}
use native.Mathlib.Nat.{mul-le-mul_right}
use tiny_riscv_os.Buddy.Tree.{
  Tree, free, used, node, lower, upper, longest, is_used, grant, grant_at, join,
}
use tiny_riscv_os.Buddy.Rep.{longest-le}
use tiny_riscv_os.Buddy.Alloc.{
  grant-top, grant-left, grant-right, grant_at-top, grant_at-left, grant_at-right, longest-upper,
}
use tiny_riscv_os.Buddy.Grant.{in_block, grant_at_fits, is_used-halves}

-- Two free buddies are never kept apart.
abbrev pub WellFormed : ℕ → Tree → Type 0
WellFormed h free = Unit
WellFormed h used = Unit
WellFormed zero (node l r) = ⊥
WellFormed (suc h) (node l r) = (join l r ≡ node l r) × WellFormed h l × WellFormed h r

pub WellFormed-lower : (h : ℕ) (t : Tree) → WellFormed (suc h) t → WellFormed h (lower t)
WellFormed-lower h free w = tt
WellFormed-lower h used w = tt
WellFormed-lower h (node l r) w = w.1

pub WellFormed-upper : (h : ℕ) (t : Tree) → WellFormed (suc h) t → WellFormed h (upper t)
WellFormed-upper h free w = tt
WellFormed-upper h used w = tt
WellFormed-upper h (node l r) w = w.2

join-ne_left : (l r : Tree) → l ≢ free → join l r ≡ node l r
join-ne_left free r ne = absurd (ne refl)
join-ne_left used r ne = refl
join-ne_left (node a b) r ne = refl

join-ne_right : (l r : Tree) → r ≢ free → join l r ≡ node l r
join-ne_right free free ne = absurd (ne refl)
join-ne_right free used ne = refl
join-ne_right free (node a b) ne = refl
join-ne_right used r ne = refl
join-ne_right (node a b) r ne = refl

grant-ne_free : (h k : ℕ) (t : Tree) → grant h k t ≢ free
unfolding grant
grant-ne_free zero k t e = cc
grant-ne_free (suc h) k t e = ground arith

pub grant-WellFormed : (h k : ℕ) (t : Tree) → WellFormed h t → WellFormed h (grant h k t)
grant-WellFormed zero k t w = unfold grant in tt
grant-WellFormed (suc h) k t w = elim (Bool-cases (suc h == k)) [
  | inl e ↦ rw (grant-top h k t e) tt
  | inr e ↦ elim (Bool-cases (leb (2 ^ k) (longest h (lower t)))) [
    | inl l ↦ rw (grant-left h k t e l) (
      join-ne_left _ _ (grant-ne_free h k (lower t)),
      grant-WellFormed h k (lower t) (WellFormed-lower h t w),
      WellFormed-upper h t w,
    )
    | inr l ↦ rw (grant-right h k t e l) (
      join-ne_right _ _ (grant-ne_free h k (upper t)),
      WellFormed-lower h t w,
      grant-WellFormed h k (upper t) (WellFormed-upper h t w),
    )
  ]
]

-- A tree all of whose pages are free is one block.
pub free_of_all :
    (h : ℕ) (t : Tree) → WellFormed h t → ((p : ℕ) → p < 2 ^ h → is_used h t p ≡ false) → t ≡ free
free_of_all h free w all = refl
free_of_all h used w all = absurd (cc (all 0 (pow_pos h)))
free_of_all zero (node l r) w all = absurd w
free_of_all (suc h) (node l r) w all =
    let left : l ≡ free = free_of_all h l w.1 λ p lt. ground (arith, pow-step h, all p) in
    let right : r ≡ free =
      free_of_all h r w.2 λ p lt. ground (arith, pow-step h, all (2 ^ h + p), shift p) in
    absurd (cc (w.0, ap₂ join left right))
  where
    shift : (p : ℕ) → 2 ^ h + p - 2 ^ h ≡ p
    shift p = omega arith

-- All pages of block q of 2^k pages are free.
abbrev pub IsFreeBlock : ℕ → ℕ → Tree → ℕ → Type 0
IsFreeBlock h k t q = (p : ℕ) → in_block (q * 2 ^ k) k p ≡ true → is_used h t p ≡ false

le_of_pow : (a b : ℕ) → 2 ^ a ≤ 2 ^ b → a ≤ b
le_of_pow a b h = elim (dec_lt b a) [
  | yes lt ↦ absurd (omega (arith, pow_strict b a lt, pow_pos b))
  | no ge ↦ omega arith
]

-- The number of blocks of 2^k pages in a tree of height h.
blocks : (h k : ℕ) → k ≤ h → (m : ℕ) × (2 ^ h ≡ m * 2 ^ k)
blocks h k le = (2 ^ (h - k), subst (λ n. 2 ^ n ≡ 2 ^ (h - k) * 2 ^ k) split (pow-add (h - k) k))
  where
    split : h - k + k ≡ h
    split = omega arith

one_block_le : (k q : ℕ) → 2 ^ k ≤ (q + 1) * 2 ^ k
one_block_le k q = omega arith

module _ (h k : ℕ) (t : Tree) (m : ℕ) (size : 2 ^ h ≡ m * 2 ^ k) (ne : t ≢ used) where
  -- A block in the lower half of the tree, and one in the upper half.
  IsFreeBlock-lower : (q : ℕ) → q < m → IsFreeBlock (suc h) k t q → IsFreeBlock h k (lower t) q
  IsFreeBlock-lower q lt all p inside = ground (
    arith,
    is_used-halves h t p ne,
    all p,
    mul-le-mul_right {m = q + 1} {n = m} (2 ^ k) (omega arith),
  )

  IsFreeBlock-upper : (q : ℕ) → IsFreeBlock (suc h) k t (m + q) → IsFreeBlock h k (upper t) q
  IsFreeBlock-upper q all p inside =
      ground (arith, is_used-halves h t (2 ^ h + p) ne, all (2 ^ h + p), shift)
    where
      shift : 2 ^ h + p - 2 ^ h ≡ p
      shift = omega arith

not_used_of_block : (h k : ℕ) (t : Tree) (q : ℕ) → IsFreeBlock h k t q → t ≢ used
not_used_of_block h k t q all e =
    cc (all (q * 2 ^ k) (ground (arith, pow_pos k)), ap (λ u. is_used h u (q * 2 ^ k)) e)

-- A free block that is smaller than the tree lies in one of its halves.
abbrev Half : ℕ → ℕ → Tree → ℕ → Type 0
Half h k t q =
    (IsFreeBlock h k (lower t) q × (q + 1) * 2 ^ k ≤ 2 ^ h)
    ⊎ ((q' : ℕ) × IsFreeBlock h k (upper t) q'
        × (q' + 1) * 2 ^ k ≤ 2 ^ h
        × (q * 2 ^ k ≡ 2 ^ h + q' * 2 ^ k))

Half-of_count :
    (h k : ℕ) (t : Tree) (q m : ℕ)
    → 2 ^ h ≡ m * 2 ^ k
    → t ≢ used
    → (q + 1) * 2 ^ k ≤ 2 ^ suc h
    → IsFreeBlock (suc h) k t q
    → Half h k t q
Half-of_count h k t q m size ne fits all = elim (dec_lt q m) [
  | yes lt ↦ inl (
    IsFreeBlock-lower h k t m size ne q lt all,
    omega (arith, mul-le-mul_right {m = q + 1} {n = m} (2 ^ k) (omega arith)),
  )
  | no ge ↦
      let there : m + (q - m) ≡ q = omega arith in
      let start : q * 2 ^ k ≡ 2 ^ h + (q - m) * 2 ^ k =
        omega (arith, ap (λ (n : ℕ). n * 2 ^ k) there) in
      inr (
        q - m,
        IsFreeBlock-upper h k t m size ne (q - m) (subst (IsFreeBlock (suc h) k t) (sym there) all),
        omega (arith, pow-step h),
        start,
      )
]

Half-of_block :
    (h k : ℕ) (t : Tree) (q : ℕ)
    → (suc h == k) ≡ false
    → t ≢ used
    → (q + 1) * 2 ^ k ≤ 2 ^ suc h
    → IsFreeBlock (suc h) k t q
    → Half h k t q
Half-of_block h k t q e ne fits all =
    let le : k ≤ h = ground (arith, le_of_pow k (suc h) (omega (arith, one_block_le k q))) in
    Half-of_count h k t q (blocks h k le).0 (blocks h k le).1 ne fits all

whole_block :
    (h : ℕ) (t : Tree) (q : ℕ)
    → WellFormed h t
    → (q + 1) * 2 ^ h ≤ 2 ^ h
    → IsFreeBlock h h t q
    → t ≡ free
whole_block h t q w fits all = free_of_all h t w λ p lt. ground (arith, all p, first)
  where
    first : q * 2 ^ h ≡ 0
    first = omega arith

-- A free block is found.
pub longest_of_block :
    (h k : ℕ) (t : Tree) (q : ℕ)
    → WellFormed h t
    → (q + 1) * 2 ^ k ≤ 2 ^ h
    → IsFreeBlock h k t q
    → 2 ^ k ≤ longest h t
longest_of_block h k free q w fits all = omega (arith, one_block_le k q)
longest_of_block h k used q w fits all = absurd (not_used_of_block h k used q all refl)
longest_of_block zero k (node l r) q w fits all = absurd w
longest_of_block (suc h) k (node l r) q w fits all = elim (Bool-cases (suc h == k)) [
  | inl e ↦
      let height : suc h ≡ k = ground arith in
      absurd (
        cc (
          whole_block (suc h) (node l r) q w
            (subst (λ n. (q + 1) * 2 ^ n ≤ 2 ^ suc h) (sym height) fits)
            (subst (λ n. IsFreeBlock (suc h) n (node l r) q) (sym height) all)))
  | inr e ↦
      elim (Half-of_block h k (node l r) q e (not_used_of_block (suc h) k (node l r) q all) fits
        all) [
          | inl (below, room) ↦ omega (arith, longest_of_block h k l q w.1 room below)
          | inr (q', above, room, _) ↦ omega (arith, longest_of_block h k r q' w.2 room above)
        ]
]

-- No free block stands before the one that is granted.
pub grant_at_lowest :
    (h k : ℕ) (t : Tree) (q : ℕ)
    → WellFormed h t
    → 2 ^ k ≤ longest h t
    → (q + 1) * 2 ^ k ≤ 2 ^ h
    → IsFreeBlock h k t q
    → grant_at h k t ≤ q * 2 ^ k
grant_at_lowest zero k t q w room fits all = unfold grant_at in omega arith
grant_at_lowest (suc h) k t q w room fits all = elim (Bool-cases (suc h == k)) [
  | inl e ↦ rw (grant_at-top h k t e) (omega arith)
  | inr e ↦
      let half = Half-of_block h k t q e (not_used_of_block (suc h) k t q all) fits all in
      elim (Bool-cases (leb (2 ^ k) (longest h (lower t)))) [
        | inl l ↦ rw (grant_at-left h k t e l) (elim half [
          | inl (below, inside) ↦
              grant_at_lowest h k (lower t) q (WellFormed-lower h t w) (ground arith) inside below
          | inr (q', above, inside, start) ↦
              omega (arith, pow_pos k, grant_at_fits h k (lower t) (ground arith))
        ])
        | inr l ↦ rw (grant_at-right h k t e l) (elim half [
          | inl (below, inside) ↦ absurd (
              ground
                (arith, longest_of_block h k (lower t) q (WellFormed-lower h t w) inside below))
          | inr (q', above, inside, start) ↦ omega (
            arith,
            grant_at_lowest h k (upper t) q' (WellFormed-upper h t w)
                (longest-upper h k t (ground arith) room l) inside above,
          )
        ])
      ]
]

-- The granted block starts at a multiple of its size.
pub grant_at_aligned :
    (h k : ℕ) (t : Tree) → 2 ^ k ≤ longest h t → (q : ℕ) × (grant_at h k t ≡ q * 2 ^ k)
grant_at_aligned zero k t fits = (0, unfold grant_at in omega arith)
grant_at_aligned (suc h) k t fits = elim (Bool-cases (suc h == k)) [
  | inl e ↦ (0, rw (grant_at-top h k t e) (omega arith))
  | inr e ↦ elim (Bool-cases (leb (2 ^ k) (longest h (lower t)))) [
    | inl l ↦ rw (grant_at-left h k t e l) (grant_at_aligned h k (lower t) (ground arith))
    | inr l ↦
        let le : k ≤ h =
          ground (arith, le_of_pow k (suc h) (omega (arith, longest-le (suc h) t))) in
        let rest = grant_at_aligned h k (upper t) (longest-upper h k t (ground arith) fits l) in
        (
          (blocks h k le).0 + rest.0,
          rw (grant_at-right h k t e l) (omega (arith, (blocks h k le).1, rest.1)),
        )
  ]
]
