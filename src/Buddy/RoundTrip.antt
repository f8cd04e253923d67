-- ===== src/Buddy/RoundTrip.antt =====
-- The specification of arch/riscv/kernel/mm.c: to grant a block and to take it back is to do nothing.
use tiny_riscv_os.Prelude.{
  ℕ, zero, suc, ◌+◌, ◌-◌, ◌^◌, ◌≤◌, ◌≡◌, ◌≢◌, refl, sym, inl, inr, true, false, arith, ltb, leb,
  ◌==◌, if◌then◌else◌, Bool-cases, pow_pos,
}
use tiny_riscv_os.Buddy.Tree.{
  Tree, free, used, node, lower, upper, longest, is_used, owner_at, grant, grant_at, give_back,
  join,
}
use tiny_riscv_os.Buddy.Alloc.{
  grant-top, grant-left, grant-right, grant_at-top, grant_at-left, grant_at-right, longest-upper,
  free_at_top,
}
use tiny_riscv_os.Buddy.Free.{give_back-left, give_back-right}
use tiny_riscv_os.Buddy.Grant.{in_block, is_used-halves, grant_at_fits, ne_used}
use tiny_riscv_os.Buddy.Complete.{WellFormed, WellFormed-lower, WellFormed-upper}

join-halves : (h : ℕ) (t : Tree) → WellFormed (suc h) t → t ≢ used → join (lower t) (upper t) ≡ t
join-halves h free w ne = refl
join-halves h used w ne = absurd (ne refl)
join-halves h (node l r) w ne = w.0

longest-zero_free : (k : ℕ) (t : Tree) → 2 ^ k ≤ longest 0 t → t ≡ free
longest-zero_free k free fits = refl
longest-zero_free k used fits = absurd (omega (arith, pow_pos k))
longest-zero_free k (node l r) fits = absurd (omega (arith, pow_pos k))

pub give_back-grant :
    (h k : ℕ) (t : Tree) (p : ℕ)
    → WellFormed h t
    → 2 ^ k ≤ longest h t
    → in_block (grant_at h k t) k p ≡ true
    → give_back h (grant h k t) p ≡ t
give_back-grant zero k t p w fits inside =
    unfold grant give_back in sym (longest-zero_free k t fits)
give_back-grant (suc h) k t p w fits inside = elim (Bool-cases (suc h == k)) [
  | inl e ↦ rw (grant-top h k t e) (unfold give_back in sym (free_at_top h k t e fits))
  | inr e ↦ elim (Bool-cases (leb (2 ^ k) (longest h (lower t)))) [
    | inl l ↦
        let room : 2 ^ k ≤ longest h (lower t) = ground arith in
        let inside' = rw (grant_at-left h k t e l) at inside in
        let low : ltb p (2 ^ h) ≡ true = ground (arith, grant_at_fits h k (lower t) room) in
        rw
          (
            grant-left h k t e l,
            give_back-left h (grant h k (lower t)) (upper t) p low,
            give_back-grant h k (lower t) p (WellFormed-lower h t w) room inside',
          )
          (join-halves h t w (ne_used (suc h) k t fits))
    | inr l ↦
        let room = longest-upper h k t (ground arith) fits l in
        let inside' = rw (grant_at-right h k t e l) at inside in
        let high : ltb p (2 ^ h) ≡ false = ground arith in
        let shifted : in_block (grant_at h k (upper t)) k (p - 2 ^ h) ≡ true = ground arith in
        rw
          (
            grant-right h k t e l,
            give_back-right h (lower t) (grant h k (upper t)) p high,
            give_back-grant h k (upper t) (p - 2 ^ h) (WellFormed-upper h t w) room shifted,
          )
          (join-halves h t w (ne_used (suc h) k t fits))
  ]
]

owner_at-halves :
    (h : ℕ) (t : Tree) (p : ℕ)
    → t ≢ used
    → is_used (suc h) t p ≡ true
    → owner_at (suc h) t p
      ≡ (if ltb p (2 ^ h) then owner_at h (lower t) p else 2 ^ h + owner_at h (upper t) (p - 2 ^ h))
owner_at-halves h free p ne u = absurd (cc)
owner_at-halves h used p ne u = absurd (ne refl)
owner_at-halves h (node l r) p ne u = refl

-- A page that was handed out stays in its block.
pub grant-owner_at :
    (h k : ℕ) (t : Tree) (p : ℕ)
    → 2 ^ k ≤ longest h t
    → is_used h t p ≡ true
    → owner_at h (grant h k t) p ≡ owner_at h t p
grant-owner_at zero k t p fits u = unfold grant in rw (longest-zero_free k t fits) refl
grant-owner_at (suc h) k t p fits u = elim (Bool-cases (suc h == k)) [
  | inl e ↦ rw (grant-top h k t e, free_at_top h k t e fits) refl
  | inr e ↦
      let u' = rw (is_used-halves h t p (ne_used (suc h) k t fits)) at u in
      rw (owner_at-halves h t p (ne_used (suc h) k t fits) u)
        (elim (Bool-cases (leb (2 ^ k) (longest h (lower t)))) [
          | inl l ↦ rw (grant-left h k t e l) (ground (arith, grant-owner_at h k (lower t) p))
          | inr l ↦ rw (grant-right h k t e l) (
              ground (
                arith,
                grant-owner_at h k (upper t) (p - 2 ^ h)
                    (longest-upper h k t (ground arith) fits l),
              ))
        ])
]

-- The pages of the granted block belong to it.
pub grant-owner_at_block :
    (h k : ℕ) (t : Tree) (p : ℕ)
    → 2 ^ k ≤ longest h t
    → in_block (grant_at h k t) k p ≡ true
    → owner_at h (grant h k t) p ≡ grant_at h k t
grant-owner_at_block zero k t p fits inside = unfold grant grant_at in refl
grant-owner_at_block (suc h) k t p fits inside = elim (Bool-cases (suc h == k)) [
  | inl e ↦ rw (grant-top h k t e, grant_at-top h k t e) refl
  | inr e ↦ elim (Bool-cases (leb (2 ^ k) (longest h (lower t)))) [
    | inl l ↦
        let room : 2 ^ k ≤ longest h (lower t) = ground arith in
        let inside' = rw (grant_at-left h k t e l) at inside in
        rw (grant-left h k t e l, grant_at-left h k t e l)
          (ground
            (arith, grant_at_fits h k (lower t) room, grant-owner_at_block h k (lower t) p room))
    | inr l ↦
        let room = longest-upper h k t (ground arith) fits l in
        let inside' = rw (grant_at-right h k t e l) at inside in
        rw (grant-right h k t e l, grant_at-right h k t e l)
          (ground (arith, grant-owner_at_block h k (upper t) (p - 2 ^ h) room))
  ]
]
