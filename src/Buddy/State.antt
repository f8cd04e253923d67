-- ===== src/Buddy/State.antt =====
-- buddy_alloc and buddy_free of arch/riscv/kernel/mm.c refine the specification.
use tiny_riscv_os.Prelude.{
  ℕ, ◌+◌, ◌-◌, ◌*◌, ◌%◌, ◌^◌, ◌≤◌, ◌<◌, ◌≡◌, ◌≢◌, refl, sym, ◌∙◌, ap, inl, inr, true, false, some,
  arith, ltb, ◌==◌, Bool-cases, update, pow_pos, pow_strict, subst, lt-pow, ℕ_discrete,
}
use tiny_riscv_os.Buddy.{
  Buddy, word, round_pages, descend, climb_loop, buddy_alloc, merge_loop, release, buddy_free,
}
use tiny_riscv_os.Buddy.Tree.{
  Tree, longest, is_used, owner_at, owner_height, grant, grant_at, give_back,
}
use tiny_riscv_os.Buddy.Rep.{Rep, Rep-longest}
use tiny_riscv_os.Buddy.Alloc.{mark, mark-Rep}
use tiny_riscv_os.Buddy.Descend.{descend-Found}
use tiny_riscv_os.Buddy.Free.{unmark, unmark-Rep}
use tiny_riscv_os.Buddy.Ascend.{ascend-Released}
use tiny_riscv_os.Buddy.Grant.{in_block, grant_at_fits, grant-is_used}
use tiny_riscv_os.Buddy.Complete.{WellFormed, grant-WellFormed}
use tiny_riscv_os.Buddy.Return.{
  owner_at_same, give_back-is_used, give_back-owner_at, give_back-WellFormed,
}
use tiny_riscv_os.Buddy.RoundTrip.{grant-owner_at, grant-owner_at_block}

-- The state stands for the tree, of height h. Only the first page of a block has a count.
pub record Represents (s : Buddy) (h : ℕ) (t : Tree) : Type 0 where
  pub size : s.size ≡ 2 ^ h
  pub small : h < 64
  pub rep : Rep s.bitmap h 0 t
  pub formed : WellFormed h t
  pub counted :
      (p : ℕ) → p < 2 ^ h → s.ref_cnt p ≢ 0 → (is_used h t p ≡ true) × (owner_at h t p ≡ p)

module _ (s : Buddy) (h k : ℕ) (t : Tree) (n : ℕ) (v : Represents s h t)
    (e : round_pages n ≡ 2 ^ k) where
  -- The state after a grant.
  abbrev pub granted : Buddy
  granted = record s { bitmap = mark s.bitmap h 0 k; ref_cnt = update s.ref_cnt (grant_at h k t) 1 }

  pub buddy_alloc-granted : 2 ^ k ≤ longest h t → buddy_alloc s n ≡ some (grant_at h k t, granted)
  unfolding buddy_alloc
  buddy_alloc-granted fits =
      let f =
        descend-Found s.bitmap (s.size + 1) h 0 k t (omega (arith, v.size, lt-pow h)) fits v.rep in
      let open_test : ltb (s.bitmap 0) (2 ^ k) ≡ false =
        ground (arith, Rep-longest s.bitmap h 0 t v.rep) in
      let down : descend (s.size + 1) s.bitmap (2 ^ k) s.size 0 ≡ some (f.index, 2 ^ k) =
        subst (λ z. descend (s.size + 1) s.bitmap (2 ^ k) z 0 ≡ some (f.index, 2 ^ k)) (sym v.size)
          f.found in
      let place : ((f.index + 1) * 2 ^ k + word - s.size) % word ≡ grant_at h k t =
        omega
          (arith, f.place, v.size, v.small, grant_at_fits h k t fits, pow_strict h 64, pow_pos k) in
      let up : climb_loop f.index (update s.bitmap f.index 0) f.index ≡ mark s.bitmap h 0 k =
        f.climbs ∙ unfold climb_loop in refl in
      rw (e, open_test, down, place, up)

  pub granted-Represents : 2 ^ k ≤ longest h t → Represents granted h (grant h k t)
  granted-Represents fits = record {
    size = v.size;
    small = v.small;
    rep = mark-Rep s.bitmap h 0 k t fits v.rep;
    formed = grant-WellFormed h k t v.formed;
    counted = λ p lt c. elim (ℕ_discrete (grant_at h k t) p) [
      | yes same ↦
          let inside : in_block (grant_at h k t) k p ≡ true = ground (arith, pow_pos k) in
          (
            rw (grant-is_used h k t p fits lt, inside),
            grant-owner_at_block h k t p fits inside ∙ same,
          )
      | no other ↦
          let before : s.ref_cnt p ≢ 0 = ground arith in
          let (u, o) = v.counted p lt before in
          (rw (grant-is_used h k t p fits lt, u) (ground arith), grant-owner_at h k t p fits u ∙ o)
    ];
  }

  -- A request that finds no room leaves the state alone, and returns 0.
  pub buddy_alloc-refused : longest h t < 2 ^ k → buddy_alloc s n ≡ some (0, s)
  unfolding buddy_alloc
  buddy_alloc-refused full =
      let closed_test : ltb (s.bitmap 0) (2 ^ k) ≡ true =
        ground (arith, Rep-longest s.bitmap h 0 t v.rep) in
      rw (e, closed_test)

module _ (s : Buddy) (h : ℕ) (t : Tree) (p : ℕ) (v : Represents s h t) (lt : p < 2 ^ h) where
  -- The state after the return of page p.
  abbrev pub returned : Buddy
  returned = record s { bitmap = unmark s.bitmap h 0 t p }

  release-unmark : is_used h t p ≡ true → release s.bitmap s.size p ≡ unmark s.bitmap h 0 t p
  unfolding release
  release-unmark u =
      let f =
        ascend-Released s.bitmap h 0 t p (p + s.size - 1) lt (omega (arith, v.size, pow_pos h)) u
          v.rep in
      rw f.found (f.merges ∙ unfold merge_loop in refl)

  pub buddy_free-returned : is_used h t p ≡ true → s.ref_cnt p ≡ 0 → buddy_free s p ≡ returned
  unfolding buddy_free
  buddy_free-returned u c =
      let unused : (s.ref_cnt p == 0) ≡ true = ground arith in rw (unused, release-unmark u)

  pub returned-Represents :
      is_used h t p ≡ true
      → owner_at h t p ≡ p
      → s.ref_cnt p ≡ 0
      → Represents returned h (give_back h t p)
  returned-Represents u first c = record {
    size = v.size;
    small = v.small;
    rep = unmark-Rep s.bitmap h 0 t p v.rep;
    formed = give_back-WellFormed h t p v.formed;
    counted = λ j lj cj.
        let (uj, oj) = v.counted j lj cj in
        let outside : in_block (owner_at h t p) (owner_height h t p) j ≡ false =
          elim (Bool-cases (in_block (owner_at h t p) (owner_height h t p) j)) [
            | inl inside ↦
                absurd
                  (cj (ap s.ref_cnt (sym oj ∙ owner_at_same h t p j lt lj u inside ∙ first) ∙ c))
            | inr o ↦ o
          ] in
        let kept : is_used h (give_back h t p) j ≡ true =
          rw (give_back-is_used h t p j lt lj u, outside) uj in
        (kept, give_back-owner_at h t p j lt lj kept ∙ oj);
  }
