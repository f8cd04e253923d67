-- ===== src/Mm/Counts.antt =====
-- Reference counts and the return of pages, in arch/riscv/kernel/mm.c.
use tiny_riscv_os.Prelude.{
  ℕ, suc, ◌-◌, ◌^◌, ◌≤◌, ◌<◌, ◌≡◌, ◌∙◌, true, false, arith, ltb, ◌==◌, ==_refl, if◌then◌else◌,
  update, update_self, subst, pow_pos,
}
use tiny_riscv_os.Buddy.{Buddy, round_pages, buddy_free}
use tiny_riscv_os.Buddy.Tree.{Tree, longest, is_used, owner_height, grant, grant_at, give_back}
use tiny_riscv_os.Buddy.Grant.{in_block, grant_at_fits}
use tiny_riscv_os.Buddy.Return.{give_back-is_used}
use tiny_riscv_os.Buddy.RoundTrip.{give_back-grant}
use tiny_riscv_os.Buddy.State.{
  Represents, buddy_free-returned, returned-Represents, granted, granted-Represents,
}
use tiny_riscv_os.Mm.{page_ref_dec}

-- The state with the count of page p set to c.
abbrev pub counted_as : Buddy → ℕ → ℕ → Buddy
counted_as s p c = record s { ref_cnt = update s.ref_cnt p c }

page_ref_dec-suc :
    (s : Buddy) (p c : ℕ)
    → s.ref_cnt p ≡ suc c
    → page_ref_dec s p ≡ (if c == 0 then buddy_free (counted_as s p c) p else counted_as s p c)
unfolding page_ref_dec
page_ref_dec-suc s p c e =
    let test : ltb 0 (s.ref_cnt p) ≡ true = ground arith in
    let less : s.ref_cnt p - 1 ≡ c = omega arith in rw (test, less, ==_refl p)

page_ref_dec-zero : (s : Buddy) (p : ℕ) → s.ref_cnt p ≡ 0 → page_ref_dec s p ≡ buddy_free s p
unfolding page_ref_dec
page_ref_dec-zero s p e =
    let test : ltb 0 (s.ref_cnt p) ≡ false = ground arith in
    let zeroed : (s.ref_cnt p == 0) ≡ true = ground arith in rw (test, zeroed)

-- Lowering a count keeps what the state stands for.
lower-Represents :
    (s : Buddy) (h : ℕ) (t : Tree) (p c : ℕ)
    → Represents s h t
    → s.ref_cnt p ≡ suc c
    → Represents (counted_as s p c) h t
lower-Represents s h t p c v e = record {
  size = v.size;
  small = v.small;
  rep = v.rep;
  formed = v.formed;
  counted = λ j lt n. v.counted j lt (ground arith);
}

-- The last reference to a page: its block is free afterwards, every other page is as it was, and
-- the state stands for a tree again.
pub record Dropped (h : ℕ) (t : Tree) (p : ℕ) (s' : Buddy) (t' : Tree) : Type 0 where
  pub after : Represents s' h t'
  pub pages :
      (j : ℕ)
      → j < 2 ^ h
      → is_used h t' j ≡ (if in_block p (owner_height h t p) j then false else is_used h t j)

-- page_ref_dec on a page with count 1, in a state that stands for a tree of blocks, frees exactly
-- the block that starts at the page: its pages are free, every other page is as it was, and the
-- state stands for a tree again.
pub page_ref_dec_last :
    (s : Buddy) (h : ℕ) (t : Tree) (p : ℕ)
    → Represents s h t
    → p < 2 ^ h
    → s.ref_cnt p ≡ 1
    → Dropped h t p (page_ref_dec s p) (give_back h t p)
page_ref_dec_last s h t p v lt c =
    let v' = lower-Represents s h t p 0 v c in
    let (u, o) = v.counted p lt (omega arith) in
    let zeroed : (counted_as s p 0).ref_cnt p ≡ 0 = update_self s.ref_cnt p 0 in
    rw (page_ref_dec-suc s p 0 c, buddy_free-returned (counted_as s p 0) h t p v' lt u zeroed)
      (record {
        after = returned-Represents (counted_as s p 0) h t p v' lt u o zeroed;
        pages = λ j lj.
            subst
              (λ a.
                is_used h (give_back h t p) j
                ≡ (if in_block a (owner_height h t p) j then false else is_used h t j))
              o (give_back-is_used h t p j lt lj u);
      })

-- page_ref_dec on a page with a larger count lowers the count, and neither the blocks nor any other
-- count changes.
pub page_ref_dec_shared :
    (s : Buddy) (h : ℕ) (t : Tree) (p c : ℕ)
    → Represents s h t
    → s.ref_cnt p ≡ suc (suc c)
    → (page_ref_dec s p ≡ counted_as s p (suc c)) × Represents (page_ref_dec s p) h t
page_ref_dec_shared s h t p c v e =
    let same : page_ref_dec s p ≡ counted_as s p (suc c) =
      page_ref_dec-suc s p (suc c) e ∙ ground arith in
    (same, rw same (lower-Represents s h t p (suc c) v e))

pub page_ref_dec-granted :
    (s : Buddy) (h k : ℕ) (t : Tree) (n : ℕ) (v : Represents s h t) (e : round_pages n ≡ 2 ^ k)
    → 2 ^ k ≤ longest h t
    → Represents (page_ref_dec (granted s h k t n v e) (grant_at h k t)) h t
page_ref_dec-granted s h k t n v e room =
    let p = grant_at h k t in
    let s' = granted s h k t n v e in
    let v' = granted-Represents s h k t n v e room in
    let lt : p < 2 ^ h = omega (arith, grant_at_fits h k t room, pow_pos k) in
    let one : s'.ref_cnt p ≡ 1 = update_self s.ref_cnt p 1 in
    let first : in_block p k p ≡ true = ground (arith, pow_pos k) in
    subst (Represents (page_ref_dec s' p) h) (give_back-grant h k t p v.formed room first)
      (page_ref_dec_last s' h (grant h k t) p v' lt one).after
