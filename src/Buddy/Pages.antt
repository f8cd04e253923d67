-- ===== src/Buddy/Pages.antt =====
-- What buddy_alloc of arch/riscv/kernel/mm.c promises, in terms of pages.
use tiny_riscv_os.Prelude.{
  ℕ, ◌+◌, ◌*◌, ◌^◌, ◌≤◌, ◌<◌, ◌≡◌, refl, true, false, some, arith, if◌then◌else◌, update, dec_le,
}
use tiny_riscv_os.Buddy.{Buddy, round_pages, buddy_alloc}
use tiny_riscv_os.Buddy.Tree.{Tree, longest, is_used, grant, grant_at}
use tiny_riscv_os.Buddy.Grant.{in_block, grant_at_fits, grant-is_used, grant_was_free}
use tiny_riscv_os.Buddy.Complete.{IsFreeBlock, longest_of_block, grant_at_lowest, grant_at_aligned}
use tiny_riscv_os.Buddy.State.{
  Represents, granted, buddy_alloc-granted, granted-Represents, buddy_alloc-refused,
}

-- From state s, which stands for t, the 2^k pages from pfn on were handed out, and s' is left,
-- which stands for t'.
pub record Granted (s : Buddy) (h k : ℕ) (t : Tree) (pfn : ℕ) (s' : Buddy) (t' : Tree)
    : Type 0 where
  pub after : Represents s' h t'
  pub fits : pfn + 2 ^ k ≤ 2 ^ h
  pub aligned : (q : ℕ) × (pfn ≡ q * 2 ^ k)
  pub was_free : (p : ℕ) → in_block pfn k p ≡ true → is_used h t p ≡ false
  pub pages :
      (p : ℕ) → p < 2 ^ h → is_used h t' p ≡ (if in_block pfn k p then true else is_used h t p)
  pub lowest : (q : ℕ) → (q + 1) * 2 ^ k ≤ 2 ^ h → IsFreeBlock h k t q → pfn ≤ q * 2 ^ k
  pub counts : s'.ref_cnt ≡ update s.ref_cnt pfn 1

grant-Granted :
    (s : Buddy) (h k : ℕ) (t : Tree) (n : ℕ) (v : Represents s h t) (e : round_pages n ≡ 2 ^ k)
    → 2 ^ k ≤ longest h t
    → Granted s h k t (grant_at h k t) (granted s h k t n v e) (grant h k t)
grant-Granted s h k t n v e room = record {
  after = granted-Represents s h k t n v e room;
  fits = grant_at_fits h k t room;
  aligned = grant_at_aligned h k t room;
  was_free = λ p. grant_was_free h k t p room;
  pages = λ p. grant-is_used h k t p room;
  lowest = λ q. grant_at_lowest h k t q v.formed room;
  counts = refl;
}

-- In a state that stands for a tree of blocks, a request that is rounded to 2^k pages, with some
-- aligned block of 2^k pages free, is granted: the pages handed out were free, lie inside memory,
-- start at the lowest multiple of 2^k that is possible, and are in use afterwards; every other page
-- is as it was, the count of the first page is 1, and the state stands for a tree again.
pub buddy_alloc_grants :
    (s : Buddy) (h k : ℕ) (t : Tree) (n q : ℕ)
    → Represents s h t
    → round_pages n ≡ 2 ^ k
    → (q + 1) * 2 ^ k ≤ 2 ^ h
    → IsFreeBlock h k t q
    → (pfn : ℕ) × (s' : Buddy) × (t' : Tree) × (buddy_alloc s n ≡ some (pfn, s'))
      × Granted s h k t pfn s' t'
buddy_alloc_grants s h k t n q v e fits all =
    let room = longest_of_block h k t q v.formed fits all in
    (
      grant_at h k t,
      granted s h k t n v e,
      grant h k t,
      buddy_alloc-granted s h k t n v e room,
      grant-Granted s h k t n v e room,
    )

-- In a state that stands for a tree of blocks, a request that is rounded to 2^k pages is refused,
-- with result 0 and the state unchanged, if no aligned block of 2^k pages is free.
pub buddy_alloc_refuses :
    (s : Buddy) (h k : ℕ) (t : Tree) (n : ℕ)
    → Represents s h t
    → round_pages n ≡ 2 ^ k
    → ((q : ℕ) → (q + 1) * 2 ^ k ≤ 2 ^ h → ¬ IsFreeBlock h k t q)
    → buddy_alloc s n ≡ some (0, s)
buddy_alloc_refuses s h k t n v e full = elim (dec_le (2 ^ k) (longest h t)) [
  | yes room ↦
      let (q, start) = grant_at_aligned h k t room in
      absurd (
        full q (omega (arith, start, grant_at_fits h k t room))
          (λ p inside. grant_was_free h k t p room (rw start inside)))
  | no tight ↦ buddy_alloc-refused s h k t n v e (omega arith)
]
