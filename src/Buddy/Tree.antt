-- ===== src/Buddy/Tree.antt =====
-- The specification of the buddy allocator (arch/riscv/kernel/mm.c): a binary tree of blocks.
-- A tree of height h stands for 2^h page frames. No array and no index occurs here.
use tiny_riscv_os.Prelude.{
  ℕ, zero, suc, ◌+◌, ◌-◌, ◌^◌, max, Bool, true, false, ltb, leb, ◌==◌, if◌then◌else◌,
}

-- A block that is free as a whole, one that is handed out as a whole, or one that is split.
pub data Tree : Type 0 where
  free : Tree
  used : Tree
  node : Tree → Tree → Tree

-- The two halves of a tree. Those of a block that was handed out are kept free, for its return.
abbrev pub lower : Tree → Tree
lower free = free
lower used = free
lower (node l r) = l

abbrev pub upper : Tree → Tree
upper free = free
upper used = free
upper (node l r) = r

-- The number of pages of the largest free block.
abbrev pub longest : ℕ → Tree → ℕ
longest h free = 2 ^ h
longest h used = 0
longest zero (node l r) = 0
longest (suc h) (node l r) = max (longest h l) (longest h r)

-- Whether page p is handed out.
abbrev pub is_used : ℕ → Tree → ℕ → Bool
is_used h free p = false
is_used h used p = true
is_used zero (node l r) p = true
is_used (suc h) (node l r) p = if ltb p (2 ^ h) then is_used h l p else is_used h r (p - 2 ^ h)

-- The first page of the block that page p is handed out in, and the height of that block.
abbrev pub owner_at : ℕ → Tree → ℕ → ℕ
owner_at h free p = 0
owner_at h used p = 0
owner_at zero (node l r) p = 0
owner_at (suc h) (node l r) p =
    if ltb p (2 ^ h) then owner_at h l p else 2 ^ h + owner_at h r (p - 2 ^ h)

abbrev pub owner_height : ℕ → Tree → ℕ → ℕ
owner_height h free p = h
owner_height h used p = h
owner_height zero (node l r) p = 0
owner_height (suc h) (node l r) p =
    if ltb p (2 ^ h) then owner_height h l p else owner_height h r (p - 2 ^ h)

-- Hand out the lowest free block of 2^k pages.
unfoldable pub grant : ℕ → ℕ → Tree → Tree
grant zero k t = used
grant (suc h) k t =
    let below = node (grant h k (lower t)) (upper t) in
    let above = node (lower t) (grant h k (upper t)) in
    if suc h == k then used else if leb (2 ^ k) (longest h (lower t)) then below else above

-- The first page of that block.
unfoldable pub grant_at : ℕ → ℕ → Tree → ℕ
grant_at zero k t = 0
grant_at (suc h) k t =
    let below = grant_at h k (lower t) in
    let above = 2 ^ h + grant_at h k (upper t) in
    if suc h == k then 0 else if leb (2 ^ k) (longest h (lower t)) then below else above

-- Two free buddies are one free block.
abbrev pub join : Tree → Tree → Tree
join free free = free
join free used = node free used
join free (node l r) = node free (node l r)
join used t = node used t
join (node l r) t = node (node l r) t

-- Take back the block of page p.
unfoldable pub give_back : ℕ → Tree → ℕ → Tree
give_back h free p = free
give_back h used p = free
give_back zero (node l r) p = free
give_back (suc h) (node l r) p =
    let below = join (give_back h l p) r in
    let above = join l (give_back h r (p - 2 ^ h)) in if ltb p (2 ^ h) then below else above
