-- ===== src/Buddy.antt =====
-- arch/riscv/kernel/mm.c: the buddy allocator of physical page frames.
-- The arrays `bitmap` and `ref_cnt` are functions from the index. Inside the loops `index` and
-- `node_size` stay at most twice `size`, which is 2^15 in this kernel, so that their word arithmetic
-- does not wrap; sums that come from outside are taken modulo 2^64.
-- A loop takes fuel, and `none` says that the fuel ran out.
pub mod Tree
pub mod Region
pub mod Rep
pub mod Alloc
pub mod Descend
pub mod Grant
pub mod Complete
pub mod Free
pub mod Ascend
pub mod Return
pub mod RoundTrip
pub mod State
pub mod Pages
pub mod DoubleFree
pub mod Power
pub mod Round
use tiny_riscv_os.Prelude.{
  ℕ, zero, suc, ◌+◌, ◌-◌, ◌*◌, ◌/◌, ◌%◌, ◌^◌, max, bit_and, bit_or, Bool, Option, none, some, ltb,
  leb, ◌==◌, if◌then◌else◌, update,
}

-- `struct buddy`. `bitmap[i]` is the size of the largest free block below tree node i.
pub record Buddy : Type 0 where
  pub size : ℕ
  pub bitmap : ℕ → ℕ
  pub ref_cnt : ℕ → ℕ

abbrev pub word : ℕ
word = 2 ^ 64

abbrev pub left_leaf : ℕ → ℕ
left_leaf i = i * 2 + 1

abbrev pub right_leaf : ℕ → ℕ
right_leaf i = i * 2 + 2

-- Only used at i > 0.
abbrev pub parent : ℕ → ℕ
parent i = (i + 1) / 2 - 1

-- `!(x & (x - 1))` at x > 0.
unfoldable pub is_power_of_2 : ℕ → Bool
is_power_of_2 x = bit_and x (x - 1) == 0

-- One line `size |= size >> k` of fixsize.
abbrev pub smear : ℕ → ℕ → ℕ
smear k size = bit_or size (size / 2 ^ k)

-- `size` is at least 1 at both calls, so that `size--` does not wrap; the last `+ 1` may.
unfoldable pub fixsize : ℕ → ℕ
fixsize size = (smear 32 (smear 16 (smear 8 (smear 4 (smear 2 (smear 1 (size - 1)))))) + 1) % word

-- The rounding at the head of buddy_alloc.
unfoldable pub round_pages : ℕ → ℕ
round_pages nrpages =
    if nrpages == 0 then 1 else if is_power_of_2 nrpages then nrpages else fixsize nrpages

-- The `for` of buddy_alloc: from node `index` down to a node of `nrpages` pages.
unfoldable pub descend : ℕ → (ℕ → ℕ) → ℕ → ℕ → ℕ → Option (ℕ × ℕ)
descend zero bitmap nrpages node_size index = none
descend (suc fuel) bitmap nrpages node_size index =
    let deeper =
      descend fuel bitmap nrpages (node_size / 2)
        (if leb nrpages (bitmap (left_leaf index)) then left_leaf index else right_leaf index) in
    if node_size == nrpages then some (index, node_size) else deeper

-- The body of the `while` of buddy_alloc.
abbrev pub refresh : (ℕ → ℕ) → ℕ → ℕ → ℕ
refresh bitmap index =
    update bitmap index (max (bitmap (left_leaf index)) (bitmap (right_leaf index)))

-- The `while (index)` of buddy_alloc. The parent of a node is below it, so that the index serves as
-- the fuel.
unfoldable pub climb_loop : ℕ → (ℕ → ℕ) → ℕ → ℕ → ℕ
climb_loop zero bitmap index = bitmap
climb_loop (suc fuel) bitmap index =
    let above = climb_loop fuel (refresh bitmap (parent index)) (parent index) in
    if index == 0 then bitmap else above

unfoldable pub buddy_alloc : Buddy → ℕ → Option (ℕ × Buddy)
buddy_alloc s nrpages =
    let n = round_pages nrpages in
    if ltb (s.bitmap 0) n then some (0, s) else elim (descend (s.size + 1) s.bitmap n s.size 0) [
      | none ↦ none
      | some (index, node_size) ↦
          let pfn = ((index + 1) * node_size + word - s.size) % word in
          some (
            pfn,
            record s {
              bitmap = climb_loop index (update s.bitmap index 0) index;
              ref_cnt = update s.ref_cnt pfn 1;
            },
          )
    ]

-- The `for` of buddy_free: from node `index` up to the first node that is marked 0. At the root it
-- breaks, with the size already doubled.
unfoldable pub ascend : ℕ → (ℕ → ℕ) → ℕ → ℕ → ℕ × ℕ
ascend zero bitmap index node_size =
    if bitmap index == 0 then (index, node_size) else (index, node_size * 2)
ascend (suc fuel) bitmap index node_size =
    let above = ascend fuel bitmap (parent index) (node_size * 2) in
    if bitmap index == 0
    then (index, node_size)
    else if index == 0
    then (index, node_size * 2)
    else above

-- The body of the `while` of buddy_free, at the parent `index` of `node_size` pages.
abbrev pub merge : (ℕ → ℕ) → ℕ → ℕ → ℕ → ℕ
merge bitmap index node_size = update bitmap index (
    if bitmap (left_leaf index) + bitmap (right_leaf index) == node_size
    then node_size
    else max (bitmap (left_leaf index)) (bitmap (right_leaf index)))

-- The `while (index)` of buddy_free.
unfoldable pub merge_loop : ℕ → (ℕ → ℕ) → ℕ → ℕ → ℕ → ℕ
merge_loop zero bitmap index node_size = bitmap
merge_loop (suc fuel) bitmap index node_size =
    let above =
      merge_loop fuel (merge bitmap (parent index) (node_size * 2)) (parent index)
        (node_size * 2) in
    if index == 0 then bitmap else above

-- The frame's leaf is pfn + size - 1.
unfoldable pub release : (ℕ → ℕ) → ℕ → ℕ → ℕ → ℕ
release bitmap size pfn =
    let leaf = pfn + size - 1 in
    let (index, node_size) = ascend leaf bitmap leaf 1 in
    merge_loop index (update bitmap index node_size) index node_size

unfoldable pub buddy_free : Buddy → ℕ → Buddy
buddy_free s pfn =
    if s.ref_cnt pfn == 0 then record s { bitmap = release s.bitmap s.size pfn } else s
