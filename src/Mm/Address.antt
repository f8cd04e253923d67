-- ===== src/Mm/Address.antt =====
-- Pages by address, in arch/riscv/kernel/mm.c: alloc_pages, put_page and free_pages.
use tiny_riscv_os.Prelude.{
  ℕ, ◌+◌, ◌*◌, ◌^◌, ◌≤◌, ◌<◌, ◌≡◌, ◌≢◌, true, false, some, arith, ◌==◌, ==_refl, pow_pos, pow_mono,
}
use tiny_riscv_os.Buddy.{Buddy, round_pages, buddy_free}
use tiny_riscv_os.Buddy.Tree.{Tree, longest, is_used, grant_at}
use tiny_riscv_os.Buddy.Grant.{grant_at_fits, grant_was_free}
use tiny_riscv_os.Buddy.Complete.{IsFreeBlock, longest_of_block}
use tiny_riscv_os.Buddy.State.{Represents, granted, buddy_alloc-granted}
use tiny_riscv_os.Mm.{va2pa, pa2va, pfn2phys, phys2pfn, put_page, alloc_pages, free_pages}
use tiny_riscv_os.Mm.Counts.{page_ref_dec-granted}

-- The number of a frame is found again from its address.
pub phys2pfn-pfn2phys : (pfn : ℕ) → pfn < 2 ^ 25 → phys2pfn (va2pa (pa2va (pfn2phys pfn))) ≡ pfn
unfolding phys2pfn va2pa pa2va pfn2phys
phys2pfn-pfn2phys pfn h = omega arith

-- No frame below 2^25 has address 0.
pa2va-ne_zero : (pfn : ℕ) → pfn < 2 ^ 25 → pa2va (pfn2phys pfn) ≢ 0
unfolding pa2va pfn2phys
pa2va-ne_zero pfn h = omega arith

module _ (s : Buddy) (h k : ℕ) (t : Tree) (n q : ℕ) (v : Represents s h t) (below : h ≤ 24)
    (zero_used : is_used h t 0 ≡ true) (e : round_pages n ≡ 2 ^ k) (fits : (q + 1) * 2 ^ k ≤ 2 ^ h)
    (all : IsFreeBlock h k t q) where
  room : 2 ^ k ≤ longest h t
  room = longest_of_block h k t q v.formed fits all

  pfn_bound : grant_at h k t < 2 ^ 25
  pfn_bound = omega (arith, grant_at_fits h k t room, pow_pos k, pow_mono h 24 below)

  -- Frame 0 is in use, so that the frame handed out is another.
  pfn-ne_zero : (grant_at h k t == 0) ≡ false
  pfn-ne_zero = ground (arith, grant_was_free h k t 0 room, pow_pos k)

  alloc_pages-granted :
      alloc_pages s n ≡ some (pa2va (pfn2phys (grant_at h k t)), granted s h k t n v e)
  unfolding alloc_pages
  alloc_pages-granted = rw (buddy_alloc-granted s h k t n v e room, alloc_pages, pfn-ne_zero)

  -- With frame 0 in use, at most 2^24 frames, and room for the request, rounded to 2^k pages:
  -- alloc_pages returns an address that is not 0, and put_page on that address gives the pages
  -- back, so that the state stands for the same tree of blocks as before.
  pub put_page-alloc_pages :
      (va : ℕ) × (s' : Buddy) × (alloc_pages s n ≡ some (va, s'))
      × (va ≢ 0)
      × Represents (put_page s' va) h t
  unfolding put_page
  put_page-alloc_pages = (
    pa2va (pfn2phys (grant_at h k t)),
    granted s h k t n v e,
    alloc_pages-granted,
    pa2va-ne_zero (grant_at h k t) pfn_bound,
    rw (phys2pfn-pfn2phys (grant_at h k t) pfn_bound) (page_ref_dec-granted s h k t n v e room),
  )

  -- Under the same conditions free_pages on the address that alloc_pages returned does nothing at
  -- all: the count of the page is 1, and buddy_free returns at once.
  pub free_pages-alloc_pages :
      (va : ℕ) × (s' : Buddy) × (alloc_pages s n ≡ some (va, s'))
      × (va ≢ 0)
      × (free_pages s' va ≡ s')
  unfolding free_pages
  free_pages-alloc_pages = (
    pa2va (pfn2phys (grant_at h k t)),
    granted s h k t n v e,
    alloc_pages-granted,
    pa2va-ne_zero (grant_at h k t) pfn_bound,
    rw (phys2pfn-pfn2phys (grant_at h k t) pfn_bound)
        (unfold buddy_free in rw (==_refl (grant_at h k t))),
  )
