-- ===== src/Mm/Tests.antt =====
-- Runs of arch/riscv/kernel/mm.c on a memory of four frames, of which frame 0 is in use.
use tiny_riscv_os.Prelude.{ℕ, ◌+◌, ◌*◌, ◌^◌, ◌≤◌, ◌≡◌, ◌≢◌, refl, some, arith, update}
use tiny_riscv_os.Buddy.{
  Buddy, is_power_of_2, fixsize, round_pages, descend, climb_loop, buddy_alloc, ascend, merge_loop,
  release, buddy_free,
}
use tiny_riscv_os.Buddy.Tree.{Tree, free, used, node, give_back}
use tiny_riscv_os.Buddy.Complete.{IsFreeBlock}
use tiny_riscv_os.Buddy.State.{Represents}
use tiny_riscv_os.Buddy.Pages.{Granted, buddy_alloc_grants, buddy_alloc_refuses}
use tiny_riscv_os.Buddy.DoubleFree.{buddy_free-free}
use tiny_riscv_os.Mm.{page_ref_dec, put_page, alloc_pages, free_pages}
use tiny_riscv_os.Mm.Counts.{Dropped, page_ref_dec_last}
use tiny_riscv_os.Mm.Address.{put_page-alloc_pages, free_pages-alloc_pages}

abbrev four_frames : ℕ → Buddy
four_frames count = record {
  size = 4;
  bitmap = update (update (update (λ _. 1) 0 2) 2 2) 3 0;
  ref_cnt = update (λ _. 0) 0 count;
}

abbrev first_used : Tree
first_used = node (node used free) free

four_frames-Represents : (count : ℕ) → Represents (four_frames count) 2 first_used
four_frames-Represents count = record {
  size = refl;
  small = omega arith;
  rep = (refl, (refl, refl, refl), (refl, refl, refl));
  formed = (refl, (refl, tt, tt), tt);
  counted = λ p lt c. ground arith;
}

round_one : round_pages 1 ≡ 2 ^ 0
unfolding round_pages is_power_of_2
round_one = refl

round_three : round_pages 3 ≡ 2 ^ 2
unfolding round_pages is_power_of_2 fixsize
round_three = refl

round_two : round_pages 2 ≡ 2 ^ 1
unfolding round_pages is_power_of_2
round_two = refl

upper_half_free : IsFreeBlock 2 1 first_used 1
upper_half_free p inside = ground arith

last_free : IsFreeBlock 2 0 first_used 3
last_free p inside = ground arith

no_four_free : (q : ℕ) → (q + 1) * 2 ^ 2 ≤ 2 ^ 2 → ¬ IsFreeBlock 2 2 first_used q
no_four_free q fits all = ground (arith, all 0)

buddy_alloc_grants_example :
    (pfn : ℕ) × (s' : Buddy) × (t' : Tree) × (buddy_alloc (four_frames 1) 2 ≡ some (pfn, s'))
    × Granted (four_frames 1) 2 1 first_used pfn s' t'
buddy_alloc_grants_example =
    buddy_alloc_grants (four_frames 1) 2 1 first_used 2 1 (four_frames-Represents 1) round_two
      (omega arith) upper_half_free

buddy_alloc_refuses_example : buddy_alloc (four_frames 1) 3 ≡ some (0, four_frames 1)
buddy_alloc_refuses_example =
    buddy_alloc_refuses (four_frames 1) 2 2 first_used 3 (four_frames-Represents 1) round_three
      no_four_free

page_ref_dec_last_example :
    Dropped 2 first_used 0 (page_ref_dec (four_frames 1) 0) (give_back 2 first_used 0)
page_ref_dec_last_example =
    page_ref_dec_last (four_frames 1) 2 first_used 0 (four_frames-Represents 1) (omega arith) refl

put_page-alloc_pages_example :
    (va : ℕ) × (s' : Buddy) × (alloc_pages (four_frames 1) 1 ≡ some (va, s'))
    × (va ≢ 0)
    × Represents (put_page s' va) 2 first_used
put_page-alloc_pages_example =
    put_page-alloc_pages (four_frames 1) 2 0 first_used 1 3 (four_frames-Represents 1) (omega arith)
      refl round_one (omega arith) last_free

free_pages-alloc_pages_example :
    (va : ℕ) × (s' : Buddy) × (alloc_pages (four_frames 1) 1 ≡ some (va, s'))
    × (va ≢ 0)
    × (free_pages s' va ≡ s')
free_pages-alloc_pages_example =
    free_pages-alloc_pages (four_frames 1) 2 0 first_used 1 3 (four_frames-Represents 1)
      (omega arith) refl round_one (omega arith) last_free

-- The lowest free frame is frame 1; a pair of frames starts at frame 2.
alloc_one : (s : Buddy) × (buddy_alloc (four_frames 1) 1 ≡ some (1, s))
unfolding buddy_alloc round_pages is_power_of_2 descend climb_loop
alloc_one = (_, refl)

alloc_two : (s : Buddy) × (buddy_alloc (four_frames 1) 2 ≡ some (2, s))
unfolding buddy_alloc round_pages is_power_of_2 descend climb_loop
alloc_two = (_, refl)

-- Frame 0 is given back, and the four frames are one block again.
free_merges : (buddy_free (four_frames 0) 0).bitmap 0 ≡ 4
unfolding buddy_free release ascend merge_loop
free_merges = refl

buddy_free-free_example : (buddy_free (four_frames 1) 3).bitmap 0 ≡ 2 * 4
buddy_free-free_example =
    buddy_free-free (four_frames 1) 2 first_used 3 (four_frames-Represents 1) (omega arith) refl
      refl
