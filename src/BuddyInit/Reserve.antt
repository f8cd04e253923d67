-- ===== src/BuddyInit/Reserve.antt =====
-- buddy_init of arch/riscv/kernel/mm.c: the frames of the kernel are handed out, one by one.
use tiny_riscv_os.Prelude.{
  ℕ, zero, suc, ◌+◌, ◌-◌, ◌*◌, ◌/◌, ◌%◌, ◌^◌, ◌≤◌, ◌<◌, ◌≡◌, inl, refl, sym, ap, subst, ◌∙◌, true,
  false, some, ltb, dec_lt, arith, pow-step, pow_pos, pow_mono,
}
use tiny_riscv_os.Buddy.{Buddy, word, round_pages, is_power_of_2, buddy_alloc}
use tiny_riscv_os.Buddy.Tree.{Tree, free, is_used}
use tiny_riscv_os.Buddy.Rep.{Rep}
use tiny_riscv_os.Buddy.State.{Represents}
use tiny_riscv_os.Buddy.Pages.{Granted, buddy_alloc_grants}
use tiny_riscv_os.Mm.{phy_start, vm_start, va2pa, pfn2phys}
use tiny_riscv_os.BuddyInit.{phy_size, fill_loop, reserve_loop, buddy_size, arrays_end, buddy_init}
use tiny_riscv_os.BuddyInit.Fill.{fill_loop-Filled, Rep-free}

round_one : round_pages 1 ≡ 2 ^ 0
unfolding round_pages is_power_of_2
round_one = refl

-- Exactly the first n frames are in use.
abbrev pub IsPrefix : ℕ → Tree → ℕ → Type 0
IsPrefix h t n = (p : ℕ) → p < 2 ^ h → is_used h t p ≡ ltb p n

one_page-IsPrefix :
    (s s' : Buddy) (h n pfn : ℕ) (t t' : Tree)
    → n < 2 ^ h
    → IsPrefix h t n
    → Granted s h 0 t pfn s' t'
    → IsPrefix h t' (n + 1)
one_page-IsPrefix s s' h n pfn t t' l pre g p b =
    let low : pfn ≤ n =
      omega (arith, g.lowest n (omega arith) (λ q inside. pre q (ground arith) ∙ ground arith)) in
    let free_one : is_used h t pfn ≡ false = g.was_free pfn (ground arith) in
    let high : n ≤ pfn = ground (arith, pre pfn (omega (arith, g.fits))) in
    ground (arith, g.pages p b, pre p b)

reserve_step :
    (fuel n limit r : ℕ) (s s1 : Buddy)
    → ltb (pfn2phys n) (va2pa limit) ≡ true
    → buddy_alloc s 1 ≡ some (r, s1)
    → reserve_loop (suc fuel) n limit s ≡ reserve_loop fuel (n + 1) limit s1
unfolding reserve_loop
reserve_step fuel n limit r s s1 e a = rw (e, a) refl

-- The loop reserves the frames that begin below the limit, after the first n of them.
pub reserve_loop-IsPrefix :
    (fuel n k limit h : ℕ) (s : Buddy) (t : Tree)
    → Represents s h t
    → IsPrefix h t n
    → n ≤ k
    → k ≤ 2 ^ h
    → ((p : ℕ) → p ≤ 2 ^ h → ltb (pfn2phys p) (va2pa limit) ≡ ltb p k)
    → k < fuel + n
    → (s' : Buddy) × (t' : Tree) × (reserve_loop fuel n limit s ≡ some s')
      × Represents s' h t'
      × IsPrefix h t' k
unfolding reserve_loop
reserve_loop-IsPrefix zero n k limit h s t v pre a b below l = absurd (omega arith)
reserve_loop-IsPrefix (suc fuel) n k limit h s t v pre a b below l = elim (dec_lt n k) [
  | no all ↦
      let done : ltb (pfn2phys n) (va2pa limit) ≡ false = below n (omega arith) ∙ ground arith in
      let same : n ≡ k = omega arith in (s, t, rw done refl, v, subst (IsPrefix h t) same pre)
  | yes more ↦
      let goes_on : ltb (pfn2phys n) (va2pa limit) ≡ true = below n (omega arith) ∙ ground arith in
      let (pfn, s1, t1, eq, g) =
        buddy_alloc_grants s h 0 t 1 n v round_one (omega arith)
          (λ p inside. pre p (ground arith) ∙ ground arith) in
      let (s', t', done, v', all) =
        reserve_loop-IsPrefix fuel (n + 1) k limit h s1 t1 g.after
          (one_page-IsPrefix s s1 h n pfn t t1 (omega arith) pre g) (omega arith) b below
          (omega arith) in
      (s', t', reserve_step fuel n limit pfn s s1 goes_on eq ∙ done, v', all)
]

size_lem : buddy_size ≡ 2 ^ 15
unfolding buddy_size is_power_of_2
size_lem = refl

arrays_end_lem :
    (ekernel : ℕ) → ekernel + 786432 ≤ vm_start + phy_size → arrays_end ekernel ≡ ekernel + 786432
unfolding arrays_end
arrays_end_lem ekernel l = rw size_lem (omega arith)

-- The frames up to the address of a byte of the direct map.
frames-below :
    (top p : ℕ)
    → vm_start ≤ top
    → top ≤ vm_start + phy_size
    → p ≤ 2 ^ 15
    → ltb (pfn2phys p) (va2pa top) ≡ ltb p ((top - vm_start + 4095) / 4096)
unfolding pfn2phys va2pa
frames-below top p l u b =
    let frame : (p * 2 ^ 12 % word + phy_start) % word ≡ p * 4096 + phy_start = omega arith in
    let limit : (top + word - (vm_start - phy_start)) % word ≡ top - vm_start + phy_start =
      omega arith in
    rw (frame, limit) (ground arith)

fill-Rep :
    (h size : ℕ) → size ≡ 2 ^ h → Rep (fill_loop (2 * size - 1) 0 (size * 2) (λ i. 0)) h 0 free
fill-Rep h size e =
    let step = pow-step h in
    let pos = pow_pos h in
    let root : h - 0 ≡ h = omega arith in
    let (before, all) =
      fill_loop-Filled h (2 * size - 1) 0 0 (size * 2) (λ i. 0) (omega arith) (omega arith)
        (omega arith) (λ l. inl (refl, omega (arith, ap (λ x. 2 ^ x) root))) in
    Rep-free h (fill_loop (2 * size - 1) 0 (size * 2) (λ i. 0)) h 0 0 (omega arith) (omega arith)
      (omega arith)
      (λ j d l a b.
        all j d (omega arith) (omega (arith, pow_mono (suc d) (suc h) (omega arith))) a b)

initial : Buddy
initial = record {
  size = buddy_size;
  bitmap = fill_loop (2 * buddy_size - 1) 0 (buddy_size * 2) (λ i. 0);
  ref_cnt = λ i. 0;
}

initial-Represents : Represents initial 15 free
unfolding initial
initial-Represents = record {
  size = size_lem;
  small = omega arith;
  rep = fill-Rep 15 buddy_size size_lem;
  formed = tt;
  counted = λ p l ne. absurd (ne refl);
}

-- With the end of the kernel in the direct map, and room for the two arrays behind it: buddy_init
-- ends, and leaves a state that stands for a tree of 2^15 frames, in which exactly the frames that
-- begin below free_page_start are in use.
pub buddy_init-Represents :
    (fuel ekernel : ℕ)
    → vm_start ≤ ekernel
    → ekernel + 786432 ≤ vm_start + phy_size
    → 2 ^ 15 < fuel
    → (s : Buddy) × (t : Tree) × (buddy_init fuel ekernel ≡ some s)
      × Represents s 15 t
      × ((p : ℕ) → p < 2 ^ 15 → is_used 15 t p ≡ ltb (pfn2phys p) (va2pa (arrays_end ekernel)))
unfolding buddy_init initial
buddy_init-Represents fuel ekernel l u f =
    let top = arrays_end ekernel in
    let e = arrays_end_lem ekernel u in
    let k = (top - vm_start + 4095) / 4096 in
    let below : (p : ℕ) → p ≤ 2 ^ 15 → ltb (pfn2phys p) (va2pa top) ≡ ltb p k =
      λ p b. frames-below top p (omega arith) (omega arith) b in
    let (s, t, done, v, all) =
      reserve_loop-IsPrefix fuel 0 k top 15 initial free initial-Represents (λ p b. ground arith)
        (omega arith) (omega arith) below (omega arith) in
    (s, t, done, v, λ p b. all p b ∙ sym (below p (omega arith)))
