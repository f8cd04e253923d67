-- ===== src/PageFault/Copy.antt =====
-- What the copy-on-write branch of do_page_fault (arch/riscv/kernel/vm.c) leaves.
use tiny_riscv_os.Prelude.{
  ℕ, ◌+◌, ◌-◌, ◌≤◌, ◌<◌, ◌≡◌, ◌≢◌, ◌⊎◌, inl, inr, refl, ◌∙◌, some, update_self, update_ne, bit_or,
  arith,
}
use tiny_riscv_os.Buddy.{word}
use tiny_riscv_os.Mm.{pgsize, va2pa, put_page}
use tiny_riscv_os.Vm.{Vm, ppn_field, entry, vpn, table_at, store_leaf, find_pte}
use tiny_riscv_os.Vm.Entry.{Leads, find_pte-Leads}
use tiny_riscv_os.Vm.Remap.{create_mapping-Leads}
use tiny_riscv_os.PageFault.{pgrounddown, copy_page, fault_perm, copy_on_write}

-- The address does not lie in the page.
abbrev pub IsOffPage : ℕ → ℕ → Type 0
IsOffPage page a = (a < page) ⊎ (page + pgsize ≤ a)

copy_page-off :
    (words : ℕ → ℕ) (page src a : ℕ) → IsOffPage page a → copy_page words page src a ≡ words a
unfolding copy_page
copy_page-off words page src a (inl l) = ground arith
copy_page-off words page src a (inr l) = ground arith

copy_page-on :
    (words : ℕ → ℕ) (page src j : ℕ)
    → j < pgsize
    → copy_page words page src (page + j) ≡ words (src + j)
unfolding copy_page
copy_page-on words page src j l = let index : page + j - page ≡ j = omega arith in ground arith

Leads-copy_page :
    (words : ℕ → ℕ) (page src at table : ℕ)
    → IsOffPage page at
    → Leads words at table
    → Leads (copy_page words page src) at table
Leads-copy_page words page src at table off = rw (copy_page-off words page src at off) λ l. l

-- Copy on write of a page whose three entries lie outside the new page: the new page holds the words
-- of the old one, which loses one reference; the last entry of the walk leads to the new page, with
-- the permission of the area; and every other word stays as it was.
pub copy_on_write_lem :
    (s : Vm) (pgtbl bad_addr vm_flags page pmd pte : ℕ)
    → bad_addr < word
    → Leads s.words (entry pgtbl (vpn 2 (pgrounddown bad_addr))) pmd
    → Leads s.words (entry pmd (vpn 1 (pgrounddown bad_addr))) pte
    → pmd ≢ 0
    → pte ≢ 0
    → IsOffPage page (entry pgtbl (vpn 2 (pgrounddown bad_addr)))
    → IsOffPage page (entry pmd (vpn 1 (pgrounddown bad_addr)))
    → IsOffPage page (entry pte (vpn 0 (pgrounddown bad_addr)))
    → (s' : Vm) × (leaf src : ℕ) × (leaf ≡ entry pte (vpn 0 (pgrounddown bad_addr)))
      × (src ≡ table_at (s.words leaf))
      × (copy_on_write s pgtbl bad_addr vm_flags page ≡ some s')
      × (s'.frames ≡ put_page s.frames src)
      × (s'.words leaf ≡ bit_or (ppn_field (va2pa page)) (fault_perm vm_flags))
      × ((j : ℕ) → j < pgsize → s'.words (page + j) ≡ s.words (src + j))
      × ((a : ℕ) → leaf ≢ a → IsOffPage page a → s'.words a ≡ s.words a)
unfolding copy_on_write store_leaf va2pa
copy_on_write_lem s pgtbl bad_addr vm_flags page pmd pte b top middle n1 n2 o2 o1 o0 =
    let va = pgrounddown bad_addr in
    let leaf = entry pte (vpn 0 va) in
    let found : find_pte s.words pgtbl va ≡ leaf =
      find_pte-Leads s.words pgtbl va pmd pte top middle in
    let src = table_at (s.words leaf) in
    let copied = copy_page s.words page src in
    let mid : Vm = record { words = copied; frames = put_page s.frames src } in
    let done =
      create_mapping-Leads mid pgtbl va (va2pa page) (fault_perm vm_flags) pmd pte (omega arith)
        (omega arith) (Leads-copy_page s.words page src _ pmd o2 top)
        (Leads-copy_page s.words page src _ pte o1 middle) n1 n2 in
    let value = bit_or (ppn_field (va2pa page)) (fault_perm vm_flags) in
    (
      store_leaf mid leaf (va2pa page) (fault_perm vm_flags),
      leaf,
      src,
      refl,
      refl,
      rw found done,
      refl,
      update_self copied leaf value,
      λ j l.
          update_ne copied leaf value (page + j) (off_ne page leaf j o0 l)
          ∙ copy_page-on s.words page src j l,
      λ a ne off. update_ne copied leaf value a ne ∙ copy_page-off s.words page src a off,
    )
  where
    off_ne : (page leaf j : ℕ) → IsOffPage page leaf → j < pgsize → leaf ≢ page + j
    off_ne page leaf j (inl l) k = omega arith
    off_ne page leaf j (inr l) k = omega arith
