-- ===== src/PageFault/Fresh.antt =====
-- The branch of do_page_fault (arch/riscv/kernel/vm.c) for a page that is not there yet.
use tiny_riscv_os.Prelude.{
  ℕ, ◌+◌, ◌-◌, ◌*◌, ◌/◌, ◌%◌, ◌≤◌, ◌<◌, ◌≡◌, ◌≢◌, ◌⊎◌, inl, inr, refl, ap, ◌∙◌, Bool, true, false,
  some, List, min, max, leb, ltb, ◌&&◌, ◌==◌, update, update_self, update_ne, bit_and, bit_or,
  arith,
}
use tiny_riscv_os.Buddy.{Buddy, word}
use tiny_riscv_os.Mm.{pgsize, va2pa, alloc_page}
use tiny_riscv_os.WordMemory.{byte_at}
use tiny_riscv_os.WordMemory.Bytes.{byte_at-memcpy_bytes, memcpy_bytes-off}
use tiny_riscv_os.Result.{ok, or_stuck}
use tiny_riscv_os.Vm.{Vm, Vma, find_vma, ppn_field, entry, vpn, store_leaf}
use tiny_riscv_os.Vm.Entry.{Leads}
use tiny_riscv_os.Vm.Remap.{create_mapping-Leads}
use tiny_riscv_os.PageFault.{
  vm_anon, pgrounddown, fault_perm, check_access, load_segment, map_fresh, map_fault, do_page_fault,
}

-- The word at the address does not lie in the page.
abbrev pub IsOffPage8 : ℕ → ℕ → Type 0
IsOffPage8 page a = (a + 8 ≤ page) ⊎ (page + pgsize ≤ a)

-- The part of a segment in the page of an address: where it starts, and how long it is.
abbrev pub part_start : ℕ → ℕ → ℕ
part_start bad_addr start = max (pgrounddown bad_addr) start

load_segment-off :
    (words : ℕ → ℕ) (vma : Vma) (ramdisk bad_addr page a : ℕ)
    → bad_addr + pgsize < word
    → vma.vm_start ≤ bad_addr
    → IsOffPage8 page a
    → load_segment words vma ramdisk bad_addr page a ≡ words a
unfolding load_segment
load_segment-off words vma ramdisk bad_addr page a l s (inl o) =
    memcpy_bytes-off words _ _ _ a (inl (omega arith))
load_segment-off words vma ramdisk bad_addr page a l s (inr o) =
    memcpy_bytes-off words _ _ _ a (inr (omega arith))

-- The byte of the segment at address va.
load_segment-byte :
    (words : ℕ → ℕ) (vma : Vma) (ramdisk bad_addr page va : ℕ)
    → bad_addr + pgsize < word
    → vma.vm_start ≤ bad_addr
    → ramdisk + vma.vm_pgoff + (vma.vm_end - vma.vm_start) < word
    → pgrounddown va ≡ pgrounddown bad_addr
    → vma.vm_start ≤ va
    → va < vma.vm_end
    → byte_at (load_segment words vma ramdisk bad_addr page) (page + va % pgsize)
      ≡ byte_at words (ramdisk + vma.vm_pgoff + (va - vma.vm_start))
unfolding load_segment
load_segment-byte words vma ramdisk bad_addr page va l s fits same from to =
    let vpage_start = pgrounddown bad_addr in
    let vpage_end = pgrounddown ((bad_addr + pgsize) % word) in
    let vaddr_start = max vpage_start vma.vm_start in
    let vaddr_end = min vpage_end vma.vm_end in
    let dst = page + (vaddr_start - vpage_start) in
    let src = (ramdisk + vma.vm_pgoff + (vaddr_start - vma.vm_start)) % word in
    let n = vaddr_end - vaddr_start in
    let b = page + va % pgsize in
    let below : dst ≤ b = omega arith in
    let above : b < dst + n = omega arith in
    let inside : (leb dst b && ltb b (dst + n)) ≡ true = ground arith in
    let index : src + (b - dst) ≡ ramdisk + vma.vm_pgoff + (va - vma.vm_start) = omega arith in
    byte_at-memcpy_bytes words dst src n b ∙ rw inside (ap (byte_at words) index)

-- What the tables hold after a fault was served with a new page: the last entry of the walk leads to
-- the page, with the permission of the area, and the other words outside the page are unchanged.
pub record Served (s s' : Vm) (bad_addr vm_flags page leaf : ℕ) : Type 0 where
  pub value : s'.words leaf ≡ bit_or (ppn_field (va2pa page)) (fault_perm vm_flags)
  pub kept : (a : ℕ) → leaf ≢ a → IsOffPage8 page a → s'.words a ≡ s.words a

module _ (s : Vm) (pgtbl : ℕ) (vma : Vma) (ramdisk bad_addr page pmd pte : ℕ)
    (l : bad_addr + pgsize < word) (start : vma.vm_start ≤ bad_addr)
    (file : bit_and vma.vm_flags vm_anon ≡ 0)
    (top : Leads s.words (entry pgtbl (vpn 2 (pgrounddown bad_addr))) pmd)
    (middle : Leads s.words (entry pmd (vpn 1 (pgrounddown bad_addr))) pte) (n1 : pmd ≢ 0)
    (n2 : pte ≢ 0) (o2 : IsOffPage8 page (entry pgtbl (vpn 2 (pgrounddown bad_addr))))
    (o1 : IsOffPage8 page (entry pmd (vpn 1 (pgrounddown bad_addr)))) where
  loaded : ℕ → ℕ
  loaded = load_segment s.words vma ramdisk bad_addr page

  Leads-loaded :
      (at table : ℕ) → IsOffPage8 page at → Leads s.words at table → Leads loaded at table
  unfolding loaded
  Leads-loaded at table off =
      rw (load_segment-off s.words vma ramdisk bad_addr page at l start off) λ x. x

  pub map_fresh-file :
      map_fresh s pgtbl vma ramdisk bad_addr page
      ≡ some (
          store_leaf
            (record { words = load_segment s.words vma ramdisk bad_addr page; frames = s.frames })
            (entry pte (vpn 0 (pgrounddown bad_addr)))
            (va2pa page)
            (fault_perm vma.vm_flags))
  unfolding map_fresh loaded va2pa
  map_fresh-file =
      let anon : (bit_and vma.vm_flags vm_anon == 0) ≡ true = ground arith in
      rw anon (
        create_mapping-Leads (record { words = loaded; frames = s.frames }) pgtbl
          (pgrounddown bad_addr) (va2pa page) (fault_perm vma.vm_flags) pmd pte (omega arith)
          (omega arith) (Leads-loaded _ pmd o2 top) (Leads-loaded _ pte o1 middle) n1 n2)

byte_at-update :
    (words : ℕ → ℕ) (leaf v b : ℕ)
    → leaf ≢ b / 8 * 8
    → byte_at (update words leaf v) b ≡ byte_at words b
unfolding byte_at
byte_at-update words leaf v b ne = rw (update_ne words leaf v (b / 8 * 8) ne) refl

map_fault-fresh :
    (s : Vm) (pgtbl : ℕ) (vma : Vma) (ramdisk bad_addr page : ℕ) (frames : Buddy)
    → alloc_page s.frames ≡ some (page, frames)
    → map_fault s pgtbl vma ramdisk bad_addr false
      ≡ map_fresh (record s { frames = frames }) pgtbl vma ramdisk bad_addr page
unfolding map_fault
map_fault-fresh s pgtbl vma ramdisk bad_addr page frames e = rw (map_fault, e) refl

-- do_page_fault behind its tests.
do_page_fault-step :
    (s : Vm) (pgtbl : ℕ) (mmap : List Vma) (ramdisk bad_addr scause : ℕ) (vma : Vma) (cow : Bool)
    → find_vma mmap bad_addr ≡ some vma
    → check_access s.words pgtbl vma bad_addr (bit_and scause 0x7fff_ffff) ≡ ok cow
    → do_page_fault s pgtbl mmap ramdisk bad_addr scause
      ≡ or_stuck (map_fault s pgtbl vma ramdisk bad_addr cow)
unfolding do_page_fault
do_page_fault-step s pgtbl mmap ramdisk bad_addr scause vma cow found access =
    rw (found, access) refl

-- Demand paging: if the address lies in an area of the file, the access is permitted and is no copy
-- on write, alloc_page returns a page, and the tables are there and lie outside it, then
-- do_page_fault ends. The page then holds the bytes of the file at the addresses of the area, the
-- last entry of the walk leads to the page with the permission of the area, and the other words
-- outside the page are unchanged.
pub do_page_fault-file :
    (s : Vm) (pgtbl : ℕ) (mmap : List Vma) (ramdisk bad_addr scause : ℕ) (vma : Vma) (page : ℕ)
    (frames : Buddy) (pmd pte : ℕ)
    → bad_addr + pgsize < word
    → find_vma mmap bad_addr ≡ some vma
    → vma.vm_start ≤ bad_addr
    → ramdisk + vma.vm_pgoff + (vma.vm_end - vma.vm_start) < word
    → bit_and vma.vm_flags vm_anon ≡ 0
    → check_access s.words pgtbl vma bad_addr (bit_and scause 0x7fff_ffff) ≡ ok false
    → alloc_page s.frames ≡ some (page, frames)
    → Leads s.words (entry pgtbl (vpn 2 (pgrounddown bad_addr))) pmd
    → Leads s.words (entry pmd (vpn 1 (pgrounddown bad_addr))) pte
    → pmd ≢ 0
    → pte ≢ 0
    → IsOffPage8 page (entry pgtbl (vpn 2 (pgrounddown bad_addr)))
    → IsOffPage8 page (entry pmd (vpn 1 (pgrounddown bad_addr)))
    → IsOffPage8 page (entry pte (vpn 0 (pgrounddown bad_addr)))
    → (s' : Vm) × (do_page_fault s pgtbl mmap ramdisk bad_addr scause ≡ ok s')
      × (s'.frames ≡ frames)
      × Served s s' bad_addr vma.vm_flags page (entry pte (vpn 0 (pgrounddown bad_addr)))
      × ((va : ℕ)
          → pgrounddown va ≡ pgrounddown bad_addr
          → vma.vm_start ≤ va
          → va < vma.vm_end
          → byte_at s'.words (page + va % pgsize)
            ≡ byte_at s.words (ramdisk + vma.vm_pgoff + (va - vma.vm_start)))
unfolding store_leaf
do_page_fault-file s pgtbl mmap ramdisk bad_addr scause vma page frames pmd pte l found start fits
      file ok_access alloc top middle n1 n2 o2 o1 o0 =
    let leaf = entry pte (vpn 0 (pgrounddown bad_addr)) in
    let s1 : Vm = record s { frames = frames } in
    let words = load_segment s.words vma ramdisk bad_addr page in
    let value = bit_or (ppn_field (va2pa page)) (fault_perm vma.vm_flags) in
    let mapped =
      map_fresh-file s1 pgtbl vma ramdisk bad_addr page pmd pte l start file top middle n1 n2 o2
        o1 in
    (
      store_leaf (record { words = words; frames = frames }) leaf (va2pa page)
          (fault_perm vma.vm_flags),
      do_page_fault-step s pgtbl mmap ramdisk bad_addr scause vma false found ok_access
          ∙ ap or_stuck (map_fault-fresh s pgtbl vma ramdisk bad_addr page frames alloc ∙ mapped),
      refl,
      record {
        value = update_self words leaf value;
        kept = λ a ne off.
            update_ne words leaf value a ne
            ∙ load_segment-off s.words vma ramdisk bad_addr page a l start off;
      },
      λ va same from to.
          byte_at-update words leaf value (page + va % pgsize)
            (off_cell leaf (va % pgsize) o0 (omega arith))
          ∙ load_segment-byte s.words vma ramdisk bad_addr page va l start fits same from to,
    )
  where
    off_cell : (leaf j : ℕ) → IsOffPage8 page leaf → j < pgsize → leaf ≢ (page + j) / 8 * 8
    off_cell leaf j (inl o) k = omega arith
    off_cell leaf j (inr o) k = omega arith
