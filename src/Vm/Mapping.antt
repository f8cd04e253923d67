-- ===== src/Vm/Mapping.antt =====
-- create_mapping on one page, and what find_pte then finds.
use tiny_riscv_os.Prelude.{
  ℕ, ◌+◌, ◌/◌, ◌%◌, ◌^◌, ◌<◌, ◌≡◌, ◌≢◌, refl, sym, ◌∙◌, true, false, some, ◌==◌, update,
  update_self, update_ne, bit_and, bit_or, arith,
}
use tiny_riscv_os.Buddy.{Buddy, word}
use tiny_riscv_os.Mm.{pa2va, va2pa, pgsize, kalloc}
use tiny_riscv_os.Vm.{
  Vm, perm_v, ppn_field, entry, vpn, next_table, store_leaf, map_below, map_page, mapping_loop,
  create_mapping, find_pte,
}
use tiny_riscv_os.Vm.Entry.{
  IsTable, leaf-fields, Leads, entry-Leads, next_table-Leads, find_pte-Leads, Leads-elsewhere,
  map_below-step, map_page-step,
}

-- What a mapping of the page of `va` to `pa` leaves, when it goes through the two tables: the last
-- entry is found and holds the page number and the permission, and no other word but the two upper
-- entries has changed.
pub record Mapped (s s' : Vm) (pgtbl va pa perm pmd pte : ℕ) : Type 0 where
  found : find_pte s'.words pgtbl va ≡ entry pte (vpn 0 va)
  number : s'.words (entry pte (vpn 0 va)) / 2 ^ 10 ≡ pa / 2 ^ 12 % 2 ^ 44
  permission : s'.words (entry pte (vpn 0 va)) % 2 ^ 10 ≡ perm
  kept :
      (a : ℕ)
      → entry pgtbl (vpn 2 va) ≢ a
      → entry pmd (vpn 1 va) ≢ a
      → entry pte (vpn 0 va) ≢ a
      → s'.words a ≡ s.words a

create_mapping-step :
    (s s' : Vm) (pgtbl va pa perm : ℕ)
    → va < word
    → pa < word
    → map_page s pgtbl va pa perm ≡ some (true, s')
    → create_mapping s pgtbl va pa pgsize perm ≡ some s'
unfolding create_mapping mapping_loop
create_mapping-step s s' pgtbl va pa perm l1 l2 e =
    let v : (va + 0) % word ≡ va = omega arith in
    let p : (pa + 0) % word ≡ pa = omega arith in rw (v, p, e) refl

-- If the two tables of a page are found or allocated, at addresses where a table may lie, and the
-- three entries of the walk are different words, then create_mapping on this one page ends, and
-- find_pte on its address returns the address of the last entry, which holds the page number of the
-- physical address and the permission; the two upper entries apart, no other word has changed.
pub find_pte-create_mapping :
    (s s1 s2 : Vm) (pgtbl va pa perm pmd pte : ℕ)
    → va < word
    → pa < word
    → perm < 2 ^ 10
    → next_table s (entry pgtbl (vpn 2 va)) ≡ some (pmd, s1)
    → next_table s1 (entry pmd (vpn 1 va)) ≡ some (pte, s2)
    → pmd ≢ 0
    → pte ≢ 0
    → IsTable pmd
    → IsTable pte
    → entry pgtbl (vpn 2 va) ≢ entry pmd (vpn 1 va)
    → entry pgtbl (vpn 2 va) ≢ entry pte (vpn 0 va)
    → entry pmd (vpn 1 va) ≢ entry pte (vpn 0 va)
    → (s' : Vm) × (create_mapping s pgtbl va pa pgsize perm ≡ some s')
      × Mapped s s' pgtbl va pa perm pmd pte
unfolding store_leaf
find_pte-create_mapping s s1 s2 pgtbl va pa perm pmd pte l1 l2 l e1 e2 n1 n2 t1 t2 d1 d2 d3 =
    let (upper, same1) = next_table-Leads s s1 _ pmd e1 t1 in
    let (lower, same2) = next_table-Leads s1 s2 _ pte e2 t2 in
    let last = entry pte (vpn 0 va) in
    let leaf = bit_or (ppn_field pa) perm in
    let kept : (a : ℕ) → last ≢ a → update s2.words last leaf a ≡ s2.words a =
      update_ne s2.words last leaf in
    let found : find_pte (update s2.words last leaf) pgtbl va ≡ last =
      find_pte-Leads _ pgtbl va pmd pte
        (Leads-elsewhere s1.words (update s2.words last leaf) _ pmd
          (kept _ (λ e. d2 (sym e)) ∙ same2 _ (λ e. d1 (sym e))) upper)
        (Leads-elsewhere s2.words (update s2.words last leaf) _ pte (kept _ (λ e. d3 (sym e)))
          lower) in
    let (number, low) = leaf-fields pa perm l in
    (
      store_leaf s2 last pa perm,
      create_mapping-step s _ pgtbl va pa perm l1 l2 (
          map_page-step s s1 pgtbl va pa perm pmd e1
          ∙ map_below-step s1 s2 va pa perm pmd pte e2 n1 n2),
      record {
        found = found;
        number = rw (update_self s2.words last leaf) number;
        permission = rw (update_self s2.words last leaf) low;
        kept = λ a u v w. kept a w ∙ same2 a v ∙ same1 a u;
      },
    )

null-IsTable : IsTable 0
unfolding pa2va
null-IsTable = (0x208_0000, omega arith, refl)

-- Where the upper table is missing and kalloc has no page for it, the round of create_mapping
-- returns, but the upper entry is then valid and leads to a table at address 0.
pub map_page-no_memory :
    (s : Vm) (f : Buddy) (pgtbl va pa perm : ℕ)
    → (bit_and (s.words (entry pgtbl (vpn 2 va))) perm_v == 0) ≡ true
    → kalloc s.frames ≡ some (0, f)
    → (s' : Vm) × (map_page s pgtbl va pa perm ≡ some (false, s'))
      × Leads s'.words (entry pgtbl (vpn 2 va)) 0
unfolding next_table map_below
map_page-no_memory s f pgtbl va pa perm invalid e =
    let at = entry pgtbl (vpn 2 va) in
    let stored : Vm = record {
      words = update s.words at (bit_or (ppn_field (va2pa 0)) perm_v);
      frames = f;
    } in
    (
      stored,
      map_page-step s stored pgtbl va pa perm 0 (rw (invalid, e) refl) ∙ refl,
      entry-Leads s.words at 0 null-IsTable,
    )
