-- ===== src/Vm/Entry.antt =====
-- Table entries of arch/riscv/kernel/vm.c, and find_pte after a round of create_mapping.
use tiny_riscv_os.Prelude.{
  ℕ, ◌*◌, ◌/◌, ◌%◌, ◌^◌, ◌<◌, ◌≡◌, ◌≢◌, ◌⊎◌, inl, inr, refl, ◌∙◌, true, false, some, ◌==◌, update,
  update_self, update_ne, bit_and, bit_or, arith,
}
use tiny_riscv_os.Prelude.Bits.{bit_and_mask, bit_or_disjoint}
use tiny_riscv_os.Buddy.{word}
use tiny_riscv_os.Mm.{pa2va, va2pa}
use tiny_riscv_os.Vm.{
  Vm, perm_v, ppn_mask, ppn_field, entry, vpn, table_at, next_table, store_leaf, map_below,
  map_page, find_pte,
}

-- An address at which a page table may lie: that of a page with a page number of 44 bits.
abbrev pub IsTable : ℕ → Type 0
IsTable t = (k : ℕ) × (k < 2 ^ 44) × (t ≡ pa2va (k * 2 ^ 12))

pub ppn_field_lem : (pa : ℕ) → ppn_field pa ≡ pa / 2 ^ 12 % 2 ^ 44 * 2 ^ 10
unfolding ppn_field
ppn_field_lem pa = rw (bit_and_mask 44 (pa / 2 ^ 12)) (omega arith)

-- A permission below 2^10 fills the low bits and leaves the page number alone.
pub leaf-fields :
    (pa perm : ℕ)
    → perm < 2 ^ 10
    → (bit_or (ppn_field pa) perm / 2 ^ 10 ≡ pa / 2 ^ 12 % 2 ^ 44)
      × (bit_or (ppn_field pa) perm % 2 ^ 10 ≡ perm)
leaf-fields pa perm l =
    rw (ppn_field_lem pa, bit_or_disjoint 10 (pa / 2 ^ 12 % 2 ^ 44) perm l)
      (omega arith, omega arith)

pub table_at_lem : (w : ℕ) → table_at w ≡ pa2va (w / 2 ^ 10 % 2 ^ 44 * 2 ^ 12)
unfolding table_at
table_at_lem w =
    let field : bit_and (w / 2 ^ 10) ppn_mask ≡ w / 2 ^ 10 % 2 ^ 44 =
      bit_and_mask 44 (w / 2 ^ 10) in
    let small : w / 2 ^ 10 % 2 ^ 44 * 2 ^ 12 % word ≡ w / 2 ^ 10 % 2 ^ 44 * 2 ^ 12 = omega arith in
    rw (field, small) refl

-- The page number of a table comes back from the entry.
va2pa-table : (k : ℕ) → k < 2 ^ 44 → va2pa (pa2va (k * 2 ^ 12)) / 2 ^ 12 % 2 ^ 44 ≡ k
unfolding va2pa pa2va
va2pa-table k l = omega arith

table_at-entry : (t : ℕ) → IsTable t → table_at (bit_or (ppn_field (va2pa t)) perm_v) ≡ t
table_at-entry t (k, l, e) =
    let small : k % 2 ^ 44 ≡ k = omega arith in
    table_at_lem _
    ∙ rw ((leaf-fields (va2pa t) perm_v (omega arith)).0, e, va2pa-table k l, small) refl

valid-entry : (t : ℕ) → bit_and (bit_or (ppn_field (va2pa t)) perm_v) perm_v ≡ 1
valid-entry t = bit_and_mask 1 _ ∙ omega (arith, (leaf-fields (va2pa t) perm_v (omega arith)).1)

-- What a walk sees behind an entry: a valid entry, and the table below it.
abbrev pub Leads : (ℕ → ℕ) → ℕ → ℕ → Type 0
Leads words at table = ((bit_and (words at) perm_v == 0) ≡ false) × (table_at (words at) ≡ table)

next_table-cases :
    (s s' : Vm) (at table : ℕ)
    → next_table s at ≡ some (table, s')
    → (((bit_and (s.words at) perm_v == 0) ≡ false) × (table ≡ table_at (s.words at)) × (s' ≡ s))
      ⊎ (s'.words ≡ update s.words at (bit_or (ppn_field (va2pa table)) perm_v))
unfolding next_table
next_table-cases s s' at table e = ground arith

pub entry-Leads :
    (words : ℕ → ℕ) (at table : ℕ)
    → IsTable table
    → Leads (update words at (bit_or (ppn_field (va2pa table)) perm_v)) at table
entry-Leads words at table t =
    rw (update_self words at (bit_or (ppn_field (va2pa table)) perm_v), valid-entry table)
      (refl, table_at-entry table t)

-- next_table leaves an entry that leads to the table it returns, and changes no other word.
pub next_table-Leads :
    (s s' : Vm) (at table : ℕ)
    → next_table s at ≡ some (table, s')
    → IsTable table
    → Leads s'.words at table × ((a : ℕ) → at ≢ a → s'.words a ≡ s.words a)
next_table-Leads s s' at table e t = elim (next_table-cases s s' at table e) [
  | inl (valid, found, same) ↦ rw (same, found) ((valid, refl), λ a n. refl)
  | inr stored ↦ rw stored (entry-Leads s.words at table t, update_ne s.words at _)
]

pub find_pte-Leads :
    (words : ℕ → ℕ) (pgtbl va pmd pte : ℕ)
    → Leads words (entry pgtbl (vpn 2 va)) pmd
    → Leads words (entry pmd (vpn 1 va)) pte
    → find_pte words pgtbl va ≡ entry pte (vpn 0 va)
unfolding find_pte
find_pte-Leads words pgtbl va pmd pte (v, p) (v', p') = rw (v, p, v', p') refl

pub Leads-elsewhere :
    (words words' : ℕ → ℕ) (at table : ℕ)
    → words' at ≡ words at
    → Leads words at table
    → Leads words' at table
Leads-elsewhere words words' at table e l = rw e l

pub map_below-step :
    (s s' : Vm) (va pa perm pmd pte : ℕ)
    → next_table s (entry pmd (vpn 1 va)) ≡ some (pte, s')
    → pmd ≢ 0
    → pte ≢ 0
    → map_below s pmd va pa perm ≡ some (true, store_leaf s' (entry pte (vpn 0 va)) pa perm)
unfolding map_below
map_below-step s s' va pa perm pmd pte e n1 n2 = ground arith

pub map_page-step :
    (s s' : Vm) (pgtbl va pa perm pmd : ℕ)
    → next_table s (entry pgtbl (vpn 2 va)) ≡ some (pmd, s')
    → map_page s pgtbl va pa perm ≡ map_below s' pmd va pa perm
unfolding map_page
map_page-step s s' pgtbl va pa perm pmd e = ground arith
