-- ===== src/Vm/Remap.antt =====
-- create_mapping of arch/riscv/kernel/vm.c on a page whose tables are there.
use tiny_riscv_os.Prelude.{ℕ, ◌+◌, ◌%◌, ◌<◌, ◌≡◌, ◌≢◌, refl, ◌∙◌, true, some, arith}
use tiny_riscv_os.Buddy.{word}
use tiny_riscv_os.Mm.{pgsize}
use tiny_riscv_os.Vm.{
  Vm, entry, vpn, next_table, store_leaf, map_page, mapping_loop, create_mapping,
}
use tiny_riscv_os.Vm.Entry.{Leads, map_below-step, map_page-step}

-- A valid entry leads to its table, and nothing is allocated.
next_table-valid :
    (s : Vm) (at table : ℕ) → Leads s.words at table → next_table s at ≡ some (table, s)
unfolding next_table
next_table-valid s at table (v, p) = rw (v, p) refl

map_page-Leads :
    (s : Vm) (pgtbl va pa perm pmd pte : ℕ)
    → Leads s.words (entry pgtbl (vpn 2 va)) pmd
    → Leads s.words (entry pmd (vpn 1 va)) pte
    → pmd ≢ 0
    → pte ≢ 0
    → map_page s pgtbl va pa perm ≡ some (true, store_leaf s (entry pte (vpn 0 va)) pa perm)
map_page-Leads s pgtbl va pa perm pmd pte top middle n1 n2 =
    map_page-step s s pgtbl va pa perm pmd (next_table-valid s (entry pgtbl (vpn 2 va)) pmd top)
    ∙ map_below-step s s va pa perm pmd pte (next_table-valid s (entry pmd (vpn 1 va)) pte middle)
        n1 n2

-- create_mapping on a page whose two tables are there stores the last entry and does nothing else.
pub create_mapping-Leads :
    (s : Vm) (pgtbl va pa perm pmd pte : ℕ)
    → va < word
    → pa < word
    → Leads s.words (entry pgtbl (vpn 2 va)) pmd
    → Leads s.words (entry pmd (vpn 1 va)) pte
    → pmd ≢ 0
    → pte ≢ 0
    → create_mapping s pgtbl va pa pgsize perm ≡ some (store_leaf s (entry pte (vpn 0 va)) pa perm)
unfolding create_mapping mapping_loop
create_mapping-Leads s pgtbl va pa perm pmd pte l1 l2 top middle n1 n2 =
    let v : (va + 0) % word ≡ va = omega arith in
    let p : (pa + 0) % word ≡ pa = omega arith in
    let step = map_page-Leads s pgtbl va pa perm pmd pte top middle n1 n2 in rw (v, p, step) refl
