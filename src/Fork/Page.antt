-- ===== src/Fork/Page.antt =====
-- One page in do_fork of arch/riscv/kernel/proc.c.
use tiny_riscv_os.Prelude.{
  ℕ, ◌-◌, ◌*◌, ◌/◌, ◌%◌, ◌^◌, ◌<◌, ◌≡◌, ◌≢◌, refl, sym, ap, ◌∙◌, true, false, ◌==◌, update,
  update_self, update_ne, bit_and, bit_or, arith,
}
use tiny_riscv_os.Prelude.Bits.{bit_and-step, bit_and_mask}
use tiny_riscv_os.Buddy.{Buddy, word}
use tiny_riscv_os.Mm.{pa2va, get_page}
use tiny_riscv_os.Result.{ok}
use tiny_riscv_os.Vm.{Vm, perm_v, perm_w, ppn_mask, ppn_field, entry, vpn, table_at, store_leaf}
use tiny_riscv_os.Vm.Entry.{Leads, leaf-fields, find_pte-Leads, table_at_lem}
use tiny_riscv_os.Vm.Remap.{create_mapping-Leads}
use tiny_riscv_os.PageFault.{pgrounddown, is_cow}
use tiny_riscv_os.Fork.{clear_w, fork_page}

bit_and_w : (w : ℕ) → bit_and w perm_w ≡ w / 4 % 2 * 4
bit_and_w w =
    let a = bit_and-step w 4 in
    let b = bit_and-step (w / 2) 2 in
    let c : bit_and (w / 2 / 2) 1 ≡ w / 2 / 2 % 2 = bit_and_mask 1 (w / 2 / 2) in
    omega (arith, a, b, c)

clear_w_lem : (w : ℕ) → clear_w w ≡ w - w / 4 % 2 * 4
unfolding clear_w
clear_w_lem w = ap (λ b. w - b) (bit_and_w w)

-- Clearing the bit leaves the page number and the valid bit, and the entry is then not writable.
clear_w-high : (w : ℕ) → clear_w w / 2 ^ 10 ≡ w / 2 ^ 10
clear_w-high w = omega (arith, clear_w_lem w)

clear_w-valid :
    (w : ℕ) → (bit_and w perm_v == 0) ≡ false → (bit_and (clear_w w) perm_v == 0) ≡ false
clear_w-valid w v = ground (arith, v, bit_and_mask 1 w, bit_and_mask 1 (clear_w w), clear_w_lem w)

clear_w-off : (w : ℕ) → bit_and (clear_w w) perm_w ≡ 0
clear_w-off w = omega (arith, bit_and_w (clear_w w), clear_w_lem w)

-- The entry that the child gets.
abbrev pub shared_entry : ℕ → ℕ
shared_entry w =
    bit_or (ppn_field (bit_and (w / 2 ^ 10) ppn_mask * 2 ^ 12 % word))
      (clear_w (bit_and (clear_w w) 0xff))

shared_entry-fields :
    (w : ℕ)
    → (shared_entry w / 2 ^ 10 ≡ w / 2 ^ 10 % 2 ^ 44)
      × (shared_entry w % 2 ^ 10 ≡ clear_w (bit_and (clear_w w) 0xff))
shared_entry-fields w =
    let low = bit_and_mask 8 (clear_w w) in
    let cleared = clear_w_lem (bit_and (clear_w w) 0xff) in
    let pa = bit_and (w / 2 ^ 10) ppn_mask * 2 ^ 12 % word in
    let number : bit_and (w / 2 ^ 10) ppn_mask ≡ w / 2 ^ 10 % 2 ^ 44 =
      bit_and_mask 44 (w / 2 ^ 10) in
    let f = leaf-fields pa (clear_w (bit_and (clear_w w) 0xff)) (omega arith) in
    (f.0 ∙ omega arith, f.1)

table_at-clear_w : (w : ℕ) → table_at (clear_w w) ≡ table_at w
table_at-clear_w w =
    table_at_lem (clear_w w)
    ∙ ap (λ x. pa2va (x % 2 ^ 44 * 2 ^ 12)) (clear_w-high w)
    ∙ sym (table_at_lem w)

table_at-shared_entry : (w : ℕ) → table_at (shared_entry w) ≡ table_at w
table_at-shared_entry w =
    let number : shared_entry w / 2 ^ 10 % 2 ^ 44 ≡ w / 2 ^ 10 % 2 ^ 44 =
      omega (arith, (shared_entry-fields w).0) in
    table_at_lem (shared_entry w) ∙ ap (λ x. pa2va (x * 2 ^ 12)) number ∙ sym (table_at_lem w)

shared_entry-valid :
    (w : ℕ) → (bit_and w perm_v == 0) ≡ false → (bit_and (shared_entry w) perm_v == 0) ≡ false
shared_entry-valid w v =
    let low = bit_and_mask 8 (clear_w w) in
    let c = clear_w_lem (bit_and (clear_w w) 0xff) in
    let f = (shared_entry-fields w).1 in
    ground (arith, v, bit_and_mask 1 w, bit_and_mask 1 (shared_entry w), clear_w_lem w, low, c, f)

shared_entry-off : (w : ℕ) → bit_and (shared_entry w) perm_w ≡ 0
shared_entry-off w =
    let c = clear_w_lem (bit_and (clear_w w) 0xff) in
    let f = (shared_entry-fields w).1 in omega (arith, bit_and_w (shared_entry w), c, f)

-- The walk to an address, through two valid entries.
pub record Walk (words : ℕ → ℕ) (pgtbl addr pmd pte : ℕ) : Type 0 where
  pub top : Leads words (entry pgtbl (vpn 2 addr)) pmd
  pub middle : Leads words (entry pmd (vpn 1 addr)) pte
  pub pmd_ne : pmd ≢ 0
  pub pte_ne : pte ≢ 0
  pub leaf_ne : entry pte (vpn 0 addr) ≢ 0

-- Neither of the two upper entries of a walk is the word at a.
pub record IsApart (pgtbl addr pmd a : ℕ) : Type 0 where
  pub top : a ≢ entry pgtbl (vpn 2 addr)
  pub middle : a ≢ entry pmd (vpn 1 addr)

Walk-update :
    (words : ℕ → ℕ) (pgtbl addr pmd pte a v : ℕ)
    → IsApart pgtbl addr pmd a
    → Walk words pgtbl addr pmd pte
    → Walk (update words a v) pgtbl addr pmd pte
Walk-update words pgtbl addr pmd pte a v off w = record {
  top = rw (update_ne words a v (entry pgtbl (vpn 2 addr)) off.top) w.top;
  middle = rw (update_ne words a v (entry pmd (vpn 1 addr)) off.middle) w.middle;
  pmd_ne = w.pmd_ne;
  pte_ne = w.pte_ne;
  leaf_ne = w.leaf_ne;
}

-- A store to a page whose last entry is valid but not writable is taken for copy on write.
is_cow-Walk :
    (words : ℕ → ℕ) (pgtbl addr pmd pte w : ℕ)
    → Walk words pgtbl addr pmd pte
    → pgrounddown addr ≡ addr
    → words (entry pte (vpn 0 addr)) ≡ w
    → (bit_and w perm_v == 0) ≡ false
    → bit_and w perm_w ≡ 0
    → is_cow words pgtbl addr ≡ true
unfolding is_cow
is_cow-Walk words pgtbl addr pmd pte w walk aligned at valid off =
    let found = find_pte-Leads words pgtbl addr pmd pte walk.top walk.middle in
    let there : (entry pte (vpn 0 addr) == 0) ≡ false = ground (arith, walk.leaf_ne) in
    rw (aligned, found, there, at, valid, off) refl

fork_page-Walk :
    (s : Vm) (f : Buddy) (parent child addr pmd pte cpmd cpte w : ℕ)
    → addr < word
    → Walk s.words parent addr pmd pte
    → Walk s.words child addr cpmd cpte
    → s.words (entry pte (vpn 0 addr)) ≡ w
    → (bit_and w perm_v == 0) ≡ false
    → get_page s.frames (table_at w) ≡ (f, 0)
    → IsApart child addr cpmd (entry pte (vpn 0 addr))
    → fork_page s parent child addr
      ≡ ok (record {
        words =
            update
              (update s.words (entry pte (vpn 0 addr)) (clear_w w))
              (entry cpte (vpn 0 addr))
              (shared_entry w);
        frames = f;
      })
unfolding fork_page table_at store_leaf
fork_page-Walk s f parent child addr pmd pte cpmd cpte w l walk cwalk at valid got apart =
    let leaf = entry pte (vpn 0 addr) in
    let found = find_pte-Leads s.words parent addr pmd pte walk.top walk.middle in
    let there : (leaf == 0) ≡ false = ground (arith, walk.leaf_ne) in
    let mid : Vm = record { words = update s.words leaf (clear_w w); frames = f } in
    let cwalk' = Walk-update s.words child addr cpmd cpte leaf (clear_w w) apart cwalk in
    let mapped =
      create_mapping-Leads mid child addr (bit_and (w / 2 ^ 10) ppn_mask * 2 ^ 12 % word)
        (clear_w (bit_and (clear_w w) 0xff)) cpmd cpte l (omega arith) cwalk'.top cwalk'.middle
        cwalk'.pmd_ne cwalk'.pte_ne in
    rw (found, there, at, valid, got, mapped) refl

-- The entries of the walks in the two tables are different words.
pub record AreApart (parent child addr pmd pte cpmd cpte : ℕ) : Type 0 where
  pub own : IsApart parent addr pmd (entry pte (vpn 0 addr))
  pub of_child : IsApart child addr cpmd (entry cpte (vpn 0 addr))
  pub parent_child : IsApart child addr cpmd (entry pte (vpn 0 addr))
  pub child_parent : IsApart parent addr pmd (entry cpte (vpn 0 addr))
  pub leaves : entry pte (vpn 0 addr) ≢ entry cpte (vpn 0 addr)

-- The page is shared by the two tasks.
pub record Shared (s s' : Vm) (parent child addr pte cpte w : ℕ) : Type 0 where
  pub parent_cow : is_cow s'.words parent addr ≡ true
  pub child_cow : is_cow s'.words child addr ≡ true
  pub parent_page : table_at (s'.words (entry pte (vpn 0 addr))) ≡ table_at w
  pub child_page : table_at (s'.words (entry cpte (vpn 0 addr))) ≡ table_at w
  pub kept :
      (a : ℕ) → entry pte (vpn 0 addr) ≢ a → entry cpte (vpn 0 addr) ≢ a → s'.words a ≡ s.words a

-- fork_page on a page that the parent has mapped, where get_page counts one reference more and the
-- tables of the child are there: it ends, both tasks then have the page of the parent, a store of
-- either to it is taken for copy on write, and no word but the two last entries has changed.
pub fork_page-Shared :
    (s : Vm) (f : Buddy) (parent child addr pmd pte cpmd cpte w : ℕ)
    → addr < word
    → pgrounddown addr ≡ addr
    → Walk s.words parent addr pmd pte
    → Walk s.words child addr cpmd cpte
    → AreApart parent child addr pmd pte cpmd cpte
    → s.words (entry pte (vpn 0 addr)) ≡ w
    → (bit_and w perm_v == 0) ≡ false
    → get_page s.frames (table_at w) ≡ (f, 0)
    → (s' : Vm) × (fork_page s parent child addr ≡ ok s')
      × (s'.frames ≡ f)
      × Shared s s' parent child addr pte cpte w
fork_page-Shared s f parent child addr pmd pte cpmd cpte w l aligned walk cwalk apart at valid got =
    let leaf = entry pte (vpn 0 addr) in
    let cleaf = entry cpte (vpn 0 addr) in
    let words1 = update s.words leaf (clear_w w) in
    let words2 = update words1 cleaf (shared_entry w) in
    let own = Walk-update s.words parent addr pmd pte leaf (clear_w w) apart.own walk in
    let own' =
      Walk-update words1 parent addr pmd pte cleaf (shared_entry w) apart.child_parent own in
    let theirs =
      Walk-update s.words child addr cpmd cpte leaf (clear_w w) apart.parent_child cwalk in
    let theirs' =
      Walk-update words1 child addr cpmd cpte cleaf (shared_entry w) apart.of_child theirs in
    let at_leaf : words2 leaf ≡ clear_w w =
      update_ne words1 cleaf (shared_entry w) leaf (λ e. apart.leaves (sym e))
      ∙ update_self s.words leaf (clear_w w) in
    let at_cleaf : words2 cleaf ≡ shared_entry w = update_self words1 cleaf (shared_entry w) in
    (
      record { words = words2; frames = f },
      fork_page-Walk s f parent child addr pmd pte cpmd cpte w l walk cwalk at valid got
          apart.parent_child,
      refl,
      record {
        parent_cow =
            is_cow-Walk words2 parent addr pmd pte (clear_w w) own' aligned at_leaf
              (clear_w-valid w valid) (clear_w-off w);
        child_cow =
            is_cow-Walk words2 child addr cpmd cpte (shared_entry w) theirs' aligned at_cleaf
              (shared_entry-valid w valid) (shared_entry-off w);
        parent_page = ap table_at at_leaf ∙ table_at-clear_w w;
        child_page = ap table_at at_cleaf ∙ table_at-shared_entry w;
        kept = λ a n m.
            update_ne words1 cleaf (shared_entry w) a m ∙ update_ne s.words leaf (clear_w w) a n;
      },
    )
