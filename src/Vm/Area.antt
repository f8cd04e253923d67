-- ===== src/Vm/Area.antt =====
-- The list of virtual memory areas of arch/riscv/kernel/vm.c.
use tiny_riscv_os.Prelude.{
  ℕ, ◌+◌, ◌%◌, ◌≤◌, ◌<◌, ◌≡◌, ◌⊎◌, inl, inr, refl, true, false, Option, none, some, List, [], ◌∷◌,
  ltb, leb, ◌&&◌, if◌then◌else◌, arith,
}
use tiny_riscv_os.Buddy.{Buddy, word}
use tiny_riscv_os.Vm.{Vma, find_vma, do_mmap}

abbrev pub IsIn : ℕ → Vma → Type 0
IsIn a v = (v.vm_start ≤ a) × (a < v.vm_end)

-- The areas of a list, the address and the area that find_vma returns.
pub data Found (a : ℕ) : List Vma → Option Vma → Type 0 where
  nowhere : Found a [] none
  here : {v : Vma} {vs : List Vma} → IsIn a v → Found a (v ∷ vs) (some v)
  later :
      {v : Vma} {vs : List Vma} {r : Option Vma}
      → (a < v.vm_start) ⊎ (v.vm_end ≤ a)
      → Found a vs r
      → Found a (v ∷ vs) r

-- find_vma returns the first area of the list that contains the address, and none if none does.
pub find_vma-Found : (vs : List Vma) (a : ℕ) → Found a vs (find_vma vs a)
unfolding find_vma
find_vma-Found [] a = nowhere
find_vma-Found (v ∷ vs) a = elim (inside a v.vm_start v.vm_end) [
  | inl (e, i) ↦ rw e (here i)
  | inr (e, o) ↦ rw e (later o (find_vma-Found vs a))
]
  where
    inside :
        (a s e : ℕ)
        → (((leb s a && ltb a e) ≡ true) × ((s ≤ a) × (a < e)))
          ⊎ (((leb s a && ltb a e) ≡ false) × ((a < s) ⊎ (e ≤ a)))
    inside a s e = ground arith

-- The area that do_mmap describes.
abbrev pub new_area : ℕ → ℕ → ℕ → ℕ → ℕ → Vma
new_area addr len pgoff filesz flags = record {
  vm_start = addr;
  vm_end = (addr + len) % word;
  vm_flags = flags;
  vm_pgoff = pgoff;
  vm_filesz = filesz;
}

pub do_mmap-head :
    (frames f : Buddy) (vs vs' : List Vma) (addr len pgoff filesz flags start : ℕ)
    → do_mmap frames vs addr len pgoff filesz flags ≡ some (f, vs', start)
    → (start ≡ addr) × (vs' ≡ new_area addr len pgoff filesz flags ∷ vs)
unfolding do_mmap
do_mmap-head frames f vs vs' addr len pgoff filesz flags start e = ground arith

-- After do_mmap of an area that does not wrap, find_vma finds that area at its addresses, with the
-- flags and the file offset given, and what it found before at all others.
pub find_vma-do_mmap :
    (frames f : Buddy) (vs vs' : List Vma) (addr len pgoff filesz flags start : ℕ)
    → addr + len < word
    → do_mmap frames vs addr len pgoff filesz flags ≡ some (f, vs', start)
    → (a : ℕ)
    → (start ≡ addr)
      × (find_vma vs' a ≡ (
          if leb addr a && ltb a (addr + len)
          then some (new_area addr len pgoff filesz flags)
          else find_vma vs a))
unfolding find_vma
find_vma-do_mmap frames f vs vs' addr len pgoff filesz flags start l e a =
    let (same, head) = do_mmap-head frames f vs vs' addr len pgoff filesz flags start e in
    let fits : (addr + len) % word ≡ addr + len = omega arith in (same, rw (head, fits) refl)

-- The area that was found, if any, contains the address.
abbrev Contains : ℕ → Option Vma → Type 0
Contains a none = Unit {0}
Contains a (some v) = IsIn a v

Found-Contains : (a : ℕ) (vs : List Vma) (r : Option Vma) → Found a vs r → Contains a r
Found-Contains a vs r nowhere = tt
Found-Contains a vs r (here i) = i
Found-Contains a vs r (later o f) = Found-Contains a _ r f

pub Found-IsIn : (a : ℕ) (vs : List Vma) (v : Vma) → Found a vs (some v) → IsIn a v
Found-IsIn a vs v f = Found-Contains a vs (some v) f
