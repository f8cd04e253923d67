-- ===== src/Load/Areas.antt =====
-- The areas that load_elf of arch/riscv/kernel/proc.c makes.
use tiny_riscv_os.Prelude.{
  ℕ, zero, suc, ◌+◌, ◌%◌, ◌≡◌, refl, sym, subst, Bool-cases, inl, inr, List, ◌∷◌, ◌==◌,
  if◌then◌else◌,
}
use tiny_riscv_os.Buddy.{Buddy, word}
use tiny_riscv_os.Result.{ok, or_halted}
use tiny_riscv_os.Result.Yields.{Yields, ok-Yields, bind-Yields, or_halted-ok}
use tiny_riscv_os.Vm.{Vma, do_mmap}
use tiny_riscv_os.Vm.Area.{new_area, do_mmap-head}
use tiny_riscv_os.Load.{
  pt_load, e_entry, e_phoff, e_phnum, p_type, p_flags, p_offset, p_vaddr, p_filesz, p_memsz,
  segment_flags, load_segments, load_elf,
}

-- The area of a segment: it starts at its address, and is as long as the segment in memory.
abbrev pub segment_area : (ℕ → ℕ) → ℕ → Vma
segment_area words phdr =
    new_area (p_vaddr words phdr) (p_memsz words phdr) (p_offset words phdr) (p_filesz words phdr)
      (segment_flags (p_flags words phdr))

-- The areas of the segments that are to be loaded, the last one first, before the others.
unfoldable pub segments_onto : ℕ → (ℕ → ℕ) → ℕ → List Vma → List Vma
segments_onto zero words phdr mmap = mmap
segments_onto (suc n) words phdr mmap =
    segments_onto n words (phdr + 56)
      (if p_type words phdr == pt_load then segment_area words phdr ∷ mmap else mmap)

load_segments-areas :
    (n : ℕ) (words : ℕ → ℕ) (phdr : ℕ) (frames : Buddy) (mmap : List Vma)
    → Yields
        (λ (r : Buddy × List Vma). r.1 ≡ segments_onto n words phdr mmap)
        (load_segments n words phdr frames mmap)
unfolding load_segments segments_onto
load_segments-areas zero words phdr frames mmap =
    ok-Yields (λ (r : Buddy × List Vma). r.1 ≡ mmap) (frames, mmap) refl
load_segments-areas (suc n) words phdr frames mmap =
    elim (Bool-cases (p_type words phdr == pt_load)) [
      | inr other ↦ rw other (load_segments-areas n words (phdr + 56) frames mmap)
      | inl load ↦
          let area = segment_area words phdr in
          let P : Buddy × List Vma → Type 0 =
            λ r. r.1 ≡ segments_onto n words (phdr + 56) (area ∷ mmap) in
          rw load (
            bind-Yields P _
              (or_halted (
                do_mmap frames mmap (p_vaddr words phdr) (p_memsz words phdr) (p_offset words phdr)
                  (p_filesz words phdr) (segment_flags (p_flags words phdr))))
              λ (f, mmap', start) e.
                let head =
                  do_mmap-head frames f mmap mmap' (p_vaddr words phdr) (p_memsz words phdr)
                    (p_offset words phdr) (p_filesz words phdr) (segment_flags (p_flags words phdr))
                    start (or_halted-ok _ (f, mmap', start) e) in
                subst (λ m. Yields P (load_segments n words (phdr + 56) f m)) (sym head.1)
                  (load_segments-areas n words (phdr + 56) f (area ∷ mmap)))
    ]

-- Where load_elf ends, each segment of the program that is to be loaded has become an area of the
-- task, in the order of the program headers from the last to the first, before the areas that were
-- there, and the entry point is that of the program.
pub load_elf-areas :
    (words : ℕ → ℕ) (ramdisk : ℕ) (frames : Buddy) (mmap : List Vma) (r : Buddy × List Vma × ℕ)
    → load_elf words ramdisk frames mmap ≡ ok r
    → (r.1
        ≡ segments_onto
            (e_phnum words ramdisk)
            words
            ((ramdisk + e_phoff words ramdisk) % word)
            mmap)
      × (r.2 ≡ e_entry words ramdisk)
unfolding load_elf
load_elf-areas words ramdisk frames mmap r =
    let n = e_phnum words ramdisk in
    let phdr = (ramdisk + e_phoff words ramdisk) % word in
    let P : Buddy × List Vma × ℕ → Type 0 =
      λ q. (q.1 ≡ segments_onto n words phdr mmap) × (q.2 ≡ e_entry words ramdisk) in
    bind-Yields P _ (load_segments n words phdr frames mmap)
      (λ (f, mmap') e.
        ok-Yields P _ (load_segments-areas n words phdr frames mmap (f, mmap') e, refl))
      r
