-- ===== src/Load.antt =====
-- load_elf of arch/riscv/kernel/proc.c: the segments of the program in the ramdisk become areas of a
-- task. The fields are read at their offsets in Elf64_Ehdr and Elf64_Phdr (include/elf.h).
-- Load/Areas holds the proof.
pub mod Areas
use tiny_riscv_os.Prelude.{
  ℕ, zero, suc, ◌+◌, ◌*◌, ◌%◌, ◌^◌, Bool, List, [], ◌∷◌, ◌==◌, if◌then◌else◌, bit_and, bit_or,
}
use tiny_riscv_os.Buddy.{Buddy, word}
use tiny_riscv_os.Result.{Result, ok, ◌>>=◌, or_halted}
use tiny_riscv_os.WordMemory.{load16, load32, load64}
use tiny_riscv_os.Vm.{Vma, do_mmap}
use tiny_riscv_os.PageFault.{vm_read, vm_write, vm_exec}

abbrev pub pt_load : ℕ
pt_load = 1

abbrev pub pf_x : ℕ
pf_x = 1

abbrev pub pf_w : ℕ
pf_w = 2

abbrev pub pf_r : ℕ
pf_r = 4

abbrev pub e_entry : (ℕ → ℕ) → ℕ → ℕ
e_entry words ehdr = load64 words (ehdr + 24)

abbrev pub e_phoff : (ℕ → ℕ) → ℕ → ℕ
e_phoff words ehdr = load64 words (ehdr + 32)

abbrev pub e_phnum : (ℕ → ℕ) → ℕ → ℕ
e_phnum words ehdr = load16 words (ehdr + 56)

abbrev pub p_type : (ℕ → ℕ) → ℕ → ℕ
p_type words phdr = load32 words phdr

abbrev pub p_flags : (ℕ → ℕ) → ℕ → ℕ
p_flags words phdr = load32 words (phdr + 4)

abbrev pub p_offset : (ℕ → ℕ) → ℕ → ℕ
p_offset words phdr = load64 words (phdr + 8)

abbrev pub p_vaddr : (ℕ → ℕ) → ℕ → ℕ
p_vaddr words phdr = load64 words (phdr + 16)

abbrev pub p_filesz : (ℕ → ℕ) → ℕ → ℕ
p_filesz words phdr = load64 words (phdr + 32)

abbrev pub p_memsz : (ℕ → ℕ) → ℕ → ℕ
p_memsz words phdr = load64 words (phdr + 40)

-- The permission of a segment as flags of an area.
unfoldable pub segment_flags : ℕ → ℕ
segment_flags f =
    let flags1 = if bit_and f pf_r == 0 then 0 else vm_read in
    let flags2 = if bit_and f pf_w == 0 then flags1 else bit_or flags1 vm_write in
    if bit_and f pf_x == 0 then flags2 else bit_or flags2 vm_exec

-- The loop over the program headers, from phdr on, with n headers left.
unfoldable pub load_segments : ℕ → (ℕ → ℕ) → ℕ → Buddy → List Vma → Result (Buddy × List Vma)
load_segments zero words phdr frames mmap = ok (frames, mmap)
load_segments (suc n) words phdr frames mmap =
    let skipped = load_segments n words (phdr + 56) frames mmap in
    let mapped =
      or_halted (
        do_mmap frames mmap (p_vaddr words phdr) (p_memsz words phdr) (p_offset words phdr)
          (p_filesz words phdr) (segment_flags (p_flags words phdr)))
      >>= λ (f, mmap', start). load_segments n words (phdr + 56) f mmap' in
    if p_type words phdr == pt_load then mapped else skipped

-- The page allocator, the areas, and the entry point.
unfoldable pub load_elf : (ℕ → ℕ) → ℕ → Buddy → List Vma → Result (Buddy × List Vma × ℕ)
load_elf words ramdisk frames mmap =
    load_segments (e_phnum words ramdisk) words ((ramdisk + e_phoff words ramdisk) % word) frames
      mmap
    >>= λ (f, mmap'). ok (f, mmap', e_entry words ramdisk)
