-- ===== src/Syscall/Console.antt =====
-- The console: what sys_write of arch/riscv/kernel/syscall.c does by stdout_write of fs/vfs.c, and
-- vprintfmt of lib/printk.c.
use tiny_riscv_os.Prelude.{
  ℕ, zero, suc, ◌+◌, ◌<◌, ◌≡◌, refl, sym, true, List, [], ◌++◌, length, ◌==◌, ◌^◌, ltb,
  if◌then◌else◌, update, update_ne, update_self, ℕ_discrete, arith,
}
use tiny_riscv_os.Bytes.{Bytes}
use tiny_riscv_os.Format.Plain.{IsPlain, vprintfmt-IsPlain}
use tiny_riscv_os.Printer.Digits.{Holds}
use tiny_riscv_os.Result.{ok}
use tiny_riscv_os.Vfs.{file_init, printk_text, stdout_write, stderr_write, red, clear}
use tiny_riscv_os.FileOpen.{call_write}
use tiny_riscv_os.Syscall.{a0, a1, a2, Call, finished, sys_write}

printk_text-IsPlain :
    (fuel : ℕ) (mem : Bytes) (fmt : ℕ) (cs console : List ℕ)
    → IsPlain cs
    → Holds mem fmt cs
    → mem (fmt + length cs) ≡ 0
    → length cs < fuel
    → length cs < 2 ^ 31
    → printk_text fuel mem fmt console ≡ ok (console ++ cs, length cs)
unfolding printk_text
printk_text-IsPlain fuel mem fmt cs console p h z l i =
    rw (printk_text, vprintfmt-IsPlain mem fmt cs [] fuel p h z l i) refl

update_known : {A : Type 0} (f : ℕ → A) (i j : ℕ) → update f i (f i) j ≡ f j
update_known f i j = elim (ℕ_discrete i j) [
  | yes e ↦ rw (sym e) (update_self f i (f i))
  | no ne ↦ update_ne f i (f i) j ne
]

-- What stands on the console after a write to descriptor 1 or 2.
unfoldable pub shown : ℕ → List ℕ → List ℕ → List ℕ
shown fd console cs = if fd == 2 then ((console ++ red) ++ cs) ++ clear else console ++ cs

-- With the table of file_init, sys_write of a text without % to descriptor 1 puts the text, up to
-- its zero byte, on the console and returns its length, whatever other length stands in a2, and to
-- descriptor 2 it does so in red; the files, memory and the disk stay as they are. The length in
-- a2 must leave room for the copy on the kernel stack, that of the text must be an int, and there
-- are more rounds as fuel than the text has characters.
pub sys_write-IsPlain :
    (fuel : ℕ) (s : Call) (cs : List ℕ)
    → s.has_files ≡ true
    → s.files ≡ file_init
    → 0 < s.regs.x a0
    → s.regs.x a0 < 3
    → IsPlain cs
    → Holds s.machine.mem (s.regs.x a1) cs
    → s.machine.mem (s.regs.x a1 + length cs) ≡ 0
    → length cs < fuel
    → length cs < 2 ^ 31
    → s.regs.x a2 < s.machine.stack_room
    → (s' : Call) × (sys_write fuel s ≡ ok s')
      × (s'.regs.x a0 ≡ length cs)
      × (s'.machine ≡ record s.machine { console = shown (s.regs.x a0) s.machine.console cs })
      × ((fd : ℕ) → s'.files fd ≡ s.files fd)
unfolding sys_write call_write stdout_write stderr_write file_init shown
sys_write-IsPlain fuel s cs h e l u p t z f short free = stream (s.regs.x a0) refl l u
  where
    room : ltb (s.regs.x a2) s.machine.stack_room ≡ true
    room = ground arith

    text :
        (console : List ℕ)
        → printk_text fuel s.machine.mem (s.regs.x a1) console ≡ ok (console ++ cs, length cs)
    text console = printk_text-IsPlain fuel s.machine.mem (s.regs.x a1) cs console p t z f short

    shows : ℕ → List ℕ → Call
    shows fd out = finished s fd (record s.machine { console = out }, file_init fd, length cs)

    stays : (fd : ℕ) (out : List ℕ) (i : ℕ) → (shows fd out).files i ≡ s.files i
    stays fd out i = rw e (update_known file_init fd i)

    Shows : ℕ → Type 0
    Shows fd =
        (s' : Call) × (sys_write fuel s ≡ ok s')
        × (s'.regs.x a0 ≡ length cs)
        × (s'.machine ≡ record s.machine { console = shown fd s.machine.console cs })
        × ((i : ℕ) → s'.files i ≡ s.files i)

    stream : (fd : ℕ) → s.regs.x a0 ≡ fd → 0 < fd → fd < 3 → Shows fd
    stream zero d l u = absurd (omega arith)
    stream (suc zero) d l u =
        let out = s.machine.console ++ cs in
        (
          shows 1 out,
          rw (h, d, e, room, text s.machine.console) refl,
          update_self s.regs.x a0 (length cs),
          refl,
          stays 1 out,
        )
    stream (suc (suc zero)) d l u =
        let out = ((s.machine.console ++ red) ++ cs) ++ clear in
        (
          shows 2 out,
          rw (h, d, e, room, text (s.machine.console ++ red)) refl,
          update_self s.regs.x a0 (length cs),
          refl,
          stays 2 out,
        )
    stream (suc (suc (suc n))) d l u = absurd (omega arith)
