-- ===== src/Format/Plain.antt =====
-- A format without conversions.
use mathlib.Core.List.{append_assoc, append-nil}
use tiny_riscv_os.Prelude.{
  ℕ, zero, suc, ◌+◌, ◌<◌, ◌≡◌, ◌≢◌, refl, sym, ap, ◌∙◌, true, false, List, [], ◌∷◌, ◌++◌, ◌==◌,
  length, ltb, ◌^◌, arith,
}
use tiny_riscv_os.Bytes.{Bytes}
use tiny_riscv_os.Printer.{ok}
use tiny_riscv_os.Printer.Digits.{Holds}
use tiny_riscv_os.Format.{Fmt, format_char, put_char, vprintfmt_loop, start_fmt, vprintfmt}

-- No zero byte and no percent sign.
abbrev pub IsPlain : List ℕ → Type 0
IsPlain [] = Unit {0}
IsPlain (c ∷ cs) = (c ≢ 0) × (c ≢ b'%') × IsPlain cs

-- What the loop makes of plain text.
abbrev passed : Fmt → List ℕ → Fmt
passed s cs = record s {
  fmt = s.fmt + length cs;
  out = s.out ++ cs;
  written = s.written + length cs;
}

put_step :
    (s : Fmt) (c fuel : ℕ)
    → c ≢ 0
    → c ≢ b'%'
    → s.mem s.fmt ≡ c
    → s.flags.in_format ≡ false
    → vprintfmt_loop (suc fuel) s ≡ vprintfmt_loop fuel (record (put_char s c) { fmt = s.fmt + 1 })
unfolding vprintfmt_loop format_char
put_step s c fuel nz np e f = ground arith

passed_all :
    (cs : List ℕ) (fuel : ℕ) (s : Fmt)
    → IsPlain cs
    → Holds s.mem s.fmt cs
    → s.mem (s.fmt + length cs) ≡ 0
    → s.flags.in_format ≡ false
    → length cs < fuel
    → vprintfmt_loop fuel s ≡ ok (passed s cs)
unfolding vprintfmt_loop format_char
passed_all cs zero s p h z f l = absurd (omega arith)
passed_all [] (suc fuel) s p h z f l =
    let here : s.fmt + 0 ≡ s.fmt = omega arith in
    let end : s.mem s.fmt ≡ 0 = ap s.mem (sym here) ∙ z in
    let done : (s.mem s.fmt == 0) ≡ true = ground arith in
    rw done (ap ok (ground (arith, append-nil s.out)))
passed_all (c ∷ cs) (suc fuel) s (nz, np, p) (e, h) z f l =
    let next : s.fmt + 1 + length cs ≡ s.fmt + suc (length cs) = omega arith in
    put_step s c fuel nz np e f
    ∙ passed_all cs fuel (record (put_char s c) { fmt = s.fmt + 1 }) p h (ap s.mem next ∙ z) f
        (omega arith)
    ∙ ap ok (ground (arith, append_assoc s.out (c ∷ []) cs))

-- A format without conversions is put as it stands: vprintfmt ends, and returns its length.
pub vprintfmt-IsPlain :
    (mem : Bytes) (fmt : ℕ) (cs vl : List ℕ) (fuel : ℕ)
    → IsPlain cs
    → Holds mem fmt cs
    → mem (fmt + length cs) ≡ 0
    → length cs < fuel
    → length cs < 2 ^ 31
    → vprintfmt mem fmt vl fuel ≡ ok (record { text = cs; written = length cs })
unfolding vprintfmt
vprintfmt-IsPlain mem fmt cs vl fuel p h z l short =
    let nothing : 0 + length cs ≡ length cs = omega arith in
    let test : ltb (length cs) (2 ^ 31) ≡ true = ground arith in
    rw (passed_all cs fuel (start_fmt mem fmt vl) p h z refl l, nothing, test) refl
