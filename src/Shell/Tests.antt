-- ===== src/Shell/Tests.antt =====
-- user/main.c on a system that keeps a list of what is written.
use tiny_riscv_os.Prelude.{
  ℕ, ◌+◌, ◌-◌, ◌%◌, ◌^◌, ◌<◌, ◌≡◌, refl, inl, inr, List, [], ◌∷◌, ◌++◌, ◌==◌, if◌then◌else◌, some,
  arith,
}
use tiny_riscv_os.Result.{ok, stuck}
use tiny_riscv_os.Bytes.{Bytes}
use tiny_riscv_os.Printk.Number.{numeral}
use tiny_riscv_os.Shell.{System, atoi}
use tiny_riscv_os.Shell.Commands.{Layout, State, parse_cmd}
use tiny_riscv_os.Shell.Lines.{type_keys}
use tiny_riscv_os.Shell.Edit.{IsEditLine, AreSeparate, edit_file, parse_cmd-edit}
use tiny_riscv_os.Shell.Words.{copied, Word, Quoted}
use tiny_riscv_os.Shell.Atoi.{digits_at, atoi-strtol}
use tiny_riscv_os.Printf.{strtol}
use tiny_riscv_os.Shell.Echo.{parse_cmd-echo}
use tiny_riscv_os.Shell.Editing.{Holds, IsOutside, type_keys-edited}

abbrev World : Type 0
World = List (ℕ × List ℕ)

abbrev recorder : System World
recorder = record {
  write = λ w fd text. ok (w ++ (fd, text) ∷ []);
  read = λ w fd m buf count. stuck;
  openat = λ w m path flags. ok (w, 2 ^ 32 - 1);
  lseek = λ w fd offset whence. ok w;
  close = λ w fd. ok w;
}

abbrev layout : Layout
layout = record {
  string_buf = 5000;
  cat_buf = 8000;
  filename = 9000;
  offset = 9100;
  content = 9200;
  line_buf = 1000;
  prompt = 100;
  not_found = 200;
  not_open = 300;
  dollar = 400;
}

abbrev text_at : ℕ → List ℕ → Bytes
text_at a [] x = 0
text_at a (c ∷ cs) x = if x == a then c else text_at (a + 1) cs x

-- echo  "hi"
abbrev line : Bytes
line = text_at 1000 (b'e' ∷ b'c' ∷ b'h' ∷ b'o' ∷ b' ' ∷ b' ' ∷ b'"' ∷ b'h' ∷ b'i' ∷ b'"' ∷ [])

quoted : Quoted line 1004 2 2
quoted = record {
  blanks = λ j l. ground arith;
  opens = refl;
  letters = λ j l. ground arith;
  nonzero = λ j l. ground arith;
  closes = refl;
}

parse_cmd-echo_example :
    parse_cmd 9 recorder layout (record { mem = line; world = [] }) 1000 0
    ≡ ok (record {
      mem = copied line 5000 1007 2;
      world = (1, b'h' ∷ b'i' ∷ []) ∷ (1, 10 ∷ []) ∷ [];
    })
parse_cmd-echo_example =
    parse_cmd-echo 9 recorder layout (record { mem = line; world = [] }) 1000 0 2 2 1007 refl refl
      refl refl (inr (quoted, refl)) (inr (omega arith)) (omega arith)

recorder_works :
    (w : World) (fd : ℕ) (text : List ℕ) → (w' : World) × (recorder.write w fd text ≡ ok w')
recorder_works w fd text = (w ++ (fd, text) ∷ [], refl)

-- The keys l, d, delete, s.
abbrev keys : List ℕ
keys = b'l' ∷ b'd' ∷ 0x7f ∷ b's' ∷ []

type_keys-edited_example :
    (s' : State World) × (type_keys 9 recorder layout (record { mem = λ a. 0; world = [] }) 0 0 keys
      ≡ ok (s', 2))
    × Holds s'.mem 1000 (b's' ∷ b'l' ∷ [])
    × ((a : ℕ) → IsOutside 1000 4 a → s'.mem a ≡ 0)
type_keys-edited_example =
    type_keys-edited 9 recorder layout 0 recorder_works keys []
      (record { mem = λ a. 0; world = [] }) (omega arith) (omega arith) tt

-- 42
abbrev number : Bytes
number = text_at 70 (b'4' ∷ b'2' ∷ [])

number_small : numeral 10 (digits_at number 70) 2 < 2 ^ 31
unfolding numeral
number_small = omega arith

atoi-strtol_example : (n : ℕ) × (atoi 9 number 70 ≡ ok n) × (strtol number 70 10 9 ≡ some (n, 72))
atoi-strtol_example =
    atoi-strtol 9 number 70 2 (λ j l. ground arith) refl (omega arith) number_small

-- edit a 42 "z"
abbrev edit_line : Bytes
edit_line =
    text_at 1000 (
      b'e' ∷ b'd' ∷ b'i' ∷ b't' ∷ b' ' ∷ b'a' ∷ b' ' ∷ b'4' ∷ b'2' ∷ b' ' ∷ b'"' ∷ b'z' ∷ b'"' ∷ [])

abbrev forty_two : ℕ → ℕ
forty_two j = if j == 0 then 4 else 2

text_z : Quoted edit_line 1010 0 1
text_z = record {
  blanks = λ j l. absurd (omega arith);
  opens = refl;
  letters = λ j l. ground arith;
  nonzero = λ j l. ground arith;
  closes = refl;
}

name_a : Word edit_line 1004 1 1
name_a = record {
  blanks = λ j l. ground arith;
  first = omega arith;
  letters = λ j l. ground arith;
  end = refl;
}

number_42 : Word edit_line 1006 1 2
number_42 = record {
  blanks = λ j l. ground arith;
  first = omega arith;
  letters = λ j l. ground arith;
  end = refl;
}

edit_line-IsEditLine : IsEditLine edit_line 1000 12 1 1 1 2 1 1 1011 forty_two
edit_line-IsEditLine = record {
  c0 = refl;
  c1 = refl;
  c2 = refl;
  c3 = refl;
  name = name_a;
  number = number_42;
  digits = λ j l. ground arith;
  blanks = λ j l. ground arith;
  text_first = omega arith;
  text = inr (text_z, refl);
  ends = omega arith;
}

layout-AreSeparate : AreSeparate layout 1000 12
layout-AreSeparate = record {
  buf_line = inr (omega arith);
  filename_line = inr (omega arith);
  offset_line = inr (omega arith);
  filename_buf = inr (omega arith);
  offset_buf = inr (omega arith);
  content_buf = inr (omega arith);
  buf_filename = inl (omega arith);
  buf_offset = inl (omega arith);
  offset_filename = inr (omega arith);
  content_filename = inr (omega arith);
  content_offset = inr (omega arith);
}

parse_cmd-edit_example :
    (m : Bytes) × ((j : ℕ) → j < 1 → m (9000 + j) ≡ edit_line (1005 + j))
    × (m (9000 + 1) ≡ 0)
    × (parse_cmd 20 recorder layout (record { mem = edit_line; world = [] }) 1000 0
        ≡ edit_file recorder [] m 9000 (numeral 10 forty_two 2 % 2 ^ 32) (b'z' ∷ []))
parse_cmd-edit_example =
    parse_cmd-edit 20 recorder layout (record { mem = edit_line; world = [] }) 1000 0 12 1 1 1 2 1 1
      1011 forty_two edit_line-IsEditLine layout-AreSeparate (omega arith)
