-- ===== src/Shell/Editing.antt =====
-- user/main.c: the input of a line in main.
use tiny_riscv_os.Prelude.{
  ℕ, suc, ◌+◌, ◌-◌, ◌≤◌, ◌<◌, ◌≡◌, ◌≢◌, refl, ap, ◌∙◌, ◌⊎◌, inl, inr, List, [], ◌∷◌, true, false,
  ltb, ◌==◌, if◌then◌else◌, update, update_self, update_ne, length, ℕ_discrete, arith,
}
use tiny_riscv_os.Result.{ok}
use tiny_riscv_os.Bytes.{Bytes}
use tiny_riscv_os.Shell.{System}
use tiny_riscv_os.Shell.Commands.{Layout, State, write_text}
use tiny_riscv_os.Shell.Lines.{carriage_return, delete, line_size, type_key, type_keys}

-- What one key other than return makes of a line, the last character first.
abbrev pub edit_key : List ℕ → ℕ → List ℕ
edit_key [] key = if key == delete then [] else key ∷ []
edit_key (c ∷ line) key = if key == delete then line else key ∷ c ∷ line

-- The line that keys leave.
abbrev pub edited : List ℕ → List ℕ → List ℕ
edited line [] = line
edited line (key ∷ keys) = edited (edit_key line key) keys

abbrev pub HasNoReturn : List ℕ → Type 0
HasNoReturn [] = Unit
HasNoReturn (key ∷ keys) = (key ≢ carriage_return) × HasNoReturn keys

-- The line stands in memory from a on.
abbrev pub Holds : Bytes → ℕ → List ℕ → Type 0
Holds m a [] = Unit
Holds m a (c ∷ line) = (m (a + length line) ≡ c) × Holds m a line

Holds-update :
    (m : Bytes) (a i v : ℕ) (line : List ℕ)
    → length line ≤ i
    → Holds m a line
    → Holds (update m (a + i) v) a line
Holds-update m a i v [] l h = tt
Holds-update m a i v (c ∷ line) l (here, h) = (
  update_ne m (a + i) v (a + length line) (λ e. omega (arith, e, l)) ∙ here,
  Holds-update m a i v line (omega (arith, l)) h,
)

edit_key-length : (line : List ℕ) (key : ℕ) → length (edit_key line key) ≤ length line + 1
edit_key-length [] key = elim (ℕ_discrete key delete) [
  | yes d ↦ ground (arith, d)
  | no d ↦ ground (arith, d)
]
edit_key-length (c ∷ line) key = elim (ℕ_discrete key delete) [
  | yes d ↦ ground (arith, d)
  | no d ↦ ground (arith, d)
]

edit_key-keep : (line : List ℕ) (key : ℕ) → (key == delete) ≡ false → edit_key line key ≡ key ∷ line
edit_key-keep [] key t = rw t refl
edit_key-keep (c ∷ line) key t = rw t refl

-- Outside the n bytes from b on.
abbrev pub IsOutside : ℕ → ℕ → ℕ → Type 0
IsOutside b n a = (a < b) ⊎ (b + n ≤ a)

IsOutside-less : (b m n a : ℕ) → m ≤ n → IsOutside b n a → IsOutside b m a
IsOutside-less b m n a l (inl u) = inl u
IsOutside-less b m n a l (inr u) = inr (omega arith)

IsOutside-ne : (b n i a : ℕ) → i < n → IsOutside b n a → b + i ≢ a
IsOutside-ne b n i a l (inl u) q = omega arith
IsOutside-ne b n i a l (inr u) q = omega arith

module _ {W : Type 0} (fuel : ℕ) (sys : System W) (y : Layout) (last_char : ℕ)
    (works : (w : W) (fd : ℕ) (text : List ℕ) → (w' : W) × (sys.write w fd text ≡ ok w')) where
  type_key-delete :
      (line : List ℕ) (s : State W)
      → Holds s.mem y.line_buf line
      → (s' : State W) × (type_key fuel sys y s (length line) delete last_char
          ≡ ok (s', length (edit_key line delete)))
        × Holds s'.mem y.line_buf (edit_key line delete)
        × (s'.mem ≡ s.mem)
  unfolding type_key write_text
  type_key-delete [] s h = (s, refl, tt, refl)
  type_key-delete (c ∷ line) s (here, h) =
      let (w, e) = works s.world 1 (8 ∷ 32 ∷ 8 ∷ []) in
      let some_left : ltb 0 (suc (length line)) ≡ true = ground arith in
      let count : suc (length line) - 1 ≡ length line = omega arith in
      (record s { world = w }, rw (some_left, e, count) refl, h, refl)

  type_key-edited :
      (line : List ℕ) (s : State W) (key : ℕ)
      → key ≢ carriage_return
      → length line < line_size
      → Holds s.mem y.line_buf line
      → (s' : State W) × (type_key fuel sys y s (length line) key last_char
          ≡ ok (s', length (edit_key line key)))
        × Holds s'.mem y.line_buf (edit_key line key)
        × ((a : ℕ) → IsOutside y.line_buf (length line + 1) a → s'.mem a ≡ s.mem a)
  unfolding type_key write_text
  type_key-edited line s key r fits h = elim (ℕ_discrete key delete) [
    | yes d ↦
        let (s', e, held, same) = type_key-delete line s h in
        rw d (s', e, held, λ a o. ap (λ (m : Bytes). m a) same)
    | no d ↦
        let (w, e) = works s.world 1 (key ∷ []) in
        let i = length line in
        let test : (key == carriage_return) ≡ false = ground (arith, r) in
        let test' : (key == delete) ≡ false = ground (arith, d) in
        let free : ltb i line_size ≡ true = ground (arith, fits) in
        let longer = edit_key-keep line key test' in
        let count : i + 1 ≡ suc i = omega arith in
        (
          record { mem = update s.mem (y.line_buf + i) key; world = w },
          rw (test, test', e, free, longer, count) refl,
          rw longer (
            update_self s.mem (y.line_buf + i) key,
            Holds-update s.mem y.line_buf i key line (omega arith) h,
          ),
          λ a o.
              update_ne s.mem (y.line_buf + i) key a
                (λ q. IsOutside-ne y.line_buf (i + 1) i a (omega arith) o q),
        )
  ]

  -- Where every write succeeds, and the 128 characters of line_buf have room for the line and the
  -- keys, the keys other than return are taken one after the other: line_buf then holds the line that
  -- is left when each delete has taken back the character before it, the count of main is the length
  -- of this line, and memory has changed only where as many characters as there were before and keys
  -- now have room.
  pub type_keys-edited :
      (keys line : List ℕ) (s : State W)
      → HasNoReturn keys
      → length line + length keys ≤ line_size
      → Holds s.mem y.line_buf line
      → (s' : State W) × (type_keys fuel sys y s (length line) last_char keys
          ≡ ok (s', length (edited line keys)))
        × Holds s'.mem y.line_buf (edited line keys)
        × ((a : ℕ) → IsOutside y.line_buf (length line + length keys) a → s'.mem a ≡ s.mem a)
  unfolding type_keys
  type_keys-edited [] line s n fits h = (s, refl, h, λ a o. refl)
  type_keys-edited (key ∷ keys) line s (r, n) fits h =
      let room = edit_key-length line key in
      let (s1, e1, h1, o1) = type_key-edited line s key r (omega (arith, fits)) h in
      let (s2, e2, h2, o2) =
        type_keys-edited keys (edit_key line key) s1 n (omega (arith, room, fits)) h1 in
      let all = length line + suc (length keys) in
      (
        s2,
        rw (e1, e2) refl,
        h2,
        λ a o.
            o2 a (
              IsOutside-less y.line_buf (length (edit_key line key) + length keys) all a
                (omega (arith, room)) o)
            ∙ o1 a (IsOutside-less y.line_buf (length line + 1) all a (omega arith) o),
      )
