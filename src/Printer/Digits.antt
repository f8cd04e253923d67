-- ===== src/Printer/Digits.antt =====
-- The digits that print_dec_int of lib/printk.c stores, and strtol on them.
use native.Mathlib.Nat.{pow-suc}
use mathlib.Core.List.{append_assoc}
use tiny_riscv_os.Prelude.{
  ℕ, zero, suc, ◌+◌, ◌-◌, ◌*◌, ◌/◌, ◌%◌, ◌^◌, ◌≤◌, ◌<◌, ◌≡◌, inl, inr, refl, sym, ap, subst, ◌∙◌,
  some, List, [], ◌∷◌, ◌++◌, ◌==◌, if◌then◌else◌, length, Bool-cases, ==_iff, arith,
}
use tiny_riscv_os.Buddy.{word}
use tiny_riscv_os.Bytes.{Bytes}
use tiny_riscv_os.Printk.{digit_of, read_digits}
use tiny_riscv_os.Printk.Number.{IsStop, read_digits-stop, read_digits-step, carry}
use tiny_riscv_os.Printer.{dec_digits}

-- Every character is a decimal digit.
abbrev pub AreDigits : List ℕ → Type 0
AreDigits [] = Unit {0}
AreDigits (c ∷ cs) = (48 ≤ c) × (c ≤ 57) × AreDigits cs

-- The number that digits stand for after the digits of acc.
unfoldable pub value_from : ℕ → List ℕ → ℕ
value_from acc [] = acc
value_from acc (c ∷ cs) = value_from (acc * 10 + (c - 48)) cs

-- The decimal text of a number of at most n digits.
unfoldable pub decimal : ℕ → ℕ → List ℕ
decimal zero num = []
decimal (suc n) num =
    let rest = decimal n (num / 10) in
    if num / 10 == 0 then (num + 48) ∷ [] else rest ++ (num % 10 + 48) ∷ []

-- What the loop leaves in buf: the digits of num before those that were there.
pub record Digits (num room : ℕ) (buf ds : List ℕ) : Type 0 where
  pub digits : AreDigits ds
  pub text : ds ≡ decimal room num ++ buf
  pub value : value_from 0 ds ≡ value_from num buf
  pub size : (length buf < length ds) × (length ds ≤ length buf + room)

-- The places suffice for a number below 10^room.
pub dec_digits-Digits :
    (room num : ℕ) (buf : List ℕ)
    → 0 < room
    → num < 10 ^ room
    → AreDigits buf
    → (ds : List ℕ) × (dec_digits room num buf ≡ some ds) × Digits num room buf ds
unfolding dec_digits value_from decimal
dec_digits-Digits zero num buf r l d = absurd (omega arith)
dec_digits-Digits (suc room) num buf r l d =
    let c = num % 10 + 48 in
    let step : (num / 10) * 10 + (c - 48) ≡ num = omega arith in
    elim (Bool-cases (num / 10 == 0)) [
      | inl last ↦
          let small : 0 * 10 + (c - 48) ≡ num = omega (arith, (==_iff (num / 10) 0).0 last) in
          (
            c ∷ buf,
            rw last refl,
            record {
              digits = (omega arith, omega arith, d);
              text = rw last (ap (λ (q : ℕ). q ∷ buf) (omega (arith, small)));
              value = ap (λ n. value_from n buf) small;
              size = (omega arith, omega arith);
            },
          )
      | inr more ↦
          let nonzero : 0 < num / 10 = ground arith in
          let enough : 0 < room = room_left room num l nonzero in
          let (ds, e, D) =
            dec_digits-Digits room (num / 10) (c ∷ buf) enough (omega (arith, pow-suc 10 room))
              (omega arith, omega arith, d) in
          (
            ds,
            rw more e,
            record {
              digits = D.digits;
              text = D.text ∙ rw more (sym (append_assoc (decimal room (num / 10)) (c ∷ []) buf));
              value = D.value ∙ ap (λ n. value_from n buf) step;
              size = (omega (arith, D.size.0), omega (arith, D.size.1));
            },
          )
    ]
  where
    room_left : (room num : ℕ) → num < 10 ^ suc room → 0 < num / 10 → 0 < room
    room_left zero num l p = omega arith
    room_left (suc room) num l p = omega arith

-- The text stands at an address.
abbrev pub Holds : Bytes → ℕ → List ℕ → Type 0
Holds m a [] = Unit {0}
Holds m a (c ∷ cs) = (m a ≡ c) × Holds m (a + 1) cs

-- The loop of strtol on digits.
pub read_digits-AreDigits :
    (ds : List ℕ) (fuel acc : ℕ) (m : Bytes) (p : ℕ)
    → AreDigits ds
    → Holds m p ds
    → IsStop 10 (m (p + length ds))
    → length ds < fuel
    → read_digits m 10 p (acc % word) fuel ≡ some (value_from acc ds % word, p + length ds)
unfolding value_from digit_of
read_digits-AreDigits ds zero acc m p d h s l = absurd (omega arith)
read_digits-AreDigits [] (suc fuel) acc m p d h s l =
    let here : p + 0 ≡ p = omega arith in
    read_digits-stop m 10 p (acc % word) fuel (subst (λ q. IsStop 10 (m q)) here s)
    ∙ ap (λ q. some (acc % word, q)) (sym here)
read_digits-AreDigits (c ∷ ds) (suc fuel) acc m p (lo, hi, d) (e, h) s l =
    let next : p + suc (length ds) ≡ p + 1 + length ds = omega arith in
    read_digits-step m 10 p (acc % word) fuel (c - 48) (ap digit_of e ∙ digit_of-digit c lo hi)
      (omega arith)
    ∙ ap (λ r. read_digits m 10 (p + 1) r fuel) (carry 10 acc (c - 48))
    ∙ read_digits-AreDigits ds fuel (acc * 10 + (c - 48)) m (p + 1) d h
        (subst (λ q. IsStop 10 (m q)) next s) (omega arith)
    ∙ ap (λ q. some (value_from (acc * 10 + (c - 48)) ds % word, q)) (sym next)
  where
    digit_of-digit : (c : ℕ) → 48 ≤ c → c ≤ 57 → digit_of c ≡ some (c - 48)
    digit_of-digit c lo hi = ground arith
