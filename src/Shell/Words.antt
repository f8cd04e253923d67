-- ===== src/Shell/Words.antt =====
-- user/main.c: get_param, get_string and atoi on texts that end.
use tiny_riscv_os.Prelude.{
  ℕ, zero, suc, ◌+◌, ◌-◌, ◌%◌, ◌^◌, ◌≤◌, ◌<◌, ◌≡◌, ◌≢◌, refl, ap, fun_ext, sym, subst, ◌∙◌, ◌⊎◌,
  inl, inr, Bool, true, false, some, ◌==◌, update, update_ne, arith,
}
use tiny_riscv_os.Result.{ok, ◌>>=◌}
use tiny_riscv_os.Bytes.{Bytes, memcpy_loop, memcpy}
use tiny_riscv_os.Bytes.Copy.{overwritten, memcpy_lem}
use tiny_riscv_os.Bytes.Compare.{strlen_lem}
use tiny_riscv_os.Printk.Number.{numeral}
use tiny_riscv_os.Shell.{
  strlen, add_digit, atoi_loop, atoi, skip_blanks, copy_until, ends_word, is_quote, get_param,
  get_string,
}

-- n + 1 bytes from each of the two addresses on do not overlap.
abbrev pub AreApart : ℕ → ℕ → ℕ → Type 0
AreApart a b n = (a + n < b) ⊎ (b + n < a)

apart_ne : (a b n i j : ℕ) → AreApart a b n → i ≤ n → j ≤ n → a + i ≢ b + j
apart_ne a b n i j (inl l) u v e = omega arith
apart_ne a b n i j (inr l) u v e = omega arith

pub skip_blanks-first :
    (fuel k : ℕ) (m : Bytes) (p : ℕ)
    → ((j : ℕ) → j < k → m (p + j) ≡ b' ')
    → m (p + k) ≢ b' '
    → k < fuel
    → skip_blanks fuel m p ≡ ok (p + k)
unfolding skip_blanks
skip_blanks-first zero k m p blank stop l = absurd (omega arith)
skip_blanks-first (suc fuel) zero m p blank stop l =
    let e : p + 0 ≡ p = omega arith in
    let here : m p ≢ b' ' = subst (λ (a : ℕ). m a ≢ b' ') e stop in
    let test : (m p == b' ') ≡ false = ground arith in rw test (ap (λ (a : ℕ). ok a) (sym e))
skip_blanks-first (suc fuel) (suc k) m p blank stop l =
    let here : m p ≡ b' ' = ap m (omega arith) ∙ blank 0 (omega arith) in
    let test : (m p == b' ') ≡ true = ground arith in
    let e : p + suc k ≡ p + 1 + k = omega arith in
    let rest =
      skip_blanks-first fuel k m (p + 1) (λ j h. ap m (omega arith) ∙ blank (suc j) (omega arith))
        (subst (λ (a : ℕ). m a ≢ b' ') e stop) (omega arith) in
    rw (test, rest, e) refl

-- A copy from s to d, from the i-th byte on, stops at the t-th byte after s.
copy_until-first :
    (stops : ℕ → Bool) (fuel n i t : ℕ) (m : Bytes) (d s : ℕ)
    → AreApart d s t
    → i + n ≡ t
    → ((j : ℕ) → i ≤ j → j < t → stops (m (s + j)) ≡ false)
    → stops (m (s + t)) ≡ true
    → n < fuel
    → copy_until stops fuel m d (s + i) i ≡ ok (memcpy_loop m d s i n, t)
unfolding copy_until memcpy_loop
copy_until-first stops zero n i t m d s apart e goes stop l = absurd (omega arith)
copy_until-first stops (suc fuel) zero i t m d s apart e goes stop l =
    let here : i ≡ t = omega arith in rw (here, stop) refl
copy_until-first stops (suc fuel) (suc n) i t m d s apart e goes stop l =
    let m1 = update m (d + i) (m (s + i)) in
    let same : (j : ℕ) → j ≤ t → m1 (s + j) ≡ m (s + j) =
      λ j h. update_ne m (d + i) (m (s + i)) (s + j) (apart_ne d s t i j apart (omega arith) h) in
    let rest =
      copy_until-first stops fuel n (i + 1) t m1 d s apart (omega arith)
        (λ j h k. ap stops (same j (omega arith)) ∙ goes j (omega arith) k)
        (ap stops (same t (omega arith)) ∙ stop) (omega arith) in
    let next : s + i + 1 ≡ s + (i + 1) = omega arith in
    rw (goes i (omega arith) (omega arith), next, rest) refl

-- Memory after n characters from p on have been copied to buf, with a zero byte behind them.
abbrev pub copied : Bytes → ℕ → ℕ → ℕ → Bytes
copied m buf p n = update (overwritten m buf n (λ j. m (p + j))) (buf + n) 0

copy_until-copied :
    (stops : ℕ → Bool) (fuel n : ℕ) (m : Bytes) (d s : ℕ)
    → AreApart d s n
    → ((j : ℕ) → j < n → stops (m (s + j)) ≡ false)
    → stops (m (s + n)) ≡ true
    → n < fuel
    → (copy_until stops fuel m d s 0 >>= λ (m', pos). ok (update m' (d + pos) 0))
      ≡ ok (copied m d s n)
copy_until-copied stops fuel n m d s apart goes stop l =
    let start : s + 0 ≡ s = omega arith in
    let run : copy_until stops fuel m d s 0 ≡ ok (memcpy m d s n, n) =
      subst (λ (p : ℕ). copy_until stops fuel m d p 0 ≡ ok (memcpy m d s n, n)) start
        (unfold memcpy in
          copy_until-first stops fuel n 0 n m d s apart (omega arith) (λ j h. goes j) stop l) in
    let same : memcpy m d s n ≡ overwritten m d n (λ j. m (s + j)) =
      fun_ext (memcpy_lem m d s n (ground arith)) in
    rw (run, same) refl

-- Blanks from p on, and then a word of n characters.
pub record Word (m : Bytes) (p k n : ℕ) : Type 0 where
  pub blanks : (j : ℕ) → j < k → m (p + j) ≡ b' '
  pub first : m (p + k) ≢ b' '
  pub letters : (j : ℕ) → j < n → ends_word (m (p + k + j)) ≡ false
  pub end : ends_word (m (p + k + n)) ≡ true

-- get_param copies the word behind the blanks to string_buf, closes it with a zero byte, and changes no
-- other byte, if string_buf lies apart from the word.
pub get_param_lem :
    (fuel : ℕ) (m : Bytes) (string_buf p k n : ℕ)
    → Word m p k n
    → AreApart string_buf (p + k) n
    → k + n < fuel
    → get_param fuel m string_buf p ≡ ok (copied m string_buf (p + k) n)
unfolding get_param
get_param_lem fuel m string_buf p k n w apart l =
    rw (skip_blanks-first fuel k m p w.blanks w.first (omega arith))
      (copy_until-copied ends_word fuel n m string_buf (p + k) apart w.letters w.end (omega arith))

-- Blanks from p on, and then n characters between quotes.
pub record Quoted (m : Bytes) (p k n : ℕ) : Type 0 where
  pub blanks : (j : ℕ) → j < k → m (p + j) ≡ b' '
  pub opens : m (p + k) ≡ b'"'
  pub letters : (j : ℕ) → j < n → is_quote (m (p + k + 1 + j)) ≡ false
  pub nonzero : (j : ℕ) → j < n → m (p + k + 1 + j) ≢ 0
  pub closes : is_quote (m (p + k + 1 + n)) ≡ true

-- A word, or a text between quotes, of n characters from `start` on.
abbrev pub Spoken : Bytes → ℕ → ℕ → ℕ → ℕ → Type 0
Spoken m p k n start =
    (Word m p k n × (m (p + k) ≢ b'"') × (start ≡ p + k)) ⊎ (Quoted m p k n × (start ≡ p + k + 1))

pub get_string_lem :
    (fuel : ℕ) (m : Bytes) (string_buf p k n start : ℕ)
    → Spoken m p k n start
    → AreApart string_buf start n
    → k + n < fuel
    → get_string fuel m string_buf p ≡ ok (copied m string_buf start n)
unfolding get_string get_param
get_string_lem fuel m string_buf p k n start (inl (w, plain, e)) apart l =
    let test : is_quote (m (p + k)) ≡ false = ground (arith, plain) in
    let zero_blanks : skip_blanks fuel m (p + k) ≡ ok (p + k) =
      let e0 : p + k + 0 ≡ p + k = omega arith in
      skip_blanks-first fuel 0 m (p + k) (λ j h. absurd (omega arith)) (rw e0 w.first) (omega arith)
      ∙ ap (λ (a : ℕ). ok a) e0 in
    rw (skip_blanks-first fuel k m p w.blanks w.first (omega arith), test, zero_blanks, e)
      (copy_until-copied ends_word fuel n m string_buf (p + k) (rw (sym e) apart) w.letters w.end
        (omega arith))
get_string_lem fuel m string_buf p k n start (inr (q, e)) apart l =
    let test : is_quote (m (p + k)) ≡ true = let o = q.opens in ground (arith, o) in
    let first : m (p + k) ≢ b' ' = λ b. let o = q.opens in omega (arith, o, b) in
    rw (skip_blanks-first fuel k m p q.blanks first (omega arith), test, e)
      (copy_until-copied is_quote fuel n m string_buf (p + k + 1) (rw (sym e) apart) q.letters
        q.closes (omega arith))

pub Spoken-nonzero :
    (m : Bytes) (p k n start : ℕ) → Spoken m p k n start → (j : ℕ) → j < n → m (start + j) ≢ 0
Spoken-nonzero m p k n start (inl (w, plain, e)) j l z =
    let letter = w.letters j l in
    let at : m (p + k + j) ≡ 0 = rw (sym e) z in ground (arith, letter, at)
Spoken-nonzero m p k n start (inr (q, e)) j l z = q.nonzero j l (rw (sym e) z)

-- The copy is a string of n characters.
pub strlen-copied :
    (fuel : ℕ) (m : Bytes) (buf start n : ℕ)
    → ((j : ℕ) → j < n → m (start + j) ≢ 0)
    → n < fuel
    → strlen (copied m buf start n) buf fuel ≡ some n
strlen-copied fuel m buf start n letters l =
    strlen_lem (copied m buf start n) buf n fuel
      (λ j h z.
        let index : buf + j - buf ≡ j = omega arith in
        let value : copied m buf start n (buf + j) ≡ m (start + j) =
          ground (arith, ap (λ (i : ℕ). m (start + i)) index) in
        letters j h (sym value ∙ z))
      (ground arith) l

-- The value of the first i of the digits v.
atoi_loop-numeral :
    (n i : ℕ) (m : Bytes) (str : ℕ) (v : ℕ → ℕ)
    → ((j : ℕ) → j < i + n → m (str + j) ≡ v j + b'0')
    → atoi_loop n m str i (numeral 10 v i % 2 ^ 32) ≡ numeral 10 v (i + n) % 2 ^ 32
unfolding atoi_loop
atoi_loop-numeral zero i m str v d = let e : i + 0 ≡ i = omega arith in rw e refl
atoi_loop-numeral (suc n) i m str v d =
    let digit = d i (omega arith) in
    let step : add_digit (numeral 10 v i % 2 ^ 32) (m (str + i)) ≡ numeral 10 v (suc i) % 2 ^ 32 =
      unfold numeral in omega (arith, digit) in
    let e : i + suc n ≡ suc i + n = omega arith in
    let one : i + 1 ≡ suc i = omega arith in
    rw (step, e, one) (atoi_loop-numeral n (suc i) m str v (λ j h. d j (omega arith)))

-- On a string of k characters, the digits v, atoi ends and returns their number in base 10, modulo
-- 2^32.
pub atoi-numeral :
    (fuel : ℕ) (m : Bytes) (str k : ℕ) (v : ℕ → ℕ)
    → ((j : ℕ) → j < k → m (str + j) ≡ v j + b'0')
    → m (str + k) ≡ 0
    → k < fuel
    → atoi fuel m str ≡ ok (numeral 10 v k % 2 ^ 32)
unfolding atoi numeral
atoi-numeral fuel m str k v d z l =
    let len : strlen m str fuel ≡ some k =
      strlen_lem m str k fuel (λ j h e. omega (arith, d j h, e)) z l in
    let total : 0 + k ≡ k = omega arith in
    rw len (
      ap (λ (r : ℕ). ok r)
        (atoi_loop-numeral k 0 m str v (λ j h. d j (omega arith)) ∙ rw total refl))
