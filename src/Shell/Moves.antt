-- ===== src/Shell/Moves.antt =====
-- user/main.c: the words that the command edit takes from its line, one after the other.
use tiny_riscv_os.Prelude.{
  ℕ, ◌+◌, ◌-◌, ◌≤◌, ◌<◌, ◌≡◌, ap, fun_ext, sym, subst, ◌∙◌, ◌⊎◌, inl, inr, some, update, arith,
}
use tiny_riscv_os.Result.{ok}
use tiny_riscv_os.Bytes.{Bytes, memcpy}
use tiny_riscv_os.Bytes.Copy.{overwritten, memcpy_lem}
use tiny_riscv_os.Shell.{strlen, ends_word, is_quote, skip_blanks, get_param}
use tiny_riscv_os.Shell.Commands.{copy_string}
use tiny_riscv_os.Shell.Words.{
  AreApart, copied, Word, Quoted, Spoken, skip_blanks-first, get_param_lem, strlen-copied,
}

pub AreApart-part : (a b n c i : ℕ) → AreApart a b n → b ≤ c → c + i ≤ b + n → AreApart a c i
AreApart-part a b n c i (inl l) u v = inl (omega arith)
AreApart-part a b n c i (inr l) u v = inr (omega arith)

-- Memory is the same on the len + 1 bytes from lo on.
abbrev pub Keeps : Bytes → Bytes → ℕ → ℕ → Type 0
Keeps m m' lo len = (j : ℕ) → j ≤ len → m' (lo + j) ≡ m (lo + j)

pub Keeps-at :
    (m m' : Bytes) (lo len a : ℕ) → Keeps m m' lo len → lo ≤ a → a ≤ lo + len → m' a ≡ m a
Keeps-at m m' lo len a keeps h h' =
    let e : lo + (a - lo) ≡ a = omega arith in
    subst (λ (b : ℕ). m' b ≡ m b) e (keeps (a - lo) (omega arith))

pub copied-Keeps :
    (m : Bytes) (buf q n lo len : ℕ)
    → AreApart buf lo len
    → n ≤ len
    → Keeps m (copied m buf q n) lo len
copied-Keeps m buf q n lo len (inl l) u j h = ground arith
copied-Keeps m buf q n lo len (inr l) u j h = ground arith

pub copied-at : (m : Bytes) (buf q n j : ℕ) → j < n → copied m buf q n (buf + j) ≡ m (q + j)
copied-at m buf q n j l =
    let index : buf + j - buf ≡ j = omega arith in ground (arith, ap (λ (i : ℕ). m (q + i)) index)

pub copy_string-copied :
    (m : Bytes) (dst src len : ℕ)
    → AreApart dst src len
    → copy_string m dst src len ≡ copied m dst src len
unfolding copy_string
copy_string-copied m dst src len apart =
    let same : memcpy m dst src len ≡ overwritten m dst len (λ j. m (src + j)) =
      fun_ext (memcpy_lem m dst src len (order apart)) in
    ap (λ (k : Bytes). update k (dst + len) 0) same
  where
    order : AreApart dst src len → (dst ≤ src) ⊎ (src + len ≤ dst)
    order (inl l) = inl (omega arith)
    order (inr l) = inr (omega arith)

pub Word-Keeps :
    (m m' : Bytes) (lo len p k n : ℕ)
    → lo ≤ p
    → p + k + n ≤ lo + len
    → Keeps m m' lo len
    → Word m p k n
    → Word m' p k n
Word-Keeps m m' lo len p k n l u keeps w =
    let at : (a : ℕ) → lo ≤ a → a ≤ lo + len → m' a ≡ m a = λ a. Keeps-at m m' lo len a keeps in
    record {
      blanks = λ j h. at (p + j) (omega arith) (omega arith) ∙ w.blanks j h;
      first = λ e. w.first (sym (at (p + k) (omega arith) (omega arith)) ∙ e);
      letters = λ j h. ap ends_word (at (p + k + j) (omega arith) (omega arith)) ∙ w.letters j h;
      end = ap ends_word (at (p + k + n) (omega arith) (omega arith)) ∙ w.end;
    }

-- A word without the blanks before it.
Word-bare : (m : Bytes) (p k n : ℕ) → Word m p k n → Word m (p + k) 0 n
Word-bare m p k n w =
    let e : p + k + 0 ≡ p + k = omega arith in
    record {
      blanks = λ j h. absurd (omega arith);
      first = rw e w.first;
      letters = rw e w.letters;
      end = rw e w.end;
    }

-- get_param, strlen and the copy to another array, where the blanks have been skipped.
pub take_word :
    (fuel : ℕ) (m : Bytes) (string_buf p k n : ℕ)
    → Word m p k n
    → AreApart string_buf (p + k) n
    → k + n < fuel
    → (skip_blanks fuel m p ≡ ok (p + k))
      × (get_param fuel m string_buf (p + k) ≡ ok (copied m string_buf (p + k) n))
      × (strlen (copied m string_buf (p + k) n) string_buf fuel ≡ some n)
take_word fuel m string_buf p k n w apart l =
    let e : p + k + 0 ≡ p + k = omega arith in
    (
      skip_blanks-first fuel k m p w.blanks w.first (omega arith),
      get_param_lem fuel m string_buf (p + k) 0 n (Word-bare m p k n w) (rw e apart) (omega arith)
          ∙ ap (λ (q : ℕ). ok (copied m string_buf q n)) e,
      strlen-copied fuel m string_buf (p + k) n
          (λ j h z. let letter = w.letters j h in ground (arith, letter, z)) (omega arith),
    )

Quoted-Keeps :
    (m m' : Bytes) (lo len p k n : ℕ)
    → lo ≤ p
    → p + k + 1 + n ≤ lo + len
    → Keeps m m' lo len
    → Quoted m p k n
    → Quoted m' p k n
Quoted-Keeps m m' lo len p k n l u keeps q =
    let at : (a : ℕ) → lo ≤ a → a ≤ lo + len → m' a ≡ m a = λ a. Keeps-at m m' lo len a keeps in
    record {
      blanks = λ j h. at (p + j) (omega arith) (omega arith) ∙ q.blanks j h;
      opens = at (p + k) (omega arith) (omega arith) ∙ q.opens;
      letters = λ j h. ap is_quote (at (p + k + 1 + j) (omega arith) (omega arith)) ∙ q.letters j h;
      nonzero = λ j h e. q.nonzero j h (sym (at (p + k + 1 + j) (omega arith) (omega arith)) ∙ e);
      closes = ap is_quote (at (p + k + 1 + n) (omega arith) (omega arith)) ∙ q.closes;
    }

pub Spoken-Keeps :
    (m m' : Bytes) (lo len p k n start : ℕ)
    → lo ≤ p
    → p + k + 1 + n ≤ lo + len
    → Keeps m m' lo len
    → Spoken m p k n start
    → Spoken m' p k n start
Spoken-Keeps m m' lo len p k n start l u keeps (inl (w, plain, e)) =
    let same = Keeps-at m m' lo len (p + k) keeps (omega arith) (omega arith) in
    inl (Word-Keeps m m' lo len p k n l (omega arith) keeps w, (λ z. plain (sym same ∙ z)), e)
Spoken-Keeps m m' lo len p k n start l u keeps (inr (q, e)) =
    inr (Quoted-Keeps m m' lo len p k n l u keeps q, e)

pub Spoken-start :
    (m : Bytes) (p k n start : ℕ) → Spoken m p k n start → (p + k ≤ start) × (start ≤ p + k + 1)
Spoken-start m p k n start (inl (w, plain, e)) = (omega (arith, e), omega (arith, e))
Spoken-start m p k n start (inr (q, e)) = (omega (arith, e), omega (arith, e))

-- n characters from q on have been moved by way of string_buf to dst.
pub record IsMoved (m m' : Bytes) (string_buf dst q n : ℕ) : Type 0 where
  pub keeps : (b l : ℕ) → AreApart string_buf b l → AreApart dst b l → n ≤ l → Keeps m m' b l
  pub text : (j : ℕ) → j < n → m' (dst + j) ≡ m (q + j)
  pub end : m' (dst + n) ≡ 0

pub copy_string-IsMoved :
    (m : Bytes) (string_buf dst q n len : ℕ)
    → AreApart dst string_buf len
    → n ≤ len
    → IsMoved m (copy_string (copied m string_buf q n) dst string_buf n) string_buf dst q n
copy_string-IsMoved m string_buf dst q n len apart h =
    let m1 = copied m string_buf q n in
    let same =
      copy_string-copied m1 dst string_buf n
        (AreApart-part dst string_buf len string_buf n apart (omega arith) (omega arith)) in
    record {
      keeps = λ b l u v i j s.
          ap (λ (k : Bytes). k (b + j)) same
          ∙ copied-Keeps m1 dst string_buf n b l v i j s
          ∙ copied-Keeps m string_buf q n b l u i j s;
      text = λ j l.
          ap (λ (k : Bytes). k (dst + j)) same
          ∙ copied-at m1 dst string_buf n j l
          ∙ copied-at m string_buf q n j l;
      end = ap (λ (k : Bytes). k (dst + n)) same ∙ ground arith;
    }
