-- ===== src/Bytes.antt =====
-- lib/string.c: memset, memcpy, memmove, memcmp and strlen on a byte-addressed memory. A round of
-- a loop is a step of the recursion, so that a store is seen by the loads of the later rounds, as
-- overlapping arguments need.
-- Copy treats the stores, Compare the two functions that only read.
pub mod Copy
pub mod Compare
mod Tests
use tiny_riscv_os.Prelude.{
  ℤ, pos, negsuc, ◌^◌, ℕ, zero, suc, ◌+◌, ◌%◌, Option, none, some, ltb, ◌==◌, if◌then◌else◌, update,
}

-- The byte at each address.
abbrev pub Bytes : Type 0
Bytes = ℕ → ℕ

-- `for (; i < n; ++i) s[i] = c`, with n - i rounds left; c is stored as a char.
unfoldable pub memset_loop : Bytes → ℕ → ℕ → ℕ → ℕ → Bytes
memset_loop m s c i zero = m
memset_loop m s c i (suc n) = memset_loop (update m (s + i) (c % 2 ^ 8)) s c (i + 1) n

unfoldable pub memset : Bytes → ℕ → ℕ → ℕ → Bytes
memset m dest c n = memset_loop m dest c 0 n

-- `for (; i < n; ++i) d[i] = s[i]`, with n - i rounds left.
unfoldable pub memcpy_loop : Bytes → ℕ → ℕ → ℕ → ℕ → Bytes
memcpy_loop m d s i zero = m
memcpy_loop m d s i (suc n) = memcpy_loop (update m (d + i) (m (s + i))) d s (i + 1) n

unfoldable pub memcpy : Bytes → ℕ → ℕ → ℕ → Bytes
memcpy m dst src n = memcpy_loop m dst src 0 n

-- `for (i = n; i > 0; --i) d[i - 1] = s[i - 1]`.
unfoldable pub memmove_back : Bytes → ℕ → ℕ → ℕ → Bytes
memmove_back m d s zero = m
memmove_back m d s (suc i) = memmove_back (update m (d + i) (m (s + i))) d s i

unfoldable pub memmove : Bytes → ℕ → ℕ → ℕ → Bytes
memmove m d s n = if ltb d s then memcpy m d s n else memmove_back m d s n

unfoldable pub memcmp_loop : Bytes → ℕ → ℕ → ℕ → ℕ → ℤ
memcmp_loop m u1 u2 i zero = pos 0
memcmp_loop m u1 u2 i (suc n) =
    let rest = memcmp_loop m u1 u2 (i + 1) n in
    if m (u1 + i) == m (u2 + i)
    then rest
    else if ltb (m (u1 + i)) (m (u2 + i))
    then negsuc 0
    else pos 1

unfoldable pub memcmp : Bytes → ℕ → ℕ → ℕ → ℤ
memcmp m s1 s2 n = memcmp_loop m s1 s2 0 n

-- `while (s[len]) len++`, on fuel.
unfoldable pub strlen_loop : Bytes → ℕ → ℕ → ℕ → Option ℕ
strlen_loop m s len zero = none
strlen_loop m s len (suc fuel) =
    let rest = strlen_loop m s (len + 1) fuel in if m (s + len) == 0 then some len else rest

unfoldable pub strlen : Bytes → ℕ → ℕ → Option ℕ
strlen m s fuel = strlen_loop m s 0 fuel
