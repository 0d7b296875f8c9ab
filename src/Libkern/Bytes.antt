-- ===== src/Libkern/Bytes.antt =====
-- system/libkern/string.c: strings and stretches of bytes. Memory is the byte at each address; no
-- stretch reaches past the end of it. The loops that run to a terminator have fuel (`none` where it
-- runs out).
pub mod Move
mod Tests
use rkernel.Base.{
  not, ◌^◌, ◌&&◌, some, ◌==◌, ◌%◌, none, ltb, ◌+◌, if◌then◌else◌, Option, ℕ, zero, suc,
}

abbrev pub put : (ℕ → ℕ) → ℕ → ℕ → ℕ → ℕ
put m p v q = if q == p then v else m q

unfoldable pub strlen_loop : ℕ → ℕ → ℕ → (ℕ → ℕ) → Option ℕ
strlen_loop zero str i m = none
strlen_loop (suc fuel) str i m =
    let rest = strlen_loop fuel (str + 1) (i + 1) m in if m str == 0 then some i else rest

unfoldable pub strlen : ℕ → ℕ → (ℕ → ℕ) → Option ℕ
strlen fuel str m = strlen_loop fuel str 0 m

unfoldable pub strcpy : ℕ → ℕ → ℕ → (ℕ → ℕ) → Option (ℕ → ℕ)
strcpy zero o i m = none
strcpy (suc fuel) o i m =
    let m' = put m o (m i) in
    let rest = strcpy fuel (o + 1) (i + 1) m' in if m i == 0 then some m' else rest

unfoldable pub strncpy : ℕ → ℕ → ℕ → (ℕ → ℕ) → ℕ → ℕ
strncpy o i zero m = m
strncpy o i (suc n) m =
    let m' = put m o (m i) in
    let rest = strncpy (o + 1) (i + 1) n m' in if m i == 0 then m' else rest

unfoldable pub strcat : ℕ → ℕ → ℕ → (ℕ → ℕ) → Option (ℕ → ℕ)
strcat zero o i m = none
strcat (suc fuel) o i m =
    let rest = strcat fuel (o + 1) i m in
    let copied = strcpy (suc fuel) o i m in if m o == 0 then copied else rest

-- Both loops count `n` down.
unfoldable pub strncat : ℕ → ℕ → ℕ → (ℕ → ℕ) → ℕ → ℕ
strncat o i zero m = m
strncat o i (suc n) m =
    let rest = strncat (o + 1) i n m in
    let copied = strncpy o i (suc n) m in if m o == 0 then copied else rest

-- `*a-*b`, the sign and the amount, as the two bytes.
unfoldable pub strcmp : ℕ → ℕ → ℕ → (ℕ → ℕ) → Option (ℕ × ℕ)
strcmp zero a b m = none
strcmp (suc fuel) a b m =
    let rest = strcmp fuel (a + 1) (b + 1) m in
    if m a == m b && not (m a == 0) then rest else some (m a, m b)

unfoldable pub memset : ℕ → ℕ → ℕ → (ℕ → ℕ) → ℕ → ℕ
memset o ch zero m = m
memset o ch (suc count) m = memset (o + 1) ch count (put m o (ch % 2 ^ 8))

unfoldable pub memcpy : ℕ → ℕ → ℕ → (ℕ → ℕ) → ℕ → ℕ
memcpy o i zero m = m
memcpy o i (suc n) m = memcpy (o + 1) (i + 1) n (put m o (m i))

-- The difference of equal bytes, (0, 0), where all `n` agree.
unfoldable pub memcmp : ℕ → ℕ → ℕ → (ℕ → ℕ) → ℕ × ℕ
memcmp a b zero m = (0, 0)
memcmp a b (suc n) m =
    let rest = memcmp (a + 1) (b + 1) n m in if m a == m b then rest else (m a, m b)

-- The loop of `memmove` that goes down, over the `n` bytes from `o` and `i` on.
unfoldable pub move_down : ℕ → ℕ → ℕ → (ℕ → ℕ) → ℕ → ℕ
move_down o i zero m = m
move_down o i (suc n) m = move_down o i n (put m (o + n) (m (i + n)))

-- The loop that goes up is that of `memcpy`.
unfoldable pub memmove : ℕ → ℕ → ℕ → (ℕ → ℕ) → ℕ → ℕ
memmove dest src n m = if ltb dest src then memcpy dest src n m else move_down dest src n m

-- The null pointer is 0.
unfoldable pub memchr : ℕ → ℕ → ℕ → (ℕ → ℕ) → ℕ
memchr i ch zero m = 0
memchr i ch (suc n) m = let rest = memchr (i + 1) ch n m in if m i == ch % 2 ^ 8 then i else rest
