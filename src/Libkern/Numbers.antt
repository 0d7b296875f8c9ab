-- ===== src/Libkern/Numbers.antt =====
-- system/libkern/printf.c: the functions that render a number at the end of a buffer. The result is
-- the string at the pointer that they return, as the list of its bytes. `int`, `long`, `size_t`,
-- `ptrdiff_t` and pointers have 32 bits on the i686, `long long` has 64.
pub mod Reads
use rkernel.Base.{◌-◌, zero, suc, ℤ, pos, negsuc}
use rkernel.Base.{
  zero, ◌==◌, ◌%◌, ◌∷◌, ◌/◌, suc, some, ◌^◌, none, ltb, [], ◌+◌, if◌then◌else◌, Option, List, ℤ, ℕ,
}

abbrev pub char_zero : ℕ
char_zero = 48

abbrev pub char_minus : ℕ
char_minus = 45

abbrev pub char_x : ℕ
char_x = 120

-- `'0' + n`
abbrev pub plain_digit : ℕ → ℕ
plain_digit n = char_zero + n

-- `hexlow` and `hexhig`, at the indices below 16.
abbrev pub hexlow : ℕ → ℕ
hexlow n = if ltb n 10 then char_zero + n else 87 + n

abbrev pub hexhig : ℕ → ℕ
hexhig n = if ltb n 10 then char_zero + n else 55 + n

-- The loop that writes digits in front of `s`. It goes round at most once for each bit of the number,
-- and the width of the type is the fuel; `none` where that runs out.
unfoldable pub digits_loop : (ℕ → ℕ) → ℕ → ℕ → ℕ → List ℕ → Option (List ℕ)
digits_loop digit base zero i s = none
digits_loop digit base (suc fuel) i s =
    let rest = digits_loop digit base fuel (i / base) (digit (i % base) ∷ s) in
    if i / base == 0 then some (digit (i % base) ∷ s) else rest

-- A negative number is negated first. The least one has no negation in its type, which C leaves
-- undefined (`none`).
unfoldable pub with_sign : ℕ → ℤ → Option (List ℕ)
with_sign width (pos i) = digits_loop plain_digit 10 width i []
with_sign width (negsuc i) =
    let digits = digits_loop plain_digit 10 width (suc i) [] in
    if suc i == 2 ^ (width - 1)
    then none
    else elim digits [ none ↦ none | some s ↦ some (char_minus ∷ s) ]

unfoldable pub i2a : ℤ → Option (List ℕ)
i2a i = with_sign 32 i

unfoldable pub u2a : ℕ → Option (List ℕ)
u2a i = digits_loop plain_digit 10 32 i []

unfoldable pub x2a : ℕ → Option (List ℕ)
x2a i = digits_loop hexlow (2 ^ 4) 32 i []

unfoldable pub xx2a : ℕ → Option (List ℕ)
xx2a i = digits_loop hexhig (2 ^ 4) 32 i []

unfoldable pub o2a : ℕ → Option (List ℕ)
o2a i = digits_loop plain_digit (2 ^ 3) 32 i []

unfoldable pub p2a : ℕ → Option (List ℕ)
p2a ptr = elim (digits_loop hexlow (2 ^ 4) 32 ptr []) [
  | none ↦ none
  | some s ↦ some (char_zero ∷ char_x ∷ s)
]

unfoldable pub li2a : ℤ → Option (List ℕ)
li2a i = with_sign 32 i

unfoldable pub lu2a : ℕ → Option (List ℕ)
lu2a i = digits_loop plain_digit 10 32 i []

unfoldable pub lx2a : ℕ → Option (List ℕ)
lx2a i = digits_loop hexlow (2 ^ 4) 32 i []

unfoldable pub lxx2a : ℕ → Option (List ℕ)
lxx2a i = digits_loop hexhig (2 ^ 4) 32 i []

unfoldable pub lo2a : ℕ → Option (List ℕ)
lo2a i = digits_loop plain_digit (2 ^ 3) 32 i []

unfoldable pub lli2a : ℤ → Option (List ℕ)
lli2a i = with_sign 64 i

unfoldable pub llu2a : ℕ → Option (List ℕ)
llu2a i = digits_loop plain_digit 10 64 i []

unfoldable pub llx2a : ℕ → Option (List ℕ)
llx2a i = digits_loop hexlow (2 ^ 4) 64 i []

unfoldable pub llxx2a : ℕ → Option (List ℕ)
llxx2a i = digits_loop hexhig (2 ^ 4) 64 i []

unfoldable pub llo2a : ℕ → Option (List ℕ)
llo2a i = digits_loop plain_digit (2 ^ 3) 64 i []

unfoldable pub zi2a : ℤ → Option (List ℕ)
zi2a i = with_sign 32 i

unfoldable pub zu2a : ℕ → Option (List ℕ)
zu2a i = digits_loop plain_digit 10 32 i []

unfoldable pub zx2a : ℕ → Option (List ℕ)
zx2a i = digits_loop hexlow (2 ^ 4) 32 i []

unfoldable pub zxx2a : ℕ → Option (List ℕ)
zxx2a i = digits_loop hexhig (2 ^ 4) 32 i []

unfoldable pub zo2a : ℕ → Option (List ℕ)
zo2a i = digits_loop plain_digit (2 ^ 3) 32 i []

unfoldable pub ti2a : ℤ → Option (List ℕ)
ti2a i = with_sign 32 i

unfoldable pub tu2a : ℕ → Option (List ℕ)
tu2a i = digits_loop plain_digit 10 32 i []

unfoldable pub tx2a : ℕ → Option (List ℕ)
tx2a i = digits_loop hexlow (2 ^ 4) 32 i []

unfoldable pub txx2a : ℕ → Option (List ℕ)
txx2a i = digits_loop hexhig (2 ^ 4) 32 i []

unfoldable pub to2a : ℕ → Option (List ℕ)
to2a i = digits_loop plain_digit (2 ^ 3) 32 i []
