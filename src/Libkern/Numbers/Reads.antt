-- ===== src/Libkern/Numbers/Reads.antt =====
-- system/libkern/printf.c: a rendered number reads back as the number.
use rkernel.Base.{true, false, Bool, pos, negsuc}
use rkernel.Base.{
  ltb, ◌≢◌, ◌-◌, ℤ, negsuc, if◌then◌else◌, inr, ==→eq, inl, ◌==◌, ◌∙◌, subst, none, ap, [],
  Bool-cases, ◌^◌, ◌/◌, ◌+◌, ◌%◌, length, ◌≡◌, ◌*◌, ◌∷◌, ◌<◌, some, ◌≤◌, Option, List, ℕ, arith,
  zero, suc,
}
use rkernel.Base.Bits.{pow_double}
use native.Mathlib.Nat.{div-add-mod, mod-lt, div-lt_iff_lt-mul, div-eq_of_lt, mul-le-mul_left}
use rkernel.Libkern.Numbers.{
  digits_loop, plain_digit, hexlow, hexhig, u2a, lu2a, llu2a, zu2a, tu2a, x2a, lx2a, llx2a, zx2a,
  tx2a, xx2a, lxx2a, llxx2a, zxx2a, txx2a, o2a, lo2a, llo2a, zo2a, to2a,
}

-- The number that a string of digits stands for, behind the digits of `n`.
abbrev pub read : (ℕ → ℕ) → ℕ → List ℕ → ℕ → ℕ
read value base [] n = n
read value base (c ∷ cs) n = read value base cs (n * base + value c)

-- A string that reads as `n`, of at least one and at most `width` characters.
abbrev pub Reads : (ℕ → ℕ) → ℕ → ℕ → ℕ → Option (List ℕ) → Type 0
Reads value base width n none = ⊥
Reads value base width n (some s) =
    (read value base s 0 ≡ n) × ((0 < length s) × (length s ≤ width))

abbrev ReadsFrom : (ℕ → ℕ) → ℕ → ℕ → ℕ → List ℕ → Option (List ℕ) → Type 0
ReadsFrom value base fuel i s none = ⊥
ReadsFrom value base fuel i s (some t) =
    (read value base t 0 ≡ read value base s i)
    × ((length s < length t) × (length t ≤ length s + fuel))

module _ (digit value : ℕ → ℕ) (base : ℕ) (two : 2 ≤ base)
    (inverse : (d : ℕ) → d < base → value (digit d) ≡ d) where
  reads_once :
      (i : ℕ) (s : List ℕ) → read value base (digit (i % base) ∷ s) (i / base) ≡ read value base s i
  reads_once i s = ap (read value base s) (
      ap (λ d. i / base * base + d) (inverse (i % base) (mod-lt i (omega arith)))
      ∙ grind (arith, div-add-mod i base))

  reads_last :
      (i : ℕ) (s : List ℕ)
      → i / base ≡ 0
      → read value base (digit (i % base) ∷ s) 0 ≡ read value base s i
  reads_last i s e =
      subst (λ q. read value base (digit (i % base) ∷ s) q ≡ read value base s i) e (reads_once i s)

  longer :
      (fuel i c : ℕ) (s : List ℕ) (o : Option (List ℕ))
      → ReadsFrom value base fuel (i / base) (digit (i % base) ∷ s) o
      → ReadsFrom value base (suc fuel) i s o
  longer fuel i c s none h = h
  longer fuel i c s (some t) (e, (lo, hi)) = (e ∙ reads_once i s, (omega arith, omega arith))

  quotient : (fuel i : ℕ) → i < 2 ^ suc fuel → i / base < 2 ^ fuel
  quotient fuel i small =
      (div-lt_iff_lt-mul (omega arith)).1 (omega (arith, small, pow_double fuel, doubled))
    where
      doubled : 2 ^ fuel * 2 ≤ 2 ^ fuel * base
      doubled = mul-le-mul_left (2 ^ fuel) two

  rounds : (fuel i : ℕ) → i < 2 ^ suc fuel → i / base ≢ 0 → 0 < fuel
  rounds zero i small more = absurd (more (div-eq_of_lt (omega arith)))
  rounds (suc fuel) i small more = omega arith

  pub digits_loop-ReadsFrom :
      (fuel i : ℕ) (s : List ℕ)
      → i < 2 ^ fuel
      → 0 < fuel
      → ReadsFrom value base fuel i s (digits_loop digit base fuel i s)
  unfolding digits_loop
  digits_loop-ReadsFrom zero i s small some_fuel = absurd (omega arith)
  digits_loop-ReadsFrom (suc fuel) i s small some_fuel = elim (Bool-cases (i / base == 0)) [
    | inl last ↦
        rw (digits_loop, last)
          (reads_last i s (==→eq (i / base) 0 last), (omega arith, omega arith))
    | inr more ↦
        rw (digits_loop, more)
          (longer fuel i 0 s _ (
            digits_loop-ReadsFrom fuel (i / base) (digit (i % base) ∷ s) (quotient fuel i small)
              (rounds fuel i small (ground (arith, more)))))
  ]

-- What the characters of a digit stand for.
abbrev pub plain_value : ℕ → ℕ
plain_value c = c - 48

abbrev pub low_value : ℕ → ℕ
low_value c = if ltb c 58 then c - 48 else c - 87

abbrev pub high_value : ℕ → ℕ
high_value c = if ltb c 58 then c - 48 else c - 55

plain_inverse : (d : ℕ) → plain_value (plain_digit d) ≡ d
plain_inverse d = omega arith

pub low_inverse : (d : ℕ) → d < 16 → low_value (hexlow d) ≡ d
low_inverse d small = ground arith

pub high_inverse : (d : ℕ) → d < 16 → high_value (hexhig d) ≡ d
high_inverse d small = ground arith

from_start :
    (value : ℕ → ℕ) (base width i : ℕ) (o : Option (List ℕ))
    → ReadsFrom value base width i [] o
    → Reads value base width i o
from_start value base width i none h = h
from_start value base width i (some s) (e, (lo, hi)) = (e, (lo, omega arith))

decimal :
    (width i : ℕ)
    → i < 2 ^ width
    → 0 < width
    → Reads plain_value 10 width i (digits_loop plain_digit 10 width i [])
decimal width i small wide = from_start plain_value 10 width i _ (
    digits_loop-ReadsFrom plain_digit plain_value 10 (omega arith) (λ d h. plain_inverse d) width i
      [] small wide)

octal :
    (width i : ℕ)
    → i < 2 ^ width
    → 0 < width
    → Reads plain_value 8 width i (digits_loop plain_digit 8 width i [])
octal width i small wide = from_start plain_value 8 width i _ (
    digits_loop-ReadsFrom plain_digit plain_value 8 (omega arith) (λ d h. plain_inverse d) width i
      [] small wide)

lower :
    (width i : ℕ)
    → i < 2 ^ width
    → 0 < width
    → Reads low_value 16 width i (digits_loop hexlow 16 width i [])
lower width i small wide =
    from_start low_value 16 width i _
      (digits_loop-ReadsFrom hexlow low_value 16 (omega arith) low_inverse width i [] small wide)

upper :
    (width i : ℕ)
    → i < 2 ^ width
    → 0 < width
    → Reads high_value 16 width i (digits_loop hexhig 16 width i [])
upper width i small wide =
    from_start high_value 16 width i _
      (digits_loop-ReadsFrom hexhig high_value 16 (omega arith) high_inverse width i [] small wide)

-- The functions for 32-bit numbers in decimal give a string of 1 to 32 characters that reads back as
-- the number.
pub u2a-Reads :
    (n : ℕ)
    → n < 2 ^ 32
    → Reads plain_value 10 32 n (u2a n)
      × (Reads plain_value 10 32 n (lu2a n)
          × (Reads plain_value 10 32 n (zu2a n) × (Reads plain_value 10 32 n (tu2a n))))
unfolding u2a lu2a zu2a tu2a
u2a-Reads n small = (
  decimal 32 n small (omega arith),
  (
    decimal 32 n small (omega arith),
    (decimal 32 n small (omega arith), (decimal 32 n small (omega arith))),
  ),
)

-- The functions for 32-bit numbers in small hexadecimal give a string of 1 to 32 characters that reads back as
-- the number.
pub x2a-Reads :
    (n : ℕ)
    → n < 2 ^ 32
    → Reads low_value 16 32 n (x2a n)
      × (Reads low_value 16 32 n (lx2a n)
          × (Reads low_value 16 32 n (zx2a n) × (Reads low_value 16 32 n (tx2a n))))
unfolding x2a lx2a zx2a tx2a
x2a-Reads n small = (
  lower 32 n small (omega arith),
  (
    lower 32 n small (omega arith),
    (lower 32 n small (omega arith), (lower 32 n small (omega arith))),
  ),
)

-- The functions for 32-bit numbers in capital hexadecimal give a string of 1 to 32 characters that reads back as
-- the number.
pub xx2a-Reads :
    (n : ℕ)
    → n < 2 ^ 32
    → Reads high_value 16 32 n (xx2a n)
      × (Reads high_value 16 32 n (lxx2a n)
          × (Reads high_value 16 32 n (zxx2a n) × (Reads high_value 16 32 n (txx2a n))))
unfolding xx2a lxx2a zxx2a txx2a
xx2a-Reads n small = (
  upper 32 n small (omega arith),
  (
    upper 32 n small (omega arith),
    (upper 32 n small (omega arith), (upper 32 n small (omega arith))),
  ),
)

-- The functions for 32-bit numbers in octal give a string of 1 to 32 characters that reads back as
-- the number.
pub o2a-Reads :
    (n : ℕ)
    → n < 2 ^ 32
    → Reads plain_value 8 32 n (o2a n)
      × (Reads plain_value 8 32 n (lo2a n)
          × (Reads plain_value 8 32 n (zo2a n) × (Reads plain_value 8 32 n (to2a n))))
unfolding o2a lo2a zo2a to2a
o2a-Reads n small = (
  octal 32 n small (omega arith),
  (
    octal 32 n small (omega arith),
    (octal 32 n small (omega arith), (octal 32 n small (omega arith))),
  ),
)

-- The functions for 64-bit numbers give a string of 1 to 64 characters that reads back as the number.
pub llu2a-Reads :
    (n : ℕ)
    → n < 2 ^ 64
    → Reads plain_value 10 64 n (llu2a n)
      × (Reads low_value 16 64 n (llx2a n)
          × (Reads high_value 16 64 n (llxx2a n) × Reads plain_value 8 64 n (llo2a n)))
unfolding llu2a llx2a llxx2a llo2a
llu2a-Reads n small = (
  decimal 64 n small (omega arith),
  (
    lower 64 n small (omega arith),
    (upper 64 n small (omega arith), octal 64 n small (omega arith)),
  ),
)

-- A minus and digits that read as `n + 1`; no result where that is the least number of the type.
abbrev pub ReadsNegative : ℕ → ℕ → Bool → Option (List ℕ) → Type 0
ReadsNegative width n true s = s ≡ none
ReadsNegative width n false none = ⊥
ReadsNegative width n false (some []) = ⊥
ReadsNegative width n false (some (c ∷ s)) = (c ≡ 45) × Reads plain_value 10 width (suc n) (some s)

-- A string that reads as an integer: digits, or a minus and digits.
abbrev pub ReadsSigned : ℕ → ℤ → Option (List ℕ) → Type 0
ReadsSigned width (pos n) s = Reads plain_value 10 width n s
ReadsSigned width (negsuc n) s = ReadsNegative width n (suc n == 2 ^ (width - 1)) s

abbrev pub FitsSigned : ℕ → ℤ → Type 0
FitsSigned width (pos n) = n < 2 ^ (width - 1)
FitsSigned width (negsuc n) = suc n ≤ 2 ^ (width - 1)
