-- ===== src/Base/Bits.antt =====
-- Laws of the bit operations, from the digit recursion that they stand for: setting the bit of a
-- power of two, and testing one.
use Prim.Native.Nat.{digits, bit_and-bitwise, bit_or-bitwise}
use Prim.Native.Nat.{bitwise}
use native.Mathlib.Nat.{pow-suc}
use rkernel.Base.{
  ℕ, zero, suc, ◌+◌, ◌*◌, ◌/◌, ◌%◌, ◌^◌, ◌≤◌, min, max, bit_and, bit_or, ◌≡◌, ◌≢◌, refl, ap, ◌∙◌,
  sym, arith, ◌==◌, if◌then◌else◌,
}

module _ (base : ℕ → ℕ) (op : ℕ → ℕ → ℕ) where
  -- The bound on the recursion does not matter where it suffices.
  digits-bound : (a b k l : ℕ) → a ≤ k → a ≤ l → digits base op k a b ≡ digits base op l a b
  digits-bound zero b zero zero p q = refl
  digits-bound zero b zero (suc l) p q = refl
  digits-bound zero b (suc k) zero p q = refl
  digits-bound zero b (suc k) (suc l) p q = refl
  digits-bound (suc a) b zero l p q = absurd (omega arith)
  digits-bound (suc a) b (suc k) zero p q = absurd (omega arith)
  digits-bound (suc a) b (suc k) (suc l) p q =
      ap (λ x. x * 2 + op (suc a % 2) (b % 2))
        (digits-bound (suc a / 2) (b / 2) k l (omega arith) (omega arith))

  -- The lowest digit, and the rest.
  lowest-digit :
      ((b : ℕ) → base b ≡ base (b / 2) * 2 + op 0 (b % 2))
      → (a b : ℕ) → bitwise base op a b ≡ bitwise base op (a / 2) (b / 2) * 2 + op (a % 2) (b % 2)
  lowest-digit start zero b = start b
  lowest-digit start (suc a) b =
      ap (λ x. x * 2 + op (suc a % 2) (b % 2))
        (digits-bound (suc a / 2) (b / 2) a (suc a / 2) (omega arith) (omega arith))

pub bit_and-digit : (a b : ℕ) → bit_and a b ≡ bit_and (a / 2) (b / 2) * 2 + min (a % 2) (b % 2)
bit_and-digit a b =
    let whole : bit_and a b ≡ bitwise (λ b. zero) min a b = bit_and-bitwise a b in
    let halves : bit_and (a / 2) (b / 2) ≡ bitwise (λ b. zero) min (a / 2) (b / 2) =
      bit_and-bitwise (a / 2) (b / 2) in
    omega (arith, whole, halves, lowest-digit (λ b. zero) min (λ b. omega arith) a b)

pub bit_or-digit : (a b : ℕ) → bit_or a b ≡ bit_or (a / 2) (b / 2) * 2 + max (a % 2) (b % 2)
bit_or-digit a b =
    let whole : bit_or a b ≡ bitwise (λ b. b) max a b = bit_or-bitwise a b in
    let halves : bit_or (a / 2) (b / 2) ≡ bitwise (λ b. b) max (a / 2) (b / 2) =
      bit_or-bitwise (a / 2) (b / 2) in
    omega (arith, whole, halves, lowest-digit (λ b. b) max (λ b. omega arith) a b)

and_digits-zero : (k a : ℕ) → a ≤ k → digits (λ b. zero) min k a 0 ≡ 0
and_digits-zero zero zero h = refl
and_digits-zero zero (suc a) h = refl
and_digits-zero (suc k) zero h = refl
and_digits-zero (suc k) (suc a) h = omega (arith, and_digits-zero k (suc a / 2) (omega arith))

or_digits-zero : (k a : ℕ) → a ≤ k → digits (λ b. b) max k a 0 ≡ a
or_digits-zero zero zero h = refl
or_digits-zero zero (suc a) h = absurd (omega arith)
or_digits-zero (suc k) zero h = refl
or_digits-zero (suc k) (suc a) h = omega (arith, or_digits-zero k (suc a / 2) (omega arith))

pub bit_and-zero : (a : ℕ) → bit_and a 0 ≡ 0
bit_and-zero a = bit_and-bitwise a 0 ∙ and_digits-zero a a (omega arith)

pub bit_or-zero : (a : ℕ) → bit_or a 0 ≡ a
bit_or-zero a = bit_or-bitwise a 0 ∙ or_digits-zero a a (omega arith)

pub zero-bit_and : (b : ℕ) → bit_and 0 b ≡ 0
zero-bit_and b = bit_and-bitwise 0 b

-- The powers of two by their halves.
pub pow_double : (k : ℕ) → 2 ^ suc k ≡ 2 ^ k * 2
pow_double k = pow-suc 2 k

pub pow_ne_zero : (k : ℕ) → 2 ^ k ≢ 0
pow_ne_zero zero = omega arith
pow_ne_zero (suc k) = omega (arith, pow_double k, pow_ne_zero k)

pub bit_and-pow_suc : (a k : ℕ) → bit_and a (2 ^ suc k) ≡ bit_and (a / 2) (2 ^ k) * 2
bit_and-pow_suc a k =
    let half : 2 ^ suc k / 2 ≡ 2 ^ k = omega (arith, pow_double k) in
    bit_and-digit a (2 ^ suc k) ∙ rw half (omega (arith, pow_double k))

pub bit_or-pow_suc : (a k : ℕ) → bit_or a (2 ^ suc k) ≡ bit_or (a / 2) (2 ^ k) * 2 + a % 2
bit_or-pow_suc a k =
    let half : 2 ^ suc k / 2 ≡ 2 ^ k = omega (arith, pow_double k) in
    bit_or-digit a (2 ^ suc k) ∙ rw half (omega (arith, pow_double k))

-- Bit `j` of `a | 1 << k`, as C tests it.
pub bit_and-bit_or-pow :
    (j k a : ℕ) → bit_and (bit_or a (2 ^ k)) (2 ^ j) ≡ (if j == k then 2 ^ j else bit_and a (2 ^ j))
bit_and-bit_or-pow zero zero a =
    omega (arith, bit_and-digit (bit_or a 1) 1, bit_or-digit a 1, bit_and-zero (bit_or a 1 / 2))
bit_and-bit_or-pow (suc j) zero a =
    let half : bit_or a 1 / 2 ≡ a / 2 = omega (arith, bit_or-digit a 1, bit_or-zero (a / 2)) in
    let high : bit_and (bit_or a 1) (2 ^ suc j) ≡ bit_and a (2 ^ suc j) =
      bit_and-pow_suc (bit_or a 1) j
      ∙ ap (λ x. bit_and x (2 ^ j) * 2) half
      ∙ sym (bit_and-pow_suc a j) in
    ground (arith, high)
bit_and-bit_or-pow zero (suc k) a =
    let low : bit_and (bit_or a (2 ^ suc k)) 1 ≡ bit_and a 1 = omega (
      arith,
      bit_and-digit (bit_or a (2 ^ suc k)) 1,
      bit_or-pow_suc a k,
      bit_and-digit a 1,
      bit_and-zero (bit_or a (2 ^ suc k) / 2),
      bit_and-zero (a / 2),
    ) in
    ground (arith, low)
bit_and-bit_or-pow (suc j) (suc k) a =
    let half : bit_or a (2 ^ suc k) / 2 ≡ bit_or (a / 2) (2 ^ k) =
      omega (arith, bit_or-pow_suc a k) in
    bit_and-pow_suc (bit_or a (2 ^ suc k)) j
    ∙ ap (λ x. bit_and x (2 ^ j) * 2) half
    ∙ ap (λ x. x * 2) (bit_and-bit_or-pow j k (a / 2))
    ∙ branches
  where
    branches :
        (if j == k then 2 ^ j else bit_and (a / 2) (2 ^ j)) * 2
        ≡ (if suc j == suc k then 2 ^ suc j else bit_and a (2 ^ suc j))
    branches = ground (arith, pow_double j, bit_and-pow_suc a j)
