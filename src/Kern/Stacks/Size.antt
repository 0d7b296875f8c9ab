-- ===== src/Kern/Stacks/Size.antt =====
-- system/kern/kern_stacks.c: the loop of `calc_size`.
use rkernel.Base.{
  false, ltb→ge, ◌∙◌, ap, ltb→lt, true, ltb, ◌%◌, subst, arith, zero, suc, some, ◌*◌, ◌≤◌, ◌<◌, ◌^◌,
  ◌≡◌, ◌+◌, ℕ, refl,
}
use native.Mathlib.Nat.{mod-eq_of_lt}
use rkernel.Base.Bits.{pow_double}
use rkernel.Kern.Stacks.{calc_size, size_loop}

-- The least power of two that is no less than the size.
abbrev pub IsLeastPower : ℕ → ℕ → ℕ → Type 0
IsLeastPower size num k = (num ≡ 2 ^ k) × ((size ≤ num) × (2 ^ k < 2 * size))

doubled : (size k : ℕ) → 2 ^ k < size → 2 ^ suc k < 2 * size
doubled size k more = omega (arith, pow_double k)

wide-apart : (size k : ℕ) → k ≡ 32 → 2 ^ k < 2 * size → size ≤ 2 ^ 31 → ⊥
wide-apart size k e below small =
    let high : 2 ^ 32 < 2 * size = subst (λ (x : ℕ). 2 ^ x < 2 * size) e below in omega arith

wide_enough : (size k : ℕ) → 2 ^ k < size → size ≤ 2 ^ 31 → 2 ^ k * 2 < 2 ^ 32
wide_enough size k more small = omega arith

narrow_next : (size k : ℕ) → 2 ^ k < size → size ≤ 2 ^ 31 → 2 ^ k * 2 % 2 ^ 32 ≡ 2 ^ suc k
narrow_next size k more small = rw (pow_double k) (mod-eq_of_lt (wide_enough size k more small))

size_loop-IsLeastPower :
    (fuel size k : ℕ)
    → k + fuel ≡ 32
    → 2 ^ k < 2 * size
    → size ≤ 2 ^ 31
    → (num : ℕ) × (n : ℕ) × (size_loop fuel size (2 ^ k) ≡ some num) × IsLeastPower size num n
unfolding size_loop
size_loop-IsLeastPower zero size k enough below small =
    absurd (wide-apart size k (omega arith) below small)
size_loop-IsLeastPower (suc fuel) size k enough below small =
    elim (ltb (2 ^ k) size)
        as (λ b.
          (ltb (2 ^ k) size ≡ b)
          → (num : ℕ) × (n : ℕ) × ((elim b [
            | true ↦ size_loop fuel size (2 ^ k * 2 % 2 ^ 32)
            | false ↦ some (2 ^ k)
          ])
              ≡ some num)
            × IsLeastPower size num n) [
              | true ↦ λ e.
                  let found =
                    size_loop-IsLeastPower fuel size (suc k) (omega arith)
                      (doubled size k (ltb→lt (2 ^ k) size e)) small in
                  (
                    found.0,
                    found.1,
                    ap (size_loop fuel size) (narrow_next size k (ltb→lt (2 ^ k) size e) small)
                        ∙ found.2,
                    found.3,
                  )
              | false ↦ λ e. (2 ^ k, k, refl, (refl, (ltb→ge (2 ^ k) size e, below)))
            ]
      refl

-- Up to two gigabytes the size found is the least power of two that holds what is asked.
pub calc_size-IsLeastPower :
    (size : ℕ)
    → 0 < size
    → size ≤ 2 ^ 31
    → (num : ℕ) × (n : ℕ) × (calc_size 32 size ≡ some num) × IsLeastPower size num n
unfolding calc_size
calc_size-IsLeastPower size some_bytes small =
    size_loop-IsLeastPower 32 size 0 refl (omega arith) small
