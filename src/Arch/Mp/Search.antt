-- ===== src/Arch/Mp/Search.antt =====
-- system/arch/i686/mp.c: the search for the floating pointer structure.
use rkernel.Base.{
  refl, zero, true, ◌⊎◌, subst, inr, Bool-cases, ◌*◌, ◌&&◌, suc, ◌==◌, ◌<◌, ◌/◌, false, arith, ◌≡◌,
  ◌+◌, inl, Bool, ℕ,
}
use rkernel.Arch.Mp.{get_int, mp_signature, mpsearch2, search_from, sum}

abbrev pub is_structure : (ℕ → ℕ) → ℕ → Bool
is_structure read p = get_int read p == mp_signature && sum read p 16 0 == 0

-- The first of the `n` places from `p` on, 16 bytes apart, that is a structure; 0 where none is.
abbrev pub FindsFirst : (ℕ → ℕ) → ℕ → ℕ → ℕ → Type 0
FindsFirst read n p out =
    ((out ≡ 0) × ((k : ℕ) → k < n → is_structure read (p + 16 * k) ≡ false))
    ⊎ ((k : ℕ) × ((k < n)
          × ((out ≡ p + 16 * k)
              × ((is_structure read (p + 16 * k) ≡ true)
                  × ((j : ℕ) → j < k → is_structure read (p + 16 * j) ≡ false)))))

-- What holds of the first place, and of those behind it, holds of all.
all_places :
    (read : ℕ → ℕ) (n p k : ℕ)
    → is_structure read p ≡ false
    → ((j : ℕ) → j < n → is_structure read (p + 16 + 16 * j) ≡ false)
    → k < suc n
    → is_structure read (p + 16 * k) ≡ false
all_places read n p zero first behind below = subst (λ (a : ℕ). is_structure read a ≡ false) e first
  where
    e : p ≡ p + 16 * 0
    e = omega arith
all_places read n p (suc k) first behind below =
    subst (λ (a : ℕ). is_structure read a ≡ false) e (behind k (omega arith))
  where
    e : p + 16 + 16 * k ≡ p + 16 * suc k
    e = omega arith

FindsFirst-suc :
    (read : ℕ → ℕ) (n p out : ℕ)
    → is_structure read p ≡ false
    → FindsFirst read n (p + 16) out
    → FindsFirst read (suc n) p out
FindsFirst-suc read n p out first (inl (nothing, all)) =
    inl (nothing, λ k below. all_places read n p k first all below)
FindsFirst-suc read n p out first (inr (k, (below, (at, (is, before))))) = inr (
  suc k,
  (
    omega arith,
    (
      omega arith,
      (
        subst (λ (a : ℕ). is_structure read a ≡ true) e is,
        λ j lower. all_places read k p j first before lower,
      ),
    ),
  ),
)
  where
    e : p + 16 + 16 * k ≡ p + 16 * suc k
    e = omega arith

search_from-FindsFirst : (read : ℕ → ℕ) (n p : ℕ) → FindsFirst read n p (search_from read n p)
unfolding search_from
search_from-FindsFirst read zero p = inl (refl, λ k below. absurd (omega arith))
search_from-FindsFirst read (suc n) p = elim (Bool-cases (is_structure read p)) [
  | inl is ↦ rw is (
      inr (
        0,
        (
          omega arith,
          (
            omega arith,
            (
              subst (λ (a : ℕ). is_structure read a ≡ true) here is,
              λ j lower. absurd (omega arith),
            ),
          ),
        ),
      ))
  | inr is_not ↦ rw is_not (
      FindsFirst-suc read n p (search_from read n (p + 16)) is_not
        (search_from-FindsFirst read n (p + 16)))
]
  where
    here : p ≡ p + 16 * 0
    here = omega arith

pub mpsearch2-FindsFirst :
    (read : ℕ → ℕ) (va len : ℕ) → FindsFirst read ((len + 15) / 16) va (mpsearch2 read va len)
unfolding mpsearch2
mpsearch2-FindsFirst read va len = search_from-FindsFirst read ((len + 15) / 16) va
