-- ===== src/Arch/Window/Runs.antt =====
-- system/arch/i686/physmem.c: the search for a run of free entries.
use rkernel.Base.{
  zero, inr, ==→eq, ◌==◌, inl, none, Bool-cases, ◌<◌, suc, some, false, arith, ◌≤◌, ◌≡◌, ◌+◌, leb,
  Option, ℕ,
}
use rkernel.Arch.Window.{count_free, free_run, kptmax}

-- The `n` entries from `i` on are in the window and free.
abbrev pub IsFreeRun : (ℕ → ℕ) → ℕ → ℕ → Type 0
IsFreeRun table n i = (i + n ≤ kptmax) × ((j : ℕ) → i ≤ j → j < i + n → table j ≡ 0)

IsFreeRun-suc :
    (table : ℕ → ℕ) (n i : ℕ) → table i ≡ 0 → IsFreeRun table n (i + 1) → IsFreeRun table (suc n) i
IsFreeRun-suc table n i free (top, zeros) = (omega arith, λ j lo hi. at j lo hi)
  where
    at : (j : ℕ) → i ≤ j → j < i + suc n → table j ≡ 0
    at j lo hi = elim (Bool-cases (j == i)) [
      | inl same ↦ rw (==→eq j i same) free
      | inr other ↦ zeros j (ground arith) (omega arith)
    ]

leb→le : (a b : ℕ) → leb a b ≡ false → b < a
leb→le a b h = ground arith

count_free-IsFreeRun :
    (table : ℕ → ℕ) (n i : ℕ) → i ≤ kptmax → count_free table n i ≡ n → IsFreeRun table n i
unfolding count_free
count_free-IsFreeRun table zero i low all = (omega arith, λ j lo hi. absurd (omega arith))
count_free-IsFreeRun table (suc n) i low all = elim (Bool-cases (leb kptmax i)) [
  | inl past ↦ absurd (let nothing : 0 ≡ suc n = rw past at all in omega arith)
  | inr inside ↦ elim (Bool-cases (table i == 0)) [
    | inr used ↦ absurd (let nothing : 0 ≡ suc n = rw (inside, used) at all in omega arith)
    | inl free ↦
        let rest : suc (count_free table n (i + 1)) ≡ suc n = rw (inside, free) at all in
        let bound : i < kptmax = leb→le kptmax i inside in
        IsFreeRun-suc table n i (==→eq (table i) 0 free)
          (count_free-IsFreeRun table n (i + 1) (omega arith) (omega arith))
  ]
]

abbrev pub RunFound : (ℕ → ℕ) → ℕ → ℕ → Option ℕ → Type 0
RunFound table n i none = Unit
RunFound table n i (some e) = (i ≤ e) × IsFreeRun table n e

RunFound-below :
    (table : ℕ → ℕ) (n i : ℕ) (o : Option ℕ) → RunFound table n (i + 1) o → RunFound table n i o
RunFound-below table n i none found = found
RunFound-below table n i (some e) (lo, run) = (omega arith, run)

pub free_run-RunFound :
    (table : ℕ → ℕ) (n rounds i : ℕ)
    → i + rounds ≤ kptmax
    → RunFound table n i (free_run table n rounds i)
unfolding free_run
free_run-RunFound table n zero i low = tt
free_run-RunFound table n (suc rounds) i low = elim (Bool-cases (table i == 0)) [
  | inr used ↦ rw used (
      RunFound-below table n i (free_run table n rounds (i + 1))
        (free_run-RunFound table n rounds (i + 1) (omega arith)))
  | inl free ↦ elim (Bool-cases (count_free table n i == n)) [
    | inl all ↦
        rw (free, all)
          (
            omega arith,
            count_free-IsFreeRun table n i (omega arith) (==→eq (count_free table n i) n all),
          )
    | inr short ↦
        rw (free, short)
          (RunFound-below table n i (free_run table n rounds (i + 1))
            (free_run-RunFound table n rounds (i + 1) (omega arith)))
  ]
]
