-- ===== src/Kern/Sched/Lowest.antt =====
-- system/kern/kern_sched.c: the loop over the priorities finds the lowest decay value.
use rkernel.Base.{
  lt_int-asym, lt_int_trans, lt_int_irrefl, subst, sym, inr, ==→eq, ◌==◌, refl, inl, ◌⊎◌, ◌∙◌, true,
  none, Bool-cases, ◌+◌, lt_int, decrement, ap, ◌≤◌, ◌≡◌, ◌<◌, some, false, ℤ, Bool, ℕ, zero, suc,
  arith,
}
use rkernel.Kern.Sched.{Choice, better, pick_loop, set_at, sched_prios}

module _ (runnable : ℕ → Bool) where
  -- The decay values behind the loop, by the ones before.
  abbrev pub decayed : (ℕ → ℤ) → ℕ → ℤ
  decayed decay j = elim (runnable j) [ false ↦ sched_prios j | true ↦ decrement (decay j) ]

  abbrev chosen : ℕ → (ℕ → ℤ) → Choice → Choice
  chosen i decay choice = elim (runnable i) [
    | false ↦ choice
    | true ↦ better i (decrement (decay i)) choice
  ]

  on_case :
      (n i : ℕ) (decay : ℕ → ℤ) (choice : Choice) (b : Bool)
      → (elim b as (λ b. (ℕ → ℤ) × Choice) [
        | false ↦ pick_loop runnable n (i + 1) (set_at decay i (sched_prios i)) choice
        | true ↦
            pick_loop runnable n
              (i + 1)
              (set_at decay i (decrement (decay i)))
              (better i (decrement (decay i)) choice)
      ])
        ≡ pick_loop runnable n
            (i + 1)
            (set_at decay i
              (elim b as (λ b. ℤ) [ false ↦ sched_prios i | true ↦ decrement (decay i) ]))
            (elim b as (λ b. Choice) [
              | false ↦ choice
              | true ↦ better i (decrement (decay i)) choice
            ])
  on_case n i decay choice true = refl
  on_case n i decay choice false = refl

  pick_loop-suc :
      (n i : ℕ) (decay : ℕ → ℤ) (choice : Choice)
      → pick_loop runnable (suc n) i decay choice
        ≡ pick_loop runnable n (i + 1) (set_at decay i (decayed decay i)) (chosen i decay choice)
  unfolding pick_loop
  pick_loop-suc n i decay choice = on_case n i decay choice (runnable i)

  pick_loop-below :
      (n i : ℕ) (decay : ℕ → ℤ) (choice : Choice) (j : ℕ)
      → j < i
      → (pick_loop runnable n i decay choice).0 j ≡ decay j
  unfolding pick_loop
  pick_loop-below zero i decay choice j below = refl
  pick_loop-below (suc n) i decay choice j below =
      ap (λ out. out.0 j) (pick_loop-suc n i decay choice)
      ∙ (pick_loop-below n (i + 1) _ _ j (omega arith) ∙ ground arith)

  -- Each priority in the range decays, or is reset.
  pub pick_loop-decayed :
      (n i : ℕ) (decay : ℕ → ℤ) (choice : Choice) (j : ℕ)
      → i ≤ j
      → j < i + n
      → (pick_loop runnable n i decay choice).0 j ≡ decayed decay j
  unfolding pick_loop
  pick_loop-decayed zero i decay choice j lo hi = absurd (omega arith)
  pick_loop-decayed (suc n) i decay choice j lo hi =
      ap (λ out. out.0 j) (pick_loop-suc n i decay choice) ∙ elim (Bool-cases (j == i)) [
        | inl here ↦
            pick_loop-below n (i + 1) _ _ j (ground (arith, here))
            ∙ (rw here (ap (decayed decay) (sym (==→eq j i here))))
        | inr later ↦
            pick_loop-decayed n (i + 1) _ _ j (ground (arith, later)) (omega arith)
            ∙ ap (λ d. elim (runnable j) as (λ b. ℤ) [ false ↦ sched_prios j | true ↦ decrement d ])
                (ground (arith, later))
      ]

  abbrev IsBelow : ℤ → Choice → Type 0
  IsBelow d none = Unit
  IsBelow d (some (m, e)) = lt_int e d ≡ false

  -- What the choice is, over the decay values `final` of the priorities from `i` on, `n` of them.
  abbrev pub IsLowest : (ℕ → ℤ) → Choice → ℕ → ℕ → Choice → Type 0
  IsLowest final before i n none =
      (before ≡ none) × ((j : ℕ) → i ≤ j → j < i + n → runnable j ≡ false)
  IsLowest final before i n (some (m, d)) =
      ((before ≡ some (m, d)) ⊎ ((i ≤ m) × ((m < i + n) × ((runnable m ≡ true) × (d ≡ final m)))))
      × (IsBelow d before
          × ((j : ℕ) → i ≤ j → j < i + n → runnable j ≡ true → lt_int (final j) d ≡ false))

  both_ways : {b : Bool} → b ≡ true → b ≡ false → ⊥
  both_ways e f = cc

  skip :
      (final : ℕ → ℤ) (before : Choice) (i n : ℕ) (out : Choice)
      → runnable i ≡ false
      → IsLowest final before (i + 1) n out
      → IsLowest final before i (suc n) out
  skip final before i n none rests (e, all) = (
    e,
    λ j lo hi. elim (Bool-cases (j == i)) [
      | inl here ↦ rw (==→eq j i here) rests
      | inr later ↦ all j (ground (arith, later)) (omega arith)
    ],
  )
  skip final before i n (some (m, d)) rests (from, (below, all)) = (
    elim from [ inl e ↦ inl e | inr (lo, (hi, r)) ↦ inr (omega arith, (omega arith, r)) ],
    (
      below,
      λ j lo hi runs. elim (Bool-cases (j == i)) [
        | inl here ↦ absurd (clash j here runs)
        | inr later ↦ all j (ground (arith, later)) (omega arith) runs
      ],
    ),
  )
    where
      clash : (j : ℕ) → (j == i) ≡ true → runnable j ≡ true → ⊥
      clash j here runs = both_ways (subst (λ j. runnable j ≡ true) (==→eq j i here) runs) rests

  some-injective : (a b : ℕ × ℤ) → some a ≡ some b → a ≡ b
  some-injective a b e = cc

  all_from :
      (i n : ℕ) (final : ℕ → ℤ) {e : ℤ} (d : ℤ)
      → e ≡ final i
      → lt_int e d ≡ false
      → ((j : ℕ) → i + 1 ≤ j → j < i + 1 + n → runnable j ≡ true → lt_int (final j) d ≡ false)
      → (j : ℕ) → i ≤ j
      → j < i + suc n
      → runnable j ≡ true
      → lt_int (final j) d ≡ false
  all_from i n final d same below all j lo hi runs = elim (Bool-cases (j == i)) [
    | inl here ↦ rw (==→eq j i here) (subst (λ e. lt_int e d ≡ false) same below)
    | inr later ↦ all j (ground (arith, later)) (omega arith) runs
  ]

  lowered :
      (final : ℕ → ℤ) (i n : ℕ) (e : ℤ) (m0 : ℕ) (d0 : ℤ) (out : Choice)
      → lt_int e d0 ≡ true
      → IsLowest final (some (i, e)) (i + 1) n out
      → IsLowest final none i (suc n) out
      → IsLowest final (some (m0, d0)) i (suc n) out
  lowered final i n e m0 d0 none lower (never, all) k = cc
  lowered final i n e m0 d0 (some (m, d)) lower (from, (below, all)) (inl never, k) = cc
  lowered final i n e m0 d0 (some (m, d)) lower (from, (below, all)) (inr from', (u, all')) =
      (inr from', (lt_int_trans d e d0 below (lt_int-asym e d0 lower), all'))

  kept :
      (final : ℕ → ℤ) (i n : ℕ) (e : ℤ) (m0 : ℕ) (d0 : ℤ) (out : Choice)
      → runnable i ≡ true
      → e ≡ final i
      → lt_int e d0 ≡ false
      → IsLowest final (some (m0, d0)) (i + 1) n out
      → IsLowest final (some (m0, d0)) i (suc n) out
  kept final i n e m0 d0 none runs same not_lower (never, all) = cc
  kept final i n e m0 d0 (some (m, d)) runs same not_lower (from, (below, all)) = (
    elim from [ inl first ↦ inl first | inr (lo, (hi, r)) ↦ inr (omega arith, (omega arith, r)) ],
    (below, all_from i n final d same (lt_int_trans d d0 e below not_lower) all),
  )

  -- A priority with `runnable`, with the decay value `e`, is weighed against the choice before.
  weigh_first :
      (final : ℕ → ℤ) (i n : ℕ) (e : ℤ) (out : Choice)
      → runnable i ≡ true
      → e ≡ final i
      → IsLowest final (better i e none) (i + 1) n out
      → IsLowest final none i (suc n) out
  unfolding better
  weigh_first final i n e none runs same (never, all) = cc
  weigh_first final i n e (some (m, d)) runs same (from, (below, all)) = (
    inr (elim from [
      | inl first ↦ from_first m d (some-injective (i, e) (m, d) first)
      | inr (lo, (hi, r)) ↦ (omega arith, (omega arith, r))
    ]),
    (tt, all_from i n final d same below all),
  )
    where
      from_first :
          (m : ℕ) (d : ℤ)
          → ◌≡◌ {A = ℕ × ℤ} (i, e) (m, d)
          → (i ≤ m) × ((m < i + suc n) × ((runnable m ≡ true) × (d ≡ final m)))
      from_first m d eq =
          subst (λ p. (i ≤ p.0) × ((p.0 < i + suc n) × ((runnable p.0 ≡ true) × (p.1 ≡ final p.0))))
            eq (omega arith, (omega arith, (runs, same)))

  weigh :
      (final : ℕ → ℤ) (i n : ℕ) (e : ℤ) (before : Choice) (out : Choice)
      → runnable i ≡ true
      → e ≡ final i
      → IsLowest final (better i e before) (i + 1) n out
      → IsLowest final before i (suc n) out
  unfolding better
  weigh final i n e none out runs same h = weigh_first final i n e out runs same h
  weigh final i n e (some (m0, d0)) out runs same h = elim (Bool-cases (lt_int e d0)) [
    | inl lower ↦
        lowered final i n e m0 d0 out lower (rw (better, lower) at h)
          (weigh_first final i n e out runs same (rw (better, lower) at h))
    | inr not_lower ↦ kept final i n e m0 d0 out runs same not_lower (rw (better, not_lower) at h)
  ]

  pick_loop-IsLowest :
      (n i : ℕ) (decay start : ℕ → ℤ) (before : Choice)
      → ((j : ℕ) → i ≤ j → decay j ≡ start j)
      → IsLowest (decayed start) before i n (pick_loop runnable n i decay before).1
  unfolding pick_loop
  pick_loop-IsLowest zero i decay start none same = (refl, λ j lo hi. absurd (omega arith))
  pick_loop-IsLowest zero i decay start (some (m, d)) same =
      (inl refl, (lt_int_irrefl d, λ j lo hi. absurd (omega arith)))
  pick_loop-IsLowest (suc n) i decay start before same = elim (Bool-cases (runnable i)) [
    | inl runs ↦
        rw (pick_loop, runs)
          (weigh (decayed start) i n (decrement (decay i)) before _ runs
            (ap decrement (same i (omega arith)) ∙ sym (rw (decayed, runs) refl))
            (pick_loop-IsLowest n (i + 1) (set_at decay i (decrement (decay i))) start
              (better i (decrement (decay i)) before)
              (λ j lo. ne_at (decrement (decay i)) i j lo ∙ same j (omega arith))))
    | inr rests ↦
        rw (pick_loop, rests)
          (skip (decayed start) before i n _ rests (
            pick_loop-IsLowest n (i + 1) (set_at decay i (sched_prios i)) start before
              (λ j lo. ne_at (sched_prios i) i j lo ∙ same j (omega arith))))
  ]
    where
      ne_at : (v : ℤ) (i j : ℕ) → i + 1 ≤ j → set_at decay i v j ≡ decay j
      ne_at v i j lo = ground arith

  -- The choice is none exactly where no priority has `runnable`; else it is a priority with it whose
  -- decay value, as the loop leaves it, none of the others undercuts.
  abbrev pub Picks : (ℕ → ℤ) → (ℕ → ℤ) × Choice → Type 0
  Picks decay (decay', none) = (j : ℕ) → j < 32 → (runnable j ≡ false) × (decay' j ≡ sched_prios j)
  Picks decay (decay', some (m, d)) =
      (m < 32)
      × ((runnable m ≡ true)
          × ((d ≡ decay' m)
              × ((j : ℕ)
                  → j < 32
                  → (decay' j ≡ decayed decay j)
                    × (runnable j ≡ true → lt_int (decay' j) d ≡ false))))

-- The loop of `sched_schedule_next` lets each priority with `runnable` decay by one and resets the
-- others. It chooses none exactly where none has it; else it chooses one that has it and whose value
-- then is the lowest of those.
pub pick_loop-Picks :
    (runnable : ℕ → Bool) (decay : ℕ → ℤ)
    → Picks runnable decay (pick_loop runnable 32 0 decay none)
pick_loop-Picks runnable decay =
    picked (pick_loop runnable 32 0 decay none)
      (λ j hi. pick_loop-decayed runnable 32 0 decay none j (omega arith) (omega arith))
      (pick_loop-IsLowest runnable 32 0 decay decay none (λ j lo. refl))
  where
    picked :
        (out : (ℕ → ℤ) × Choice)
        → ((j : ℕ) → j < 32 → out.0 j ≡ decayed runnable decay j)
        → IsLowest runnable (decayed runnable decay) none 0 32 out.1
        → Picks runnable decay out
    picked (decay', none) ends (e, all) = λ j hi. (
      all j (omega arith) (omega arith),
      ends j hi ∙ rw (decayed, all j (omega arith) (omega arith)) refl,
    )
    picked (decay', some (m, d)) ends (inl never, r) = cc
    picked (decay', some (m, d)) ends (inr (lo, (hi, (runs, same))), (u, all)) = (
      omega arith,
      (
        runs,
        (
          same ∙ sym (ends m (omega arith)),
          λ j h. (ends j h, λ r. rw (ends j h) (all j (omega arith) (omega arith) r)),
        ),
      ),
    )
