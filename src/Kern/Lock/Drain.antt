-- ===== src/Kern/Lock/Drain.antt =====
-- system/kern/kern_lock.c: what `sl_drain` waits for, and that it stays.
use rkernel.Base.{
  ap, ◌∙◌, ◌∷◌, sym, subst, if◌then◌else◌, ◌⊎◌, ◌<◌, [], List, ◌==◌, inr, inl, ◌≤◌, true, refl,
  bit_or, Bool-cases, ◌≢◌, ◌≡◌, ℤ, ℕ, arith, zero, suc, pos, negsuc,
}
use rkernel.Kern.Lock.{
  enolck, lock_woken, sl_lock_internal, LockType, shared, exclusive, Place, SharedLock, returned,
  holding, draining, emptying, queued, waiting, touching, is_draining, is_empty, is_zero, wait,
  wake_next, empty_loop, drain_loop, sl_drain, sl_flag_drain,
}
use rkernel.Kern.Lock.System.{System, Move, Step, step, Reach, start, later}
use rkernel.Kern.Lock.Exclusion.{Inv, Counts, holders, Reach-Inv}
use rkernel.Kern.Lock.Exclusion.Count.{holds, holds-le-holders}
use rkernel.Kern.Lock.Keeps.{IsDrained, Claims, Keeps, flagged, is_zero-pos, Move-Keeps}

Claims-later :
    (q : Place) (l : SharedLock) (out : Place × SharedLock)
    → Keeps l out
    → Claims q l
    → Claims q out.1
Claims-later draining l out k c = k.0 c
Claims-later emptying l out k c = (k.0 c.0, k.1.0 c)
Claims-later (returned r) l out k c = tt
Claims-later (holding type) l out k c = tt
Claims-later (queued type) l out k c = tt
Claims-later (waiting type) l out k c = tt
Claims-later (touching type) l out k c = tt

abbrev AllClaim : System → Type 0
AllClaim s = (j : ℕ) → Claims (s.place j) s.lock

number_held :
    (number : ℤ) (s x : ℕ) (type : LockType)
    → Counts number s x
    → holds type (holding type) ≤ (elim type as (λ t. ℕ) [ shared ↦ s | exclusive ↦ x ])
    → number ≢ pos 0
number_held (pos zero) s x shared c h e = omega arith
number_held (pos (suc k)) s x shared c h e = cc
number_held (pos k) s x exclusive c h e = omega (arith, c.1)
number_held (negsuc k) s x type c h e = cc

held :
    {n : ℕ} (s : System)
    → Inv n s
    → (i : ℕ) → i < n
    → (type : LockType) → s.place i ≡ holding type
    → s.lock.sl_number ≢ pos 0
held {n} s inv i lt shared e =
    number_held s.lock.sl_number (holders shared n s.place) (holders exclusive n s.place) shared inv
      (rw e at (holds-le-holders shared n i s.place lt))
held {n} s inv i lt exclusive e =
    number_held s.lock.sl_number (holders shared n s.place) (holders exclusive n s.place) exclusive
      inv (rw e at (holds-le-holders exclusive n i s.place lt))

step-Keeps :
    {C : SharedLock → ℕ → Type 0} {n : ℕ} (s : System) {i : ℕ} {out : Place × SharedLock}
    → Inv n s
    → AllClaim s
    → i < n
    → Move C i s.lock (s.place i) out
    → Keeps s.lock out
step-Keeps {n} s {i} inv claims lt mv = Move-Keeps mv (held s inv i lt) (claims i)

Reach-AllClaim : {C : SharedLock → ℕ → Type 0} {n : ℕ} {s : System} → Reach C n s → AllClaim s
Reach-AllClaim start j = tt
Reach-AllClaim (later {s} r (step i out lt mv)) j = elim (Bool-cases (j == i)) [
  | inl mine ↦ rw mine (step-Keeps s (Reach-Inv r) (Reach-AllClaim r) lt mv).1.1
  | inr other ↦ rw other (
      Claims-later (s.place j) s.lock out (step-Keeps s (Reach-Inv r) (Reach-AllClaim r) lt mv)
        (Reach-AllClaim r j))
]

-- The ways in which the last stretch of `sl_drain` comes about.
abbrev pub DrainEnds : ℕ → System → Place × SharedLock → Type 0
DrainEnds i s out =
    (out ≡ sl_drain i s.lock)
    ⊎ (((s.place i ≡ draining) × (out ≡ drain_loop i s.lock))
        ⊎ ((s.place i ≡ emptying) × (out ≡ empty_loop i s.lock)))

abbrev IsDone : Place × SharedLock → Type 0
IsDone (q, l) = (q ≡ returned 0) → IsDrained l × (l.sl_queue ≡ [])

empty_loop-IsDone : (i : ℕ) (l : SharedLock) → IsDrained l → IsDone (empty_loop i l)
unfolding empty_loop
empty_loop-IsDone i l d = by_queue l.sl_queue refl
  where
    by_queue :
        (q : List ℕ)
        → l.sl_queue ≡ q
        → IsDone (if is_empty q then (returned 0, l) else (emptying, wait i true l))
    by_queue [] e back = (d, e)
    by_queue (x ∷ q) e back = cc

drain_loop-IsDone : (i : ℕ) (l : SharedLock) → is_draining l ≡ true → IsDone (drain_loop i l)
unfolding drain_loop
drain_loop-IsDone i l d = elim (Bool-cases (is_zero l.sl_number)) [
  | inl free ↦ rw free (empty_loop-IsDone i l (d, is_zero-pos l.sl_number free))
  | inr busy ↦ rw busy (λ back. cc)
]

DrainEnds-IsDone :
    {C : SharedLock → ℕ → Type 0} {n : ℕ} {s : System}
    → Reach C n s
    → (i : ℕ) (out : Place × SharedLock) → DrainEnds i s out
    → out.0 ≡ returned 0
    → IsDrained out.1 × (out.1.sl_queue ≡ [])
unfolding sl_drain
DrainEnds-IsDone {s} r i out (inl e) back =
    subst IsDone (sym e)
      (drain_loop-IsDone i
        (wake_next (record s.lock { sl_flags = bit_or s.lock.sl_flags sl_flag_drain }))
        (flagged s.lock.sl_flags))
      back
DrainEnds-IsDone {s} r i out (inr (inl (at_loop, e))) back =
    subst IsDone (sym e)
      (drain_loop-IsDone i s.lock (subst (λ p. Claims p s.lock) at_loop (Reach-AllClaim r i))) back
DrainEnds-IsDone {s} r i out (inr (inr (at_loop, e))) back =
    subst IsDone (sym e)
      (empty_loop-IsDone i s.lock (subst (λ p. Claims p s.lock) at_loop (Reach-AllClaim r i))) back

empty_loop-number : (i : ℕ) (l : SharedLock) → (empty_loop i l).1.sl_number ≡ l.sl_number
unfolding empty_loop
empty_loop-number i l = elim (Bool-cases (is_empty l.sl_queue)) [
  | inl none_waits ↦ rw none_waits refl
  | inr some_wait ↦ rw some_wait refl
]

drain_loop-number : (i : ℕ) (l : SharedLock) → (drain_loop i l).1.sl_number ≡ l.sl_number
unfolding drain_loop
drain_loop-number i l = elim (Bool-cases (is_zero l.sl_number)) [
  | inl free ↦ rw free (empty_loop-number i l)
  | inr busy ↦ rw busy refl
]

-- No stretch of `sl_drain` changes the number.
DrainEnds-number :
    (i : ℕ) (s : System) (out : Place × SharedLock)
    → DrainEnds i s out
    → out.1.sl_number ≡ s.lock.sl_number
unfolding sl_drain
DrainEnds-number i s out (inl e) =
    ap (λ (o : Place × SharedLock). o.1.sl_number) e
    ∙ drain_loop-number i
        (wake_next (record s.lock { sl_flags = bit_or s.lock.sl_flags sl_flag_drain }))
DrainEnds-number i s out (inr (inl (at_loop, e))) =
    ap (λ (o : Place × SharedLock). o.1.sl_number) e ∙ drain_loop-number i s.lock
DrainEnds-number i s out (inr (inr (at_loop, e))) =
    ap (λ (o : Place × SharedLock). o.1.sl_number) e ∙ empty_loop-number i s.lock

-- A thread that goes on behind its wait for the lock, or in front of it, is refused.
abbrev pub RefusesAll : SharedLock → Type 0
RefusesAll l =
    (j : ℕ) (type : LockType)
    → ((lock_woken j type l).0 ≡ returned enolck)
      × ((sl_lock_internal j type l).0 ≡ returned enolck)

draining-RefusesAll : (l : SharedLock) → is_draining l ≡ true → RefusesAll l
unfolding lock_woken sl_lock_internal
draining-RefusesAll l d j type = (rw d refl, rw d refl)

pub sl_drain-IsDrained :
    {C : SharedLock → ℕ → Type 0} {n : ℕ} {s : System}
    → Reach C n s
    → (i : ℕ) (out : Place × SharedLock) → DrainEnds i s out
    → out.0 ≡ returned 0
    → IsDrained out.1
      × ((out.1.sl_queue ≡ [])
          × (((j : ℕ) (type : LockType) → j < n → s.place j ≢ holding type) × RefusesAll out.1))
sl_drain-IsDrained {s} r i out ends back =
    let (done, none_left) = DrainEnds-IsDone r i out ends back in
    (
      done,
      (
        none_left,
        (
          λ j type lt e.
              held s (Reach-Inv r) j lt type e (sym (DrainEnds-number i s out ends) ∙ done.1),
          draining-RefusesAll out.1 done.0,
        ),
      ),
    )

pub data Steps (C : SharedLock → ℕ → Type 0) (n : ℕ) (s : System) : System → Type 0 where
  none_more : Steps C n s s
  one_more : {t u : System} → Steps C n s t → Step C n t u → Steps C n s u

Reach-Steps :
    {C : SharedLock → ℕ → Type 0} {n : ℕ} {s t : System} → Reach C n s → Steps C n s t → Reach C n t
Reach-Steps r none_more = r
Reach-Steps r (one_more st last) = later (Reach-Steps r st) last

drained :
    {C : SharedLock → ℕ → Type 0} {n : ℕ} {s t : System}
    → Reach C n s
    → IsDrained s.lock
    → Steps C n s t
    → IsDrained t.lock
drained r d none_more = d
drained r d (one_more {t} st (step i out lt mv)) =
    let before = drained r d st in
    let reached = Reach-Steps r st in
    let keeps = step-Keeps t (Reach-Inv reached) (Reach-AllClaim reached) lt mv in
    (keeps.0 before.0, keeps.1.0 before)

-- A drained lock stays drained, whatever the threads do: no thread ever holds it again.
pub IsDrained-Steps :
    {C : SharedLock → ℕ → Type 0} {n : ℕ} {s t : System}
    → Reach C n s
    → IsDrained s.lock
    → Steps C n s t
    → IsDrained t.lock × ((i : ℕ) (type : LockType) → i < n → t.place i ≢ holding type)
IsDrained-Steps {t} r d st = (
  drained r d st,
  λ i type lt e. held t (Reach-Inv (Reach-Steps r st)) i lt type e (drained r d st).1,
)
