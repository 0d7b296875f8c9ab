-- ===== src/Kern/Lock/Exclusion/Count.antt =====
-- system/kern/kern_lock.c: each stretch of a thread keeps the count of the holders.
use rkernel.Base.{
  ◌≢◌, subst, ◌-◌, ==→eq, negsuc, pos, inr, ◌==◌, refl, inl, ◌≤◌, ◌<◌, ◌+◌, false, Bool-cases, ◌≡◌,
  ℤ, ℕ, arith, zero, suc,
}
use rkernel.Kern.Lock.{
  waiting, draining, touching, queued, emptying, enolck, is_empty, sl_drain, returned, is_zero,
  is_empty, is_draining, sl_unlock, sl_touch, sl_lock_internal, sl_lock_greedy, sl_lock, lock_woken,
  empty_loop, drain_loop, LockType, shared, exclusive, Place, SharedLock, holding, must_wait,
  acquire, lock_loop,
}
use rkernel.Kern.Lock.System.{
  Move, System, update, start_system, call_lock, call_lock_greedy, call_unlock, call_drain,
  call_touch, resume_queued, resume_waiting, resume_draining, resume_emptying, resume_touching,
}

abbrev pub holds : LockType → Place → ℕ
holds shared (holding shared) = 1
holds exclusive (holding exclusive) = 1
holds _ _ = 0

-- How many of the first `n` threads hold the lock in the way `type`.
pub holders : LockType → ℕ → (ℕ → Place) → ℕ
holders type zero place = 0
holders type (suc n) place = holders type n place + holds type (place n)

holders-update_of_le :
    (type : LockType) (n i : ℕ) (place : ℕ → Place) (p : Place)
    → n ≤ i
    → holders type n (update place i p) ≡ holders type n place
unfolding holders
holders-update_of_le type zero i place p h = refl
holders-update_of_le type (suc n) i place p h =
    ground (arith, holders-update_of_le type n i place p)

pub holders-update :
    (type : LockType) (n i : ℕ) (place : ℕ → Place) (p : Place)
    → i < n
    → holders type n (update place i p) + holds type (place i) ≡ holders type n place + holds type p
unfolding holders
holders-update type zero i place p h = absurd (omega arith)
holders-update type (suc n) i place p h = elim (Bool-cases (n == i)) [
  | inl last ↦ ground (arith, last, holders-update_of_le type n i place p)
  | inr below ↦ ground (arith, below, holders-update type n i place p)
]

pub holds-le-holders :
    (type : LockType) (n i : ℕ) (place : ℕ → Place)
    → i < n
    → holds type (place i) ≤ holders type n place
unfolding holders
holds-le-holders type zero i place h = absurd (omega arith)
holds-le-holders type (suc n) i place h = elim (Bool-cases (n == i)) [
  | inl last ↦ rw (==→eq n i last) (omega arith)
  | inr below ↦ omega (arith, holds-le-holders type n i place (ground (arith, below)))
]

holds-le : (type : LockType) (p : Place) → holds type p ≤ 1
holds-le type p = ground arith

pub holders-le : (type : LockType) (n : ℕ) (place : ℕ → Place) → holders type n place ≤ n
unfolding holders
holders-le type zero place = omega arith
holders-le type (suc n) place = omega (arith, holders-le type n place, holds-le type (place n))

-- Two threads count twice.
pub two-holders :
    (type : LockType) (n i j : ℕ) (place : ℕ → Place)
    → i < n
    → j < n
    → i ≢ j
    → holds type (place i) + holds type (place j) ≤ holders type n place
unfolding holders
two-holders type zero i j place li lj apart = absurd (omega arith)
two-holders type (suc n) i j place li lj apart = elim (Bool-cases (n == i)) [
  | inl last ↦
      rw (==→eq n i last) (omega (arith, holds-le-holders type i j place (ground (arith, last))))
  | inr below ↦ elim (Bool-cases (n == j)) [
    | inl last ↦
        rw (==→eq n j last) (omega (arith, holds-le-holders type j i place (ground (arith, last))))
    | inr below_too ↦ omega (
      arith,
      two-holders type n i j place (ground (arith, below)) (ground (arith, below_too)) apart,
    )
  ]
]

-- What the number says of the shared holders `s` and the exclusive ones `x`.
abbrev pub Counts : ℤ → ℕ → ℕ → Type 0
Counts (pos k) s x = (s ≡ k) × (x ≡ 0)
Counts (negsuc k) s x = (k ≡ 0) × ((s ≡ 0) × (x ≡ 1))

abbrev pub Inv : ℕ → System → Type 0
Inv n s = Counts s.lock.sl_number (holders shared n s.place) (holders exclusive n s.place)

pub Inv-start : (n : ℕ) → Inv n start_system
unfolding holders
Inv-start zero = (refl, refl)
Inv-start (suc n) = omega (arith, Inv-start n)

-- The number behind a stretch that takes a thread from `p` to `q`.
abbrev Moved : ℤ → Place → Place × SharedLock → Type 0
Moved number p (q, l) =
    (s x : ℕ)
    → Counts number (s + holds shared p) (x + holds exclusive p)
    → Counts l.sl_number (s + holds shared q) (x + holds exclusive q)

abbrev IsOutside : Place → Type 0
IsOutside p = (holds shared p ≡ 0) × (holds exclusive p ≡ 0)

acquire-Moved :
    (type : LockType) (l : SharedLock) (p : Place)
    → IsOutside p
    → must_wait type l.sl_number ≡ false
    → Moved l.sl_number p (acquire type l)
unfolding acquire
acquire-Moved type l p out free s x = by_number type l.sl_number free
  where
    by_number :
        (type : LockType) (number : ℤ)
        → must_wait type number ≡ false
        → Counts number (s + holds shared p) (x + holds exclusive p)
        → Counts
            (acquire type (record l { sl_number = number })).1.sl_number
            (s + holds shared (acquire type l).0)
            (x + holds exclusive (acquire type l).0)
    by_number shared (pos k) free c = omega arith
    by_number shared (negsuc k) free c = cc
    by_number exclusive (pos k) free c = ground arith
    by_number exclusive (negsuc k) free c = cc

lock_loop-Moved :
    (i : ℕ) (type : LockType) (l : SharedLock) (p : Place)
    → IsOutside p
    → Moved l.sl_number p (lock_loop i type l)
unfolding lock_loop
lock_loop-Moved i type l p out s x c = elim (Bool-cases (must_wait type l.sl_number)) [
  | inl busy ↦ rw busy (ground arith)
  | inr free ↦ rw free (acquire-Moved type l p out free s x c)
]

-- A stretch that leaves the number alone and the thread outside.
stays :
    (number : ℤ) (p q : Place) (s x : ℕ)
    → IsOutside p
    → IsOutside q
    → Counts number (s + holds shared p) (x + holds exclusive p)
    → Counts number (s + holds shared q) (x + holds exclusive q)
stays (pos k) p q s x a b c = omega arith
stays (negsuc k) p q s x a b c = omega arith

sl_lock_internal-Moved :
    (i : ℕ) (type : LockType) (l : SharedLock) (p : Place)
    → IsOutside p
    → Moved l.sl_number p (sl_lock_internal i type l)
unfolding sl_lock_internal
sl_lock_internal-Moved i type l p out s x c = elim (Bool-cases (is_draining l)) [
  | inl drain ↦ rw drain (stays l.sl_number p (returned enolck) s x out (refl, refl) c)
  | inr open_lock ↦ rw open_lock (lock_loop-Moved i type l p out s x c)
]

lock_woken-Moved :
    (i : ℕ) (type : LockType) (l : SharedLock) (p : Place)
    → IsOutside p
    → Moved l.sl_number p (lock_woken i type l)
unfolding lock_woken
lock_woken-Moved i type l p out s x c = elim (Bool-cases (is_draining l)) [
  | inl drain ↦ rw drain (stays l.sl_number p (returned enolck) s x out (refl, refl) c)
  | inr open_lock ↦ rw open_lock (lock_loop-Moved i type l p out s x c)
]

sl_lock-Moved :
    (i : ℕ) (type : LockType) (l : SharedLock) (p : Place)
    → IsOutside p
    → Moved l.sl_number p (sl_lock i type l)
unfolding sl_lock
sl_lock-Moved i type l p out s x c = elim (Bool-cases (is_draining l)) [
  | inl drain ↦ rw drain (stays l.sl_number p (returned enolck) s x out (refl, refl) c)
  | inr open_lock ↦ elim (Bool-cases (is_empty l.sl_queue)) [
    | inl none_waits ↦ rw (open_lock, none_waits) (lock_loop-Moved i type l p out s x c)
    | inr some_wait ↦
        rw (open_lock, some_wait) (stays l.sl_number p (queued type) s x out (refl, refl) c)
  ]
]

drain_loop-Moved :
    (i : ℕ) (l : SharedLock) (p : Place) → IsOutside p → Moved l.sl_number p (drain_loop i l)
unfolding drain_loop empty_loop
drain_loop-Moved i l p out s x c = elim (Bool-cases (is_zero l.sl_number)) [
  | inl free ↦ elim (Bool-cases (is_empty l.sl_queue)) [
    | inl none_waits ↦
        rw (free, none_waits) (stays l.sl_number p (returned 0) s x out (refl, refl) c)
    | inr some_wait ↦ rw (free, some_wait) (stays l.sl_number p emptying s x out (refl, refl) c)
  ]
  | inr busy ↦ rw busy (stays l.sl_number p draining s x out (refl, refl) c)
]

empty_loop-Moved :
    (i : ℕ) (l : SharedLock) (p : Place) → IsOutside p → Moved l.sl_number p (empty_loop i l)
unfolding empty_loop
empty_loop-Moved i l p out s x c = elim (Bool-cases (is_empty l.sl_queue)) [
  | inl none_waits ↦ rw none_waits (stays l.sl_number p (returned 0) s x out (refl, refl) c)
  | inr some_wait ↦ rw some_wait (stays l.sl_number p emptying s x out (refl, refl) c)
]

sl_touch-Moved :
    (i : ℕ) (type : LockType) (l : SharedLock) (p : Place)
    → IsOutside p
    → Moved l.sl_number p (sl_touch i type l)
unfolding sl_touch
sl_touch-Moved i type l p out s x c = elim (Bool-cases (must_wait type l.sl_number)) [
  | inl busy ↦ rw busy (stays l.sl_number p (touching type) s x out (refl, refl) c)
  | inr free ↦ rw free (stays l.sl_number p (returned 0) s x out (refl, refl) c)
]

sl_unlock-Moved :
    (type : LockType) (number : ℤ) (l : SharedLock)
    → l.sl_number ≡ number
    → Moved number (holding type) (returned 0, sl_unlock type l)
unfolding sl_unlock
sl_unlock-Moved shared (pos zero) l e s x c = absurd (omega (arith, c.0))
sl_unlock-Moved shared (pos (suc k)) l e s x c = rw e (omega arith)
sl_unlock-Moved shared (negsuc k) l e s x c = absurd (omega (arith, c.1.0))
sl_unlock-Moved exclusive (pos k) l e s x c = absurd (omega (arith, c.1))
sl_unlock-Moved exclusive (negsuc k) l e s x c = omega arith

Move-Moved :
    {C : SharedLock → ℕ → Type 0} {i : ℕ} {l : SharedLock} {p : Place} {out : Place × SharedLock}
    → Move C i l p out
    → Moved l.sl_number p out
unfolding sl_lock_greedy sl_drain
Move-Moved {i} {l} (call_lock r type) = sl_lock-Moved i type l (returned r) (refl, refl)
Move-Moved {i} {l} (call_lock_greedy r type) =
    sl_lock_internal-Moved i type l (returned r) (refl, refl)
Move-Moved {l} (call_unlock type) = sl_unlock-Moved type l.sl_number l refl
Move-Moved {i} (call_drain r) = drain_loop-Moved i _ (returned r) (refl, refl)
Move-Moved {i} {l} (call_touch r type) = sl_touch-Moved i type l (returned r) (refl, refl)
Move-Moved {i} {l} (resume_queued type _) =
    sl_lock_internal-Moved i type l (queued type) (refl, refl)
Move-Moved {i} {l} (resume_waiting type _) = lock_woken-Moved i type l (waiting type) (refl, refl)
Move-Moved {i} {l} (resume_draining _) = drain_loop-Moved i l draining (refl, refl)
Move-Moved {i} {l} (resume_emptying _) = empty_loop-Moved i l emptying (refl, refl)
Move-Moved {i} {l} (resume_touching type _) = sl_touch-Moved i type l (touching type) (refl, refl)

-- The thread's own share taken out of the count.
pub Move-Counts :
    {C : SharedLock → ℕ → Type 0} (n i : ℕ) (place : ℕ → Place) {l : SharedLock}
    {out : Place × SharedLock}
    → i < n
    → Move C i l (place i) out
    → Counts l.sl_number (holders shared n place) (holders exclusive n place)
    → Counts out.1.sl_number
        (holders shared n (update place i out.0))
        (holders exclusive n (update place i out.0))
Move-Counts n i place {l} {out} lt mv c =
    subst (λ s. Counts out.1.sl_number s (holders exclusive n (update place i out.0)))
      (omega (arith, holders-update shared n i place out.0 lt, share shared))
      (subst (λ x. Counts out.1.sl_number (rest shared + holds shared out.0) x)
        (omega (arith, holders-update exclusive n i place out.0 lt, share exclusive))
        (Move-Moved mv (rest shared) (rest exclusive) (
          subst (λ s. Counts l.sl_number s (rest exclusive + holds exclusive (place i)))
            (omega (arith, share shared))
            (subst (λ x. Counts l.sl_number (holders shared n place) x)
              (omega (arith, share exclusive)) c))))
  where
    rest : LockType → ℕ
    rest type = holders type n place - holds type (place i)

    share : (type : LockType) → holds type (place i) ≤ holders type n place
    share type = holds-le-holders type n i place lt
