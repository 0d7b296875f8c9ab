-- ===== src/Kern/Lock/Exclusion.antt =====
-- system/kern/kern_lock.c: `sl_number` counts the threads that hold the lock, and an exclusive holder
-- is alone.
pub mod Count
pub use Count.{Inv, Counts, holders}
use Count.{Move-Counts, Inv-start, holds, holds-le-holders, holders-le, two-holders}
use rkernel.Base.{inr, ◌⊎◌, inl, ◌≡◌, ◌≤◌, ◌≢◌, ◌<◌, ℤ, ℕ, arith, zero, suc, pos, negsuc}
use rkernel.Kern.Lock.{LockType, shared, exclusive, Place, SharedLock, holding}
use rkernel.Kern.Lock.System.{System, Reach, start, later, step}

pub Reach-Inv : {C : SharedLock → ℕ → Type 0} {n : ℕ} {s : System} → Reach C n s → Inv n s
Reach-Inv {n} start = Inv-start n
Reach-Inv {n} (later {s} r (step i out lt mv)) = Move-Counts n i s.place lt mv (Reach-Inv r)

clash : (number : ℤ) {s x : ℕ} → Counts number s x → 1 ≤ x → (1 ≤ s) ⊎ (2 ≤ x) → ⊥
clash (pos k) c one more = omega arith
clash (negsuc k) c one more = omega arith

-- However the calls of the threads interleave and whenever their waits end: while one thread holds the
-- lock exclusively, no other one holds it.
pub sl_lock_exclusive :
    {C : SharedLock → ℕ → Type 0} {n : ℕ} {s : System}
    → Reach C n s
    → (i j : ℕ) (type : LockType) → i < n
    → j < n
    → i ≢ j
    → s.place i ≡ holding exclusive
    → s.place j ≢ holding type
sl_lock_exclusive {n} {s} r i j shared li lj apart own other =
    clash s.lock.sl_number (Reach-Inv r) (rw own at (holds-le-holders exclusive n i s.place li))
      (inl (rw other at (holds-le-holders shared n j s.place lj)))
sl_lock_exclusive {n} {s} r i j exclusive li lj apart own other =
    clash s.lock.sl_number (Reach-Inv r) (rw own at (holds-le-holders exclusive n i s.place li))
      (inr (rw (own, other) at (two-holders exclusive n i j s.place li lj apart)))

abbrev pub InRange : ℕ → ℤ → Type 0
InRange n (pos k) = k ≤ n
InRange n (negsuc k) = k ≡ 0

-- However the calls interleave, `sl_number` is -1 where a thread holds the lock exclusively, and else
-- the number of those that share it; so it never leaves the range from -1 to the number of threads.
pub sl_number-InRange :
    {C : SharedLock → ℕ → Type 0} {n : ℕ} {s : System}
    → Reach C n s
    → InRange n s.lock.sl_number
      × Counts s.lock.sl_number (holders shared n s.place) (holders exclusive n s.place)
sl_number-InRange {n} {s} r = (range s.lock.sl_number (Reach-Inv r), Reach-Inv r)
  where
    range :
        (number : ℤ)
        → Counts number (holders shared n s.place) (holders exclusive n s.place)
        → InRange n number
    range (pos k) c = omega (arith, c.0, holders-le shared n s.place)
    range (negsuc k) c = c.0
