-- ===== src/Kern/Lock/System.antt =====
-- Threads that call the functions of system/kern/kern_lock.c on one lock, in any order. `CanResume`
-- tells when the wait of a thread may end: what is proved here holds for each choice of it.
use rkernel.Base.{◌==◌, ◌<◌, pos, if◌then◌else◌, ℕ, []}
use rkernel.Kern.Lock.{
  Place, LockType, SharedLock, sl_lock, sl_lock_greedy, sl_unlock, sl_drain, sl_touch,
  sl_lock_internal, lock_woken, drain_loop, empty_loop, returned, holding, queued, waiting,
  draining, emptying, touching,
}

pub record System : Type 0 where
  pub lock : SharedLock
  pub place : ℕ → Place

-- One stretch of thread `i`: from the place it stands at to the next one, with the lock then. A thread
-- unlocks as it has locked.
pub data Move (CanResume : SharedLock → ℕ → Type 0) (i : ℕ) (l : SharedLock)
    : Place → Place × SharedLock → Type 0 where
  call_lock : (r : ℕ) (type : LockType) → Move CanResume i l (returned r) (sl_lock i type l)
  call_lock_greedy :
      (r : ℕ) (type : LockType) → Move CanResume i l (returned r) (sl_lock_greedy i type l)
  call_unlock : (type : LockType) → Move CanResume i l (holding type) (returned 0, sl_unlock type l)
  call_drain : (r : ℕ) → Move CanResume i l (returned r) (sl_drain i l)
  call_touch : (r : ℕ) (type : LockType) → Move CanResume i l (returned r) (sl_touch i type l)
  resume_queued :
      (type : LockType)
      → CanResume l i
      → Move CanResume i l (queued type) (sl_lock_internal i type l)
  resume_waiting :
      (type : LockType) → CanResume l i → Move CanResume i l (waiting type) (lock_woken i type l)
  resume_draining : CanResume l i → Move CanResume i l draining (drain_loop i l)
  resume_emptying : CanResume l i → Move CanResume i l emptying (empty_loop i l)
  resume_touching :
      (type : LockType) → CanResume l i → Move CanResume i l (touching type) (sl_touch i type l)

abbrev pub update : (ℕ → Place) → ℕ → Place → ℕ → Place
update place i p j = if j == i then p else place j

-- The system after a stretch of thread `i` with the outcome `out`.
abbrev pub after : System → ℕ → Place × SharedLock → System
after s i (p, l) = record { lock = l; place = update s.place i p }

pub data Step (CanResume : SharedLock → ℕ → Type 0) (n : ℕ) (s : System) : System → Type 0 where
  step :
      (i : ℕ) (out : Place × SharedLock)
      → i < n
      → Move CanResume i s.lock (s.place i) out
      → Step CanResume n s (after s i out)

-- The lock as it is made, with no thread in it.
abbrev pub start_system : System
start_system = record {
  lock = record { sl_queue = []; sl_number = pos 0; sl_flags = 0 };
  place = λ _. returned 0;
}

pub data Reach (CanResume : SharedLock → ℕ → Type 0) (n : ℕ) : System → Type 0 where
  start : Reach CanResume n start_system
  later : {s t : System} → Reach CanResume n s → Step CanResume n s t → Reach CanResume n t
