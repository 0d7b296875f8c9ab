-- ===== src/Kern/Lock.antt =====
-- system/kern/kern_lock.c: locks that several threads share or that one holds alone. Between taking
-- `sl_lock` and letting it go, in `kernlock_unlock` or in `waitqueue_wait`, a thread runs alone: each
-- such stretch is one function here, and it ends with the place where the thread stands then.
pub mod System
pub mod Exclusion
pub mod Keeps
pub mod Drain
mod Tests
use rkernel.Base.{
  increment, decrement, zero, [], ◌∷◌, ◌==◌, suc, false, bit_and, true, pos, not, negsuc,
  if◌then◌else◌, bit_or, ℤ, ℕ, Bool,
}
use rkernel.Kern.Wait.{WaitQueue, waitqueue_enter, waitqueue_get_first}

-- `SL_TYPE_SHARED` and `SL_TYPE_EXCLUSIVE`
pub data LockType : Type 0 where
  shared exclusive : LockType

pub record SharedLock : Type 0 where
  pub sl_queue : WaitQueue
  pub sl_number : ℤ
  pub sl_flags : ℕ

abbrev pub sl_flag_drain : ℕ
sl_flag_drain = 1

abbrev pub enolck : ℕ
enolck = 77

-- Where a thread stands outside of these stretches.
pub data Place : Type 0 where
  returned : ℕ → Place  -- no call is open; the last one returned this
  holding : LockType → Place  -- a call to lock returned 0
  queued : LockType → Place  -- in the wait of `sl_lock` for fairness
  waiting : LockType → Place  -- in the loop of `sl_lock_internal`
  draining : Place  -- in the first loop of `sl_drain`
  emptying : Place  -- in the second loop of `sl_drain`
  touching : LockType → Place  -- in the loop of `sl_touch`

abbrev pub is_draining : SharedLock → Bool
is_draining lock = not (bit_and lock.sl_flags sl_flag_drain == 0)

-- The tests of the loops: `sl_number<0` and `sl_number!=0`.
abbrev pub is_negative : ℤ → Bool
is_negative (pos n) = false
is_negative (negsuc n) = true

abbrev pub is_zero : ℤ → Bool
is_zero (pos n) = n == 0
is_zero (negsuc n) = false

abbrev pub must_wait : LockType → ℤ → Bool
must_wait shared number = is_negative number
must_wait exclusive number = not (is_zero number)

abbrev pub wake_next : SharedLock → SharedLock
wake_next lock = record lock { sl_queue = (waitqueue_get_first lock.sl_queue).1 }

abbrev pub wait : ℕ → Bool → SharedLock → SharedLock
wait self after lock = record lock { sl_queue = waitqueue_enter lock.sl_queue self after }

-- What follows the loop of `sl_lock_internal`.
unfoldable pub acquire : LockType → SharedLock → Place × SharedLock
acquire shared lock =
    (holding shared, wake_next (record lock { sl_number = increment lock.sl_number }))
acquire exclusive lock = (holding exclusive, record lock { sl_number = negsuc 0 })

-- The head of that loop.
unfoldable pub lock_loop : ℕ → LockType → SharedLock → Place × SharedLock
unfolding acquire
lock_loop self type lock =
    if must_wait type lock.sl_number
    then (waiting type, wait self false lock)
    else acquire type lock

unfoldable pub sl_lock_internal : ℕ → LockType → SharedLock → Place × SharedLock
unfolding lock_loop
sl_lock_internal self type lock =
    if is_draining lock then (returned enolck, lock) else lock_loop self type lock

-- What follows the wait in the loop.
unfoldable pub lock_woken : ℕ → LockType → SharedLock → Place × SharedLock
unfolding lock_loop
lock_woken self type lock =
    if is_draining lock then (returned enolck, wake_next lock) else lock_loop self type lock

abbrev pub is_empty : WaitQueue → Bool
is_empty [] = true
is_empty (x ∷ xs) = false

unfoldable pub sl_lock : ℕ → LockType → SharedLock → Place × SharedLock
unfolding sl_lock_internal
sl_lock self type lock =
    if is_draining lock
    then (returned enolck, lock)
    else if is_empty lock.sl_queue
    then sl_lock_internal self type lock
    else (queued type, wait self true lock)

unfoldable pub sl_lock_greedy : ℕ → LockType → SharedLock → Place × SharedLock
unfolding sl_lock_internal
sl_lock_greedy self type lock = sl_lock_internal self type lock

unfoldable pub sl_unlock : LockType → SharedLock → SharedLock
sl_unlock shared lock = wake_next (record lock { sl_number = decrement lock.sl_number })
sl_unlock exclusive lock = wake_next (record lock { sl_number = pos 0 })

-- The second loop of `sl_drain`, and the first, which it follows.
unfoldable pub empty_loop : ℕ → SharedLock → Place × SharedLock
empty_loop self lock =
    if is_empty lock.sl_queue then (returned 0, lock) else (emptying, wait self true lock)

unfoldable pub drain_loop : ℕ → SharedLock → Place × SharedLock
unfolding empty_loop
drain_loop self lock =
    if is_zero lock.sl_number then empty_loop self lock else (draining, wait self true lock)

unfoldable pub sl_drain : ℕ → SharedLock → Place × SharedLock
unfolding drain_loop
sl_drain self lock =
    drain_loop self (wake_next (record lock { sl_flags = bit_or lock.sl_flags sl_flag_drain }))

-- `sl_touch`, from the start and behind its wait alike.
unfoldable pub sl_touch : ℕ → LockType → SharedLock → Place × SharedLock
sl_touch self type lock =
    if must_wait type lock.sl_number
    then (touching type, wait self false lock)
    else (returned 0, wake_next lock)
