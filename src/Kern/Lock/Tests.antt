-- ===== src/Kern/Lock/Tests.antt =====
-- Two threads at one lock, and the theorems there.
use rkernel.Base.{◌<◌, inl, ◌≢◌, ◌≡◌, ℕ, arith, refl, []}
use rkernel.Kern.Lock.{
  LockType, shared, exclusive, holding, returned, sl_lock, sl_drain, sl_touch, SharedLock, enolck,
}
use rkernel.Kern.Wait.{waitqueue_get_first}
use rkernel.Kern.Lock.System.{
  System, Reach, start, later, step, after, call_lock, call_drain, start_system,
}
use rkernel.Kern.Lock.Exclusion.{Counts, holders, InRange, sl_lock_exclusive, sl_number-InRange}
use rkernel.Kern.Lock.Keeps.{IsDrained}
use rkernel.Kern.Lock.{LockType}
use rkernel.Kern.Lock.Drain.{
  RefusesAll, Steps, none_more, one_more, sl_drain-IsDrained, IsDrained-Steps,
}

abbrev Any : SharedLock → ℕ → Type 0
Any l i = Unit

abbrev locked : System
locked = after start_system 0 (sl_lock 0 exclusive start_system.lock)

locked-Reach : Reach Any 2 locked
locked-Reach =
    later start
      (step 0 (sl_lock 0 exclusive start_system.lock) (omega arith) (call_lock 0 exclusive))

locked_first : locked.place 0 ≡ holding exclusive
unfolding sl_lock
locked_first = refl

sl_lock_exclusive_example : locked.place 1 ≢ holding shared
sl_lock_exclusive_example =
    sl_lock_exclusive locked-Reach 0 1 shared (omega arith) (omega arith) (omega arith) locked_first

sl_number-InRange_example :
    InRange 2 locked.lock.sl_number
    × Counts locked.lock.sl_number
        (holders shared 2 locked.place)
        (holders exclusive 2 locked.place)
sl_number-InRange_example = sl_number-InRange locked-Reach

drain_returns : (sl_drain 0 start_system.lock).0 ≡ returned 0
unfolding sl_drain waitqueue_get_first
drain_returns = refl

sl_drain-IsDrained_example :
    IsDrained (sl_drain 0 start_system.lock).1
    × (((sl_drain 0 start_system.lock).1.sl_queue ≡ [])
        × (((j : ℕ) (type : LockType) → j < 2 → start_system.place j ≢ holding type)
            × RefusesAll (sl_drain 0 start_system.lock).1))
sl_drain-IsDrained_example =
    sl_drain-IsDrained {C = Any} {n = 2} start 0 (sl_drain 0 start_system.lock) (inl refl)
      drain_returns

abbrev drained_system : System
drained_system = after start_system 0 (sl_drain 0 start_system.lock)

abbrev refused_system : System
refused_system = after drained_system 1 (sl_lock 1 shared drained_system.lock)

drained-Reach : Reach Any 2 drained_system
drained-Reach = later start (step 0 (sl_drain 0 start_system.lock) (omega arith) (call_drain 0))

refused-Steps : Steps Any 2 drained_system refused_system
unfolding sl_drain waitqueue_get_first
refused-Steps =
    one_more none_more
      (step 1 (sl_lock 1 shared drained_system.lock) (omega arith) (call_lock 0 shared))

IsDrained-Steps_example :
    IsDrained refused_system.lock
    × ((i : ℕ) (type : LockType) → i < 2 → refused_system.place i ≢ holding type)
IsDrained-Steps_example = IsDrained-Steps drained-Reach sl_drain-IsDrained_example.0 refused-Steps

-- On a draining lock `sl_lock` refuses where `sl_touch` succeeds.
lock_refuses : (sl_lock 1 shared drained_system.lock).0 ≡ returned enolck
unfolding sl_lock sl_drain waitqueue_get_first
lock_refuses = refl

touch_succeeds : (sl_touch 1 shared drained_system.lock).0 ≡ returned 0
unfolding sl_touch sl_drain waitqueue_get_first
touch_succeeds = refl
