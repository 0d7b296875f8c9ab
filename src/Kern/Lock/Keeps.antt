-- ===== src/Kern/Lock/Keeps.antt =====
-- system/kern/kern_lock.c: what each stretch of a thread keeps of a lock that drains.
use rkernel.Base.{
  ◌==◌, inr, ==→eq, inl, bit_and, ap, true, refl, not, false, bit_or, Bool-cases, ◌≢◌, ◌≡◌, ◌∙◌, ℤ,
  ℕ, pos, negsuc,
}
use rkernel.Base.Bits.{bit_and-bit_or-pow}
use rkernel.Kern.Lock.{
  LockType, shared, exclusive, Place, SharedLock, returned, holding, draining, emptying,
  is_draining, is_empty, is_zero, must_wait, wake_next, sl_lock, sl_lock_greedy, sl_lock_internal,
  lock_woken, lock_loop, empty_loop, drain_loop, sl_drain, sl_touch, sl_unlock, sl_flag_drain,
}
use rkernel.Kern.Lock.System.{
  Move, call_lock, call_lock_greedy, call_unlock, call_drain, call_touch, resume_queued,
  resume_waiting, resume_draining, resume_emptying, resume_touching,
}

-- The lock is draining and nobody holds it.
abbrev pub IsDrained : SharedLock → Type 0
IsDrained l = (is_draining l ≡ true) × (l.sl_number ≡ pos 0)

-- What the places in `sl_drain` say of the lock.
abbrev pub Claims : Place → SharedLock → Type 0
Claims draining l = is_draining l ≡ true
Claims emptying l = IsDrained l
Claims _ l = Unit

-- What a stretch of a thread keeps.
abbrev pub Keeps : SharedLock → Place × SharedLock → Type 0
Keeps l (q, l') =
    ((is_draining l ≡ true) → is_draining l' ≡ true)
    × ((IsDrained l → l'.sl_number ≡ pos 0) × Claims q l')

pub flagged : (flags : ℕ) → not (bit_and (bit_or flags 1) 1 == 0) ≡ true
flagged flags = rw (bit_and-bit_or-pow 0 0 flags) refl

pub is_zero-pos : (number : ℤ) → is_zero number ≡ true → number ≡ pos 0
is_zero-pos (pos n) e = ap pos (==→eq n 0 e)
is_zero-pos (negsuc n) e = cc

empty_loop-Keeps : (i : ℕ) (l : SharedLock) → IsDrained l → Keeps l (empty_loop i l)
unfolding empty_loop
empty_loop-Keeps i l d = elim (Bool-cases (is_empty l.sl_queue)) [
  | inl none_waits ↦ rw none_waits ((λ e. e), ((λ e. e.1), tt))
  | inr some_wait ↦ rw some_wait ((λ e. e), ((λ e. e.1), d))
]

drain_loop-Keeps : (i : ℕ) (l : SharedLock) → is_draining l ≡ true → Keeps l (drain_loop i l)
unfolding drain_loop
drain_loop-Keeps i l d = elim (Bool-cases (is_zero l.sl_number)) [
  | inl free ↦ rw free (empty_loop-Keeps i l (d, is_zero-pos l.sl_number free))
  | inr busy ↦ rw busy ((λ e. e), ((λ e. e.1), d))
]

sl_touch-Keeps : (i : ℕ) (type : LockType) (l : SharedLock) → Keeps l (sl_touch i type l)
unfolding sl_touch
sl_touch-Keeps i type l = elim (Bool-cases (must_wait type l.sl_number)) [
  | inl busy ↦ rw busy ((λ e. e), ((λ e. e.1), tt))
  | inr free ↦ rw free ((λ e. e), ((λ e. e.1), tt))
]

-- Locking leaves a draining lock alone, but for its queue.
abbrev Refuses : SharedLock → Place × SharedLock → Type 0
Refuses l (q, l') =
    (l'.sl_flags ≡ l.sl_flags)
    × (((is_draining l ≡ true) → l'.sl_number ≡ l.sl_number) × Claims q l')

lock_loop-Refuses :
    (i : ℕ) (type : LockType) (l : SharedLock)
    → is_draining l ≡ false
    → Refuses l (lock_loop i type l)
unfolding lock_loop
lock_loop-Refuses i shared l open_lock = elim (Bool-cases (must_wait shared l.sl_number)) [
  | inl busy ↦ rw busy (refl, ((λ e. refl), tt))
  | inr free ↦ rw free (refl, ((λ e. cc), tt))
]
lock_loop-Refuses i exclusive l open_lock = elim (Bool-cases (must_wait exclusive l.sl_number)) [
  | inl busy ↦ rw busy (refl, ((λ e. refl), tt))
  | inr free ↦ rw free (refl, ((λ e. cc), tt))
]

refused : (l : SharedLock) (out : Place × SharedLock) → Refuses l out → Keeps l out
refused l (q, l') (flags, (number, claims)) = ((λ e. rw flags e), ((λ d. number d.0 ∙ d.1), claims))

sl_lock_internal-Refuses :
    (i : ℕ) (type : LockType) (l : SharedLock) → Refuses l (sl_lock_internal i type l)
unfolding sl_lock_internal
sl_lock_internal-Refuses i type l = elim (Bool-cases (is_draining l)) [
  | inl drain ↦ rw drain (refl, ((λ e. refl), tt))
  | inr open_lock ↦ rw open_lock (rw open_lock at (lock_loop-Refuses i type l open_lock))
]

lock_woken-Refuses : (i : ℕ) (type : LockType) (l : SharedLock) → Refuses l (lock_woken i type l)
unfolding lock_woken
lock_woken-Refuses i type l = elim (Bool-cases (is_draining l)) [
  | inl drain ↦ rw drain (refl, ((λ e. refl), tt))
  | inr open_lock ↦ rw open_lock (rw open_lock at (lock_loop-Refuses i type l open_lock))
]

sl_lock-Refuses : (i : ℕ) (type : LockType) (l : SharedLock) → Refuses l (sl_lock i type l)
unfolding sl_lock
sl_lock-Refuses i type l = elim (Bool-cases (is_draining l)) [
  | inl drain ↦ rw drain (refl, ((λ e. refl), tt))
  | inr open_lock ↦ elim (Bool-cases (is_empty l.sl_queue)) [
    | inl none_waits ↦
        rw (open_lock, none_waits) (rw open_lock at (lock_loop-Refuses i type l open_lock))
    | inr some_wait ↦ rw (open_lock, some_wait) (refl, ((λ e. refl), tt))
  ]
]

sl_drain-Keeps : (i : ℕ) (l : SharedLock) → Keeps l (sl_drain i l)
unfolding sl_drain
sl_drain-Keeps i l = flag_set (drain_loop-Keeps i flagged_lock (flagged l.sl_flags))
  where
    flagged_lock : SharedLock
    flagged_lock = wake_next (record l { sl_flags = bit_or l.sl_flags sl_flag_drain })

    flag_set : Keeps flagged_lock (drain_loop i flagged_lock) → Keeps l (drain_loop i flagged_lock)
    flag_set (flag, (number, claims)) =
        ((λ e. flag (flagged l.sl_flags)), ((λ d. number (flagged l.sl_flags, d.1)), claims))

-- Only a holder unlocks, and a drained lock has none.
sl_unlock-Keeps :
    (type : LockType) (l : SharedLock)
    → (l.sl_number ≢ pos 0)
    → Keeps l (returned 0, sl_unlock type l)
unfolding sl_unlock
sl_unlock-Keeps shared l held = ((λ e. e), ((λ d. absurd (held d.1)), tt))
sl_unlock-Keeps exclusive l held = ((λ e. e), ((λ d. refl), tt))

pub Move-Keeps :
    {C : SharedLock → ℕ → Type 0} {i : ℕ} {l : SharedLock} {p : Place} {out : Place × SharedLock}
    → Move C i l p out
    → ((type : LockType) → p ≡ holding type → l.sl_number ≢ pos 0)
    → Claims p l
    → Keeps l out
unfolding sl_lock_greedy
Move-Keeps {i} {l} {out} (call_lock r type) held c = refused l out (sl_lock-Refuses i type l)
Move-Keeps {i} {l} {out} (call_lock_greedy r type) held c =
    refused l out (sl_lock_internal-Refuses i type l)
Move-Keeps {l} (call_unlock type) held c = sl_unlock-Keeps type l (held type refl)
Move-Keeps {i} {l} (call_drain r) held c = sl_drain-Keeps i l
Move-Keeps {i} {l} (call_touch r type) held c = sl_touch-Keeps i type l
Move-Keeps {i} {l} {out} (resume_queued type _) held c =
    refused l out (sl_lock_internal-Refuses i type l)
Move-Keeps {i} {l} {out} (resume_waiting type _) held c =
    refused l out (lock_woken-Refuses i type l)
Move-Keeps {i} {l} (resume_draining _) held c = drain_loop-Keeps i l c
Move-Keeps {i} {l} (resume_emptying _) held c = empty_loop-Keeps i l c
Move-Keeps {i} {l} (resume_touching type _) held c = sl_touch-Keeps i type l
