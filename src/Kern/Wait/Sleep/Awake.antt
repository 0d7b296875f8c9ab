-- ===== src/Kern/Wait/Sleep/Awake.antt =====
-- system/kern/kern_wait.c: a thread that waits is not suspended.
use rkernel.Base.{
  suc, bit_and, ℕ, ℤ, ◌≡◌, some, refl, false, true, eq→==, not, ◌&&◌, ◌==◌, Bool, if◌then◌else◌,
}
use rkernel.Kern.Sched.{
  Kernel, sched_is_suspended, sched_schedule_next, sched_preempt, preempt_to, switch_threads,
  nothing, put_decay, thread_sf_lock_sched, thread_sf_queue_wait,
}
use rkernel.Kern.Sched.Never.{HasEmptyRing, HasRings, sched_schedule_next-nothing}
use rkernel.Kern.Wait.Sleep.{wait_before, enter_ring, waitqueue_elem}

wait_queue-kept :
    (here queue after : ℕ) (k : Kernel)
    → (k.thread (k.cpu_current_thread here)).t_wait_queue ≡ 0
    → ((wait_before here queue after k).thread (k.cpu_current_thread here)).t_wait_queue ≡ 0
unfolding wait_before enter_ring waitqueue_elem
wait_queue-kept here queue after k none_yet =
    let self = k.cpu_current_thread here in rw (eq→== self self refl) none_yet

and_false : (b : Bool) → (b && false) ≡ false
and_false true = refl
and_false false = refl

not-suspended :
    (t : ℕ) (k : Kernel) → (k.thread t).t_wait_queue ≡ 0 → sched_is_suspended t k ≡ false
unfolding sched_is_suspended
not-suspended t k e =
    rw e (and_false (not (bit_and (k.thread t).t_stateflags thread_sf_queue_wait == 0)))

-- A preemption that finds no other thread leaves one that is not suspended current.
stays_current :
    (fuel here : ℕ) (k : Kernel) (decay : ℕ → ℤ)
    → sched_is_suspended (k.cpu_current_thread here) (put_decay (k.cpu_scheduler here) decay k)
      ≡ false
    → sched_schedule_next fuel (k.cpu_scheduler here) k
      ≡ nothing (put_decay (k.cpu_scheduler here) decay k)
    → (k' : Kernel) × (sched_preempt fuel here k ≡ some k')
      × (k'.cpu_current_thread here ≡ k.cpu_current_thread here)
unfolding sched_preempt preempt_to switch_threads
stays_current fuel here k decay awake idle =
    let self = k.cpu_current_thread here in
    elim (bit_and (k.thread self).t_stateflags thread_sf_lock_sched == 0)
      as (λ b.
        (k' : Kernel) × ((if not b
            then some k
            else if not ((k.thread self).t_nonpreempt == 0)
            then some k
            else preempt_to here (k.cpu_scheduler here) self
                (sched_schedule_next fuel (k.cpu_scheduler here) k))
          ≡ some k')
        × (k'.cpu_current_thread here ≡ self)) [
          | false ↦ (k, refl, refl)
          | true ↦
              elim ((k.thread self).t_nonpreempt == 0)
                as (λ b.
                  (k' : Kernel) × ((if not b
                      then some k
                      else preempt_to here (k.cpu_scheduler here) self
                          (sched_schedule_next fuel (k.cpu_scheduler here) k))
                    ≡ some k')
                  × (k'.cpu_current_thread here ≡ self)) [
                    | false ↦ (k, refl, refl)
                    | true ↦ (
                      put_decay (k.cpu_scheduler here) decay k,
                      rw (idle, preempt_to, awake, eq→== self self refl) refl,
                      refl,
                    )
                  ]
        ]

-- Where every run ring of the scheduler holds a thread, a thread whose field t_wait_queue is
-- null, as every new thread has it, keeps the processor where waitqueue_wait preempts it: the
-- scheduler finds none of the others, and the thread goes on without having been woken.
pub waitqueue_wait-goes_on :
    (fuel here queue after : ℕ) (k : Kernel)
    → (k.thread (k.cpu_current_thread here)).t_wait_queue ≡ 0
    → HasRings (k.cpu_scheduler here) (wait_before here queue after k)
    → ¬ (HasEmptyRing (k.cpu_scheduler here) (wait_before here queue after k))
    → (k' : Kernel) × (sched_preempt (suc fuel) here (wait_before here queue after k) ≡ some k')
      × (k'.cpu_current_thread here ≡ k.cpu_current_thread here)
unfolding wait_before enter_ring waitqueue_elem
waitqueue_wait-goes_on fuel here queue after k none_yet rings full =
    let k1 = wait_before here queue after k in
    let (decay, idle) = sched_schedule_next-nothing fuel (k.cpu_scheduler here) k1 rings full in
    stays_current (suc fuel) here k1 decay
      (not-suspended (k.cpu_current_thread here) (put_decay (k.cpu_scheduler here) decay k1)
        (wait_queue-kept here queue after k none_yet))
      idle
