-- ===== src/Kern/Wait/Sleep/Tests.antt =====
-- A processor whose 32 run rings hold a thread each, and the theorem there.
use rkernel.Base.{
  leb, ltb, ◌&&◌, ◌-◌, ◌+◌, ◌*◌, ◌<◌, [], ◌∷◌, ◌≡◌, some, ℕ, refl, if◌then◌else◌, arith,
}
use rkernel.Kern.Ring.{linked_ring_insert}
use rkernel.Kern.Ring.Ends.{IsRing}
use rkernel.Kern.Sched.{Kernel, sched_preempt, sched_prios, sched_run_ring}
use rkernel.Kern.Sched.Never.{HasRings, HasEmptyRing}
use rkernel.Kern.Wait.Sleep.{wait_before, enter_ring, waitqueue_elem}
use rkernel.Kern.Wait.Sleep.Awake.{waitqueue_wait-goes_on}

-- The other node of a ring: the heads stand from 4096 on, the threads in them from 8192 on.
abbrev partner : ℕ → ℕ
partner p =
    if leb 4096 p && ltb p 4480 then p + 4096 else if leb 8192 p && ltb p 8576 then p - 4096 else p

-- The thread 64 runs.
abbrev kernel : Kernel
kernel = record {
  links = record { next = partner; prev = partner };
  node_data = λ p. if leb 8192 p && ltb p 8576 then p else 0;
  thread = λ t. record {
    t_current_cpu = 1;
    t_stateflags = 0;
    t_priority = 16;
    t_nonpreempt = 0;
    t_wait_queue = 0;
  };
  scheduler =
      λ s. record { sched_run_decay = sched_prios; sched_idle = 50; sched_thread_count = 33 };
  cpu_scheduler = λ c. 4096;
  cpu_current_thread = λ c. 64;
}

-- The thread entered into the queue at 20000.
IsRing-of :
    (i : ℕ)
    → i < 32
    → IsRing (wait_before 0 20000 0 kernel).links (sched_run_ring 4096 i) ((8192 + 12 * i) ∷ [])
unfolding wait_before enter_ring waitqueue_elem linked_ring_insert
IsRing-of i lt = ground arith

headless : (i : ℕ) → i < 32 → (wait_before 0 20000 0 kernel).node_data (sched_run_ring 4096 i) ≡ 0
unfolding wait_before enter_ring waitqueue_elem
headless i lt = ground arith

rings : HasRings 4096 (wait_before 0 20000 0 kernel)
rings = record { ring = λ i lt. ((8192 + 12 * i) ∷ [], IsRing-of i lt); headless = headless }

next_differs :
    (i : ℕ)
    → i < 32
    → (wait_before 0 20000 0 kernel).links.next (sched_run_ring 4096 i) ≡ 8192 + 12 * i
unfolding wait_before enter_ring waitqueue_elem linked_ring_insert
next_differs i lt = ground arith

none_empty : ¬ (HasEmptyRing 4096 (wait_before 0 20000 0 kernel))
none_empty (i, lt, ((back, rest), distinct)) = omega (arith, back, next_differs i lt)

waitqueue_wait-goes_on_example :
    (k' : Kernel) × (sched_preempt 1 0 (wait_before 0 20000 0 kernel) ≡ some k')
    × (k'.cpu_current_thread 0 ≡ 64)
waitqueue_wait-goes_on_example = waitqueue_wait-goes_on 0 0 20000 0 kernel refl rings none_empty
