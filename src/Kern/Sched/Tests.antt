-- ===== src/Kern/Sched/Tests.antt =====
-- A scheduler whose rings are empty, and the theorems there.
use rkernel.Base.{none, false, ◌≡◌, ◌==◌, ℕ, arith, refl, []}
use rkernel.Kern.Ring.Ends.{IsRing}
use rkernel.Kern.Sched.{
  Kernel, sched_run_ring, sched_schedule_next, sched_reenqueue, sched_is_suspended, pick_loop,
  sched_prios, queue_of,
}
use rkernel.Kern.Sched.Lowest.{Picks, pick_loop-Picks}
use rkernel.Kern.Sched.Never.{HasRings, FindsNone, sched_schedule_next-FindsNone}
use rkernel.Kern.Sched.Enqueue.{Enqueues, sched_reenqueue-Enqueues}

abbrev kernel : Kernel
kernel = record {
  links = record { next = λ p. p; prev = λ p. p };
  node_data = λ p. 0;
  thread = λ t. record {
    t_current_cpu = 1;
    t_stateflags = 0;
    t_priority = 16;
    t_nonpreempt = 0;
    t_wait_queue = 0;
  };
  scheduler =
      λ s. record { sched_run_decay = sched_prios; sched_idle = 50; sched_thread_count = 1 };
  cpu_scheduler = λ c. 4096;
  cpu_current_thread = λ c. 50;
}

empty-IsRing : (h : ℕ) → IsRing kernel.links h []
empty-IsRing h = ((refl, refl), (tt, tt))

kernel-HasRings : HasRings 4096 kernel
kernel-HasRings = record {
  ring = λ i lt. ([], empty-IsRing (sched_run_ring 4096 i));
  headless = λ i lt. refl;
}

sched_schedule_next-FindsNone_example : FindsNone 4096 kernel (sched_schedule_next 3 4096 kernel)
sched_schedule_next-FindsNone_example = sched_schedule_next-FindsNone 2 4096 kernel kernel-HasRings

pick_loop-Picks_example :
    Picks (λ i. i == 3) sched_prios (pick_loop (λ i. i == 3) 32 0 sched_prios none)
pick_loop-Picks_example = pick_loop-Picks (λ i. i == 3) sched_prios

runs : sched_is_suspended 100 kernel ≡ false
unfolding sched_is_suspended
runs = refl

sched_reenqueue-Enqueues_example :
    Enqueues
      (sched_run_ring 4096 (queue_of 100 kernel))
      100
      []
      4612
      []
      (sched_reenqueue 4096 100 kernel)
sched_reenqueue-Enqueues_example =
    sched_reenqueue-Enqueues 4096 100 kernel [] 4612 [] (omega arith) runs
      (empty-IsRing (sched_run_ring 4096 16)) (omega arith, tt) (empty-IsRing 4612)
      (omega arith, tt) ((omega arith, tt), tt)
