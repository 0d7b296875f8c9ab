-- ===== src/Kern/Wait/Sleep.antt =====
-- system/kern/kern_wait.c: the queues over the rings and the threads of the scheduler. The entry of a
-- thread in a queue stands 60 bytes behind the thread; `queue` is the address of the head `wq_threads`.
pub mod Awake
mod Tests
use rkernel.Base.{true, false, ◌==◌, ◌+◌, if◌then◌else◌, bit_or, ℕ, Bool}
use rkernel.Kern.Ring.{linked_ring_insert, linked_ring_remove}
use rkernel.Kern.Sched.{
  Kernel, Thread, put_thread, set_at, clear, thread_sf_queue_wait, sched_actualize,
}

abbrev pub wait_entry : ℕ → ℕ
wait_entry thread = thread + 60

unfoldable pub waitqueue_elem : ℕ → Kernel → Kernel
waitqueue_elem thread k = record k { node_data = set_at k.node_data (wait_entry thread) thread }

-- `waitqueue_enter`
unfoldable pub enter_ring : ℕ → ℕ → ℕ → Kernel → Kernel
enter_ring queue thread after k =
    let k' = waitqueue_elem thread k in
    record k' { links = linked_ring_insert queue (wait_entry thread) after k'.links }

-- `waitqueue_get_first`, with whether there was a thread to wake.
unfoldable pub wake_first : ℕ → ℕ → Kernel → Bool × Kernel
wake_first here queue k =
    let elem = k.links.prev queue in
    let thread = k.node_data elem in
    let removed = record k { links = linked_ring_remove elem k.links } in
    let woken = put_thread thread (record (removed.thread thread) { t_wait_queue = 0 }) removed in
    if elem == queue then (false, k) else (true, sched_actualize here thread woken)

abbrev pub put_flags : ℕ → ℕ → Kernel → Kernel
put_flags t flags k = put_thread t (record (k.thread t) { t_stateflags = flags }) k

-- `waitqueue_wait` up to `hal_induce_preemption`, and what follows it; the lock is left out.
unfoldable pub wait_before : ℕ → ℕ → ℕ → Kernel → Kernel
wait_before here queue after k =
    let self = k.cpu_current_thread here in
    let entered = enter_ring queue self after k in
    put_flags self (bit_or (entered.thread self).t_stateflags thread_sf_queue_wait) entered

unfoldable pub wait_after : ℕ → Kernel → Kernel
wait_after self k = put_flags self (clear (k.thread self).t_stateflags thread_sf_queue_wait) k
