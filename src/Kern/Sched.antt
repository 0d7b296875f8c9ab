-- ===== src/Kern/Sched.antt =====
-- system/kern/kern_sched.c: the scheduler of a processor. A pointer is the address it holds. The entry
-- of a thread in its queue is the first field of the thread and the first ring the first field of the
-- scheduler, so that they share its address; a ring takes three words. The scheduler's lock makes each
-- operation one step.
pub mod Lowest
pub mod Never
pub mod Enqueue
mod Tests
use rkernel.Base.{
  ltb, ◌&&◌, true, decrement, ◌^◌, ◌==◌, ◌*◌, not, lt_int, leb, false, bit_and, [], ◌∷◌, ◌-◌, ◌+◌,
  ◌%◌, some, none, if◌then◌else◌, get_or, bit_or, Bool, ℕ, Option, List, zero, suc, ℤ, pos,
}
use rkernel.Kern.Ring.{
  Links, linked_ring_insert, linked_ring_remove, linked_ring_empty, linked_ring_init,
}

pub record Thread : Type 0 where
  pub t_current_cpu : ℕ
  pub t_stateflags : ℕ
  pub t_priority : ℕ
  pub t_nonpreempt : ℕ
  pub t_wait_queue : ℕ

pub record Scheduler : Type 0 where
  pub sched_run_decay : ℕ → ℤ
  pub sched_idle : ℕ
  pub sched_thread_count : ℕ

-- What the scheduler reads and writes: the rings, the field `data` of their nodes, the threads, the
-- schedulers, and for each processor its scheduler and its current thread.
pub record Kernel : Type 0 where
  pub links : Links
  pub node_data : ℕ → ℕ
  pub thread : ℕ → Thread
  pub scheduler : ℕ → Scheduler
  pub cpu_scheduler : ℕ → ℕ
  pub cpu_current_thread : ℕ → ℕ

abbrev pub thread_sf_preempt : ℕ
thread_sf_preempt = 2

abbrev pub thread_sf_lock_sched : ℕ
thread_sf_lock_sched = 4

abbrev pub thread_sf_queue_wait : ℕ
thread_sf_queue_wait = 8

abbrev pub sched_nrqs : ℕ
sched_nrqs = 32

abbrev pub sched_run_ring : ℕ → ℕ → ℕ
sched_run_ring sched i = sched + 12 * i

abbrev pub sched_blocked : ℕ → ℕ
sched_blocked sched = sched + 516

abbrev pub prio_table : List ℕ
prio_table =
    1 ∷ 5 ∷ 11 ∷ 19 ∷ 28 ∷ 38 ∷ 49 ∷ 60 ∷ 72 ∷ 84 ∷ 97 ∷ 110 ∷ 123 ∷ 137 ∷ 151 ∷ 165 ∷ 180 ∷ 195
    ∷ 210 ∷ 225 ∷ 240 ∷ 256 ∷ 272 ∷ 288 ∷ 304 ∷ 320 ∷ 337 ∷ 354 ∷ 371 ∷ 388 ∷ 405 ∷ 422 ∷ []

unfoldable pub sched_prios : ℕ → ℤ
sched_prios i = pos (get_or prio_table i 0)

abbrev pub set_at {ℓ} : {A : Type ℓ} → (ℕ → A) → ℕ → A → ℕ → A
set_at f p v q = if q == p then v else f q

abbrev pub put_thread : ℕ → Thread → Kernel → Kernel
put_thread t thread k = record k { thread = set_at k.thread t thread }

abbrev pub put_scheduler : ℕ → Scheduler → Kernel → Kernel
put_scheduler s sched k = record k { scheduler = set_at k.scheduler s sched }

-- `flags & ~flag`
abbrev pub clear : ℕ → ℕ → ℕ
clear flags flag = flags - bit_and flags flag

unfoldable pub sched_elem : ℕ → Kernel → Kernel
sched_elem thread k = record k { node_data = set_at k.node_data thread thread }

unfoldable pub sched_is_suspended : ℕ → Kernel → Bool
sched_is_suspended thread k =
    not (bit_and (k.thread thread).t_stateflags thread_sf_queue_wait == 0)
    && not ((k.thread thread).t_wait_queue == 0)

-- The macro stands for `linked_ring_empty`.
unfoldable pub sched_runnable : ℕ → ℕ → Kernel → Bool
sched_runnable sched i k = linked_ring_empty (sched_run_ring sched i) k.links

-- `linked_ring_insert` of a thread's entry.
unfoldable pub insert_elem : ℕ → ℕ → ℕ → Kernel → Kernel
unfolding sched_elem
insert_elem ring thread after k =
    let k' = sched_elem thread k in
    record k' { links = linked_ring_insert ring thread after k'.links }

-- The choice so far, `mi` and `mdecay`; `none` stands for a negative `mi`.
abbrev pub Choice : Type 0
Choice = Option (ℕ × ℤ)

unfoldable pub better : ℕ → ℤ → Choice → Choice
better i decay none = some (i, decay)
better i decay (some (mi, mdecay)) =
    if lt_int decay mdecay then some (i, decay) else some (mi, mdecay)

-- The loop over the priorities, `n` of them from `i` on.
unfoldable pub pick_loop : (ℕ → Bool) → ℕ → ℕ → (ℕ → ℤ) → Choice → (ℕ → ℤ) × Choice
pick_loop runnable zero i decay choice = (decay, choice)
pick_loop runnable (suc n) i decay choice = elim (runnable i) [
  | false ↦ pick_loop runnable n (i + 1) (set_at decay i (sched_prios i)) choice
  | true ↦
      pick_loop runnable n (i + 1) (set_at decay i (decrement (decay i)))
        (better i (decrement (decay i)) choice)
]

-- What `sched_schedule_next` comes to: a thread, the null pointer, or a read of the thread at the null
-- pointer.
pub data Next : Type 0 where
  found : ℕ → Kernel → Next
  nothing : Kernel → Next
  null_read : Next
  out_of_fuel : Next

abbrev pub put_decay : ℕ → (ℕ → ℤ) → Kernel → Kernel
put_decay sched decay k =
    put_scheduler sched (record (k.scheduler sched) { sched_run_decay = decay }) k

-- The entry at the end of the ring of priority `mi` taken out: its thread, and the kernel then.
unfoldable pub take_from : ℕ → ℕ → (ℕ → ℤ) → Kernel → ℕ × Kernel
take_from sched mi decay k =
    let elem = k.links.prev (sched_run_ring sched mi) in
    let k' = put_decay sched (set_at decay mi (sched_prios mi)) k in
    (k.node_data elem, record k' { links = linked_ring_remove elem k.links })

-- What follows the loop; `restart` goes back to its start.
unfoldable pub after_pick : (Kernel → Next) → ℕ → Kernel → (ℕ → ℤ) × Choice → Next
after_pick restart sched k (decay, none) = nothing (put_decay sched decay k)
after_pick restart sched k (decay, some (mi, mdecay)) =
    let (current, k') = take_from sched mi decay k in
    if current == 0
    then null_read
    else if sched_is_suspended current k'
    then restart (insert_elem (sched_blocked sched) current 0 k')
    else found current k'

-- The fuel bounds the rounds of `restart`.
unfoldable pub sched_schedule_next : ℕ → ℕ → Kernel → Next
sched_schedule_next zero sched k = out_of_fuel
sched_schedule_next (suc fuel) sched k = after_pick (sched_schedule_next fuel sched) sched k (
    pick_loop (λ i. sched_runnable sched i k) sched_nrqs 0 (k.scheduler sched).sched_run_decay none)

unfoldable pub sched_schedule_idle : ℕ → Kernel → ℕ
sched_schedule_idle sched k = (k.scheduler sched).sched_idle

-- The priority of a thread, `t_priority % SCHED_NRQS`.
abbrev pub queue_of : ℕ → Kernel → ℕ
queue_of thread k = (k.thread thread).t_priority % sched_nrqs

unfoldable pub sched_reenqueue : ℕ → ℕ → Kernel → Kernel
sched_reenqueue sched thread k =
    let i = queue_of thread k in
    let decay = (k.scheduler sched).sched_run_decay in
    let k' =
      if sched_runnable sched i k then k else put_decay sched (set_at decay i (sched_prios i)) k in
    if thread == (k.scheduler sched).sched_idle
    then k
    else if sched_is_suspended thread k
    then insert_elem (sched_blocked sched) thread 0 k
    else insert_elem (sched_run_ring sched i) thread 1 k'

-- The loop of `sched_instanciate` that makes the rings.
unfoldable pub init_rings : ℕ → ℕ → ℕ → Links → Links
init_rings zero i sched links = links
init_rings (suc n) i sched links =
    init_rings n (i + 1) sched (linked_ring_init (sched_run_ring sched i) links)

-- `sched` is what `zalloc` returned. The scheduler there is set to 0; its rings end 528 bytes behind
-- its start, and the pointers of `sched_blocked` stay 0. `none` stands for the panic.
unfoldable pub sched_instanciate : ℕ → ℕ → Kernel → Option Kernel
sched_instanciate cpu sched k =
    let zeroed = λ (f : ℕ → ℕ) (q : ℕ). if leb sched q && ltb q (sched + 528) then 0 else f q in
    let links : Links = record { next = zeroed k.links.next; prev = zeroed k.links.prev } in
    let made = record k {
      links = init_rings sched_nrqs 0 sched links;
      node_data = zeroed k.node_data;
      scheduler =
          set_at k.scheduler sched
            (record { sched_run_decay = sched_prios; sched_idle = 0; sched_thread_count = 1 });
      cpu_scheduler = set_at k.cpu_scheduler cpu sched;
    } in
    if sched == 0 then none else some made

-- The flag that `myself` sets around the lock; the code between runs on the state with the flag.
abbrev pub set_flag : ℕ → Kernel → Kernel
set_flag t k =
    put_thread t
      (record (k.thread t) { t_stateflags = bit_or (k.thread t).t_stateflags thread_sf_lock_sched })
      k

abbrev pub clear_flag : ℕ → Kernel → Kernel
clear_flag t k =
    put_thread t
      (record (k.thread t) { t_stateflags = clear (k.thread t).t_stateflags thread_sf_lock_sched })
      k

abbrev pub set_cpu : ℕ → ℕ → Kernel → Kernel
set_cpu t cpu k = put_thread t (record (k.thread t) { t_current_cpu = cpu }) k

-- The thread count changed by `f`.
abbrev pub count_threads : ℕ → (ℕ → ℕ) → Kernel → Kernel
count_threads sched f k =
    put_scheduler sched
      (record (k.scheduler sched) { sched_thread_count = f (k.scheduler sched).sched_thread_count })
      k

-- `here` is the processor that the code runs on.
unfoldable pub sched_insert : ℕ → ℕ → ℕ → Kernel → Kernel
sched_insert here cpu thread k =
    let myself = k.cpu_current_thread here in
    let sched = k.cpu_scheduler cpu in
    clear_flag myself (
      count_threads sched (λ n. (n + 1) % 2 ^ 32)
        (sched_reenqueue sched thread (set_flag myself (set_cpu thread cpu k))))

-- The end of `sched_remove`.
unfoldable pub removed : ℕ → ℕ → Next → Next
removed myself sched (found thread k) =
    found thread (
      set_cpu thread 0 (clear_flag myself (count_threads sched (λ n. (n + 2 ^ 32 - 1) % 2 ^ 32) k)))
removed myself sched (nothing k) = nothing (clear_flag myself k)
removed myself sched null_read = null_read
removed myself sched out_of_fuel = out_of_fuel

unfoldable pub sched_remove : ℕ → ℕ → ℕ → Kernel → Next
sched_remove fuel here cpu k =
    let myself = k.cpu_current_thread here in
    let sched = k.cpu_scheduler cpu in
    removed myself sched (sched_schedule_next fuel sched (set_flag myself k))

unfoldable pub sched_actualize : ℕ → ℕ → Kernel → Kernel
sched_actualize here thread k =
    let cpu = (k.thread thread).t_current_cpu in
    let sched = k.cpu_scheduler cpu in
    let myself = k.cpu_current_thread here in
    let locked = set_flag myself k in
    let moved =
      sched_reenqueue sched thread
        (record locked { links = linked_ring_remove thread locked.links }) in
    if cpu == 0
    then k
    else clear_flag myself (
        if bit_and (locked.thread thread).t_stateflags thread_sf_preempt == 0
        then locked
        else moved)

-- `kernel_set_current_thread`; the thread-local storage and the stack that the processor switches to
-- are left out.
abbrev pub set_current : ℕ → ℕ → Kernel → Kernel
set_current here t k =
    set_cpu t here (record k { cpu_current_thread = set_at k.cpu_current_thread here t })

-- The switch from `othr` to `nthr`.
unfoldable pub switch_threads : ℕ → ℕ → ℕ → ℕ → Kernel → Kernel
switch_threads here sched othr nthr k =
    let running =
      put_thread nthr
        (record (k.thread nthr) {
          t_stateflags = clear (k.thread nthr).t_stateflags thread_sf_preempt;
        })
        k in
    let current = set_current here nthr running in
    let preempted =
      put_thread othr
        (record (current.thread othr) {
          t_stateflags = bit_or (current.thread othr).t_stateflags thread_sf_preempt;
        })
        current in
    if othr == nthr then k else sched_reenqueue sched othr preempted

-- The part of `sched_preempt` behind `sched_schedule_next`; `none` is a fault.
unfoldable pub preempt_to : ℕ → ℕ → ℕ → Next → Option Kernel
preempt_to here sched othr (found nthr k) = some (switch_threads here sched othr nthr k)
preempt_to here sched othr (nothing k) =
    let nthr = if sched_is_suspended othr k then sched_schedule_idle sched k else othr in
    some (switch_threads here sched othr nthr k)
preempt_to here sched othr null_read = none
preempt_to here sched othr out_of_fuel = none

unfoldable pub sched_preempt : ℕ → ℕ → Kernel → Option Kernel
sched_preempt fuel here k =
    let sched = k.cpu_scheduler here in
    let othr = k.cpu_current_thread here in
    let preempted = preempt_to here sched othr (sched_schedule_next fuel sched k) in
    if not (bit_and (k.thread othr).t_stateflags thread_sf_lock_sched == 0)
    then some k
    else if not ((k.thread othr).t_nonpreempt == 0)
    then some k
    else preempted
