-- ===== src/Kern/Threads.antt =====
-- system/kern/kern_thread.c: threads, their stacks for interrupts, and the current thread of a processor.
-- A thread is named by its address, 0 the null pointer; its storage stands 16 bytes behind that.
pub mod Syscall
pub mod Allocate
mod Tests
use rkernel.Base.{◌||◌, some, ◌==◌, ◌+◌, none, bit_and, ◌-◌, if◌then◌else◌, Option, ℕ, bit_or, Bool}
use rkernel.Kern.Ring.{Links, linked_ring_init}
use rkernel.Kern.Zalloc
use rkernel.Kern.Zalloc.{Memory, Result, zinit, zalloc, zfree, zone_auto_refill}
use rkernel.Kern.Stacks.{Stacks, kernel_stack_allocate, kernel_stack_release}
use rkernel.Kern.Sched.{Thread, set_at, clear}
use rkernel.Arch.Segments.{Segdesc}
use rkernel.Arch.Hal.{CpuArch, hal_after_thread_switch}

-- `struct thread` but for its two ring entries: the fields that the scheduler uses, and the arrays.
pub record Control : Type 0 where
  pub scheduled : Thread
  pub t_storage : ℕ → ℕ
  pub t_istacks : ℕ → ℕ
  pub t_istobjs : ℕ → ℕ

-- The zone of the threads, the template, the threads, the links of their ring entries, the memory, the
-- stacks, and for each processor its current thread, `CPU_LOCAL_TLS` and its tables.
pub record Threads : Type 0 where
  pub thread_zone : ℕ
  pub thread_template : Control
  pub thread : ℕ → Control
  pub links : Links
  pub memory : Memory
  pub stacks : Stacks
  pub cpu_current_thread : ℕ → ℕ
  pub cpu_local_tls : ℕ → ℕ
  pub cpu_arch : ℕ → CpuArch

-- What a call returns, or that the kernel panicked.
pub data Outcome : Type 0 where
  returned : ℕ → Threads → Outcome
  panic : Outcome
  no_fuel : Outcome

abbrev pub thread_sf_intstack_2 : ℕ
thread_sf_intstack_2 = 1

abbrev pub put_control : ℕ → Control → Threads → Threads
put_control t c s = record s { thread = set_at s.thread t c }

-- `t_storage[0]` is `THREAD_LOCAL_INT_STACK`.
abbrev pub set_int_stack : ℕ → Control → Control
set_int_stack sp c = record c { t_storage = set_at c.t_storage 0 sp }

abbrev pub set_flags : ℕ → Control → Control
set_flags flags c =
    let sched = c.scheduled in record c { scheduled = record sched { t_stateflags = flags } }

-- The template's arrays stay as they are.
abbrev pub fill_template : Control → Control
fill_template c = record c {
  scheduled = record {
    t_current_cpu = 0;
    t_stateflags = 0;
    t_priority = 16;
    t_nonpreempt = 0;
    t_wait_queue = 0;
  };
}

-- `thread_init` behind its call of `zinit`.
unfoldable pub started : Threads → Result ℕ → Outcome
started s (Zalloc.ok z m) =
    returned z
      (record s { thread_zone = z; memory = m; thread_template = fill_template s.thread_template })
started s Zalloc.panicked = panic
started s Zalloc.out_of_fuel = no_fuel

-- A `struct thread` has 76 bytes.
unfoldable pub thread_init : ℕ → Threads → Outcome
thread_init zone_zone s = started s (zinit zone_zone 76 zone_auto_refill s.memory)

-- `kernel_stack_allocate` on the memory of the kernel that the zones use too.
unfoldable pub take_stack : Bool → Threads → ℕ × Threads
take_stack down s =
    let stacks = s.stacks in
    let memory = s.memory in
    let taken = kernel_stack_allocate down (record stacks { vm = memory.vm }) in
    (taken.0, record s { stacks = taken.1; memory = record memory { vm = taken.1.vm } })

unfoldable pub give_stack : ℕ → Threads → Threads
give_stack k s = if k == 0 then s else record s { stacks = kernel_stack_release k s.stacks }

abbrev pub pair_of : ℕ → ℕ → ℕ → ℕ
pair_of a b i = if i == 0 then a else b

-- The thread's interrupt stacks, from its stack objects.
abbrev pub with_istacks : Stacks → Control → Control
with_istacks stacks c =
    set_int_stack (stacks.st_sp (c.t_istobjs 0))
      (record c { t_istacks = λ i. stacks.st_sp (c.t_istobjs i) })

-- The part of `thread_allocate` behind the loop that takes the stacks.
unfoldable pub equip : ℕ → Threads → ℕ × Threads
equip thr s =
    let c = s.thread thr in
    let released = give_stack (c.t_istobjs 1) (give_stack (c.t_istobjs 0) s) in
    if (c.t_istobjs 0 == 0) || (c.t_istobjs 1 == 0)
    then (0, record released { memory = zfree thr released.memory })
    else (
      thr,
      put_control thr (with_istacks s.stacks c) (record s { links = linked_ring_init thr s.links }),
    )

-- The part of `thread_allocate` behind its call of `zalloc`.
unfoldable pub thread_in : Bool → ℕ → Threads → ℕ × Threads
thread_in down thr s =
    let (a, one) = take_stack down s in
    let (b, two) = take_stack down one in
    let template = s.thread_template in
    if thr == 0
    then (0, s)
    else equip thr (put_control thr (record template { t_istobjs = pair_of a b }) two)

unfoldable pub allocated : Bool → Threads → Result ℕ → Outcome
allocated down s (Zalloc.ok thr m) =
    let (t, s') = thread_in down thr (record s { memory = m }) in returned t s'
allocated down s Zalloc.panicked = panic
allocated down s Zalloc.out_of_fuel = no_fuel

unfoldable pub thread_allocate : Bool → Threads → Outcome
thread_allocate down s = allocated down s (zalloc s.thread_zone s.memory)

-- `here` is the processor that the code runs on.
unfoldable pub kernel_get_current_thread : ℕ → Threads → ℕ
kernel_get_current_thread here s = s.cpu_current_thread here

-- The first word of the storage that `CPU_LOCAL_TLS` points to.
abbrev pub tls_stack : ℕ → Threads → ℕ
tls_stack here s = (s.thread (s.cpu_local_tls here - 16)).t_storage 0

-- `hal_after_thread_switch`; `none` stands for the exception that its `ltr` raises.
unfoldable pub after_switch :
    ((ℕ → Segdesc) → ℕ → Option (ℕ → Segdesc)) → ℕ → Threads → Option Threads
after_switch ltr here s = elim (hal_after_thread_switch ltr (tls_stack here s) (s.cpu_arch here)) [
  | none ↦ none
  | some arch ↦ some (record s { cpu_arch = set_at s.cpu_arch here arch })
]

unfoldable pub kernel_set_current_thread :
    ((ℕ → Segdesc) → ℕ → Option (ℕ → Segdesc)) → ℕ → ℕ → Threads → Option Threads
kernel_set_current_thread ltr here thread s =
    let c = s.thread thread in
    let sched = c.scheduled in
    after_switch ltr here (
      put_control thread (record c { scheduled = record sched { t_current_cpu = here } })
        (record s {
          cpu_current_thread = set_at s.cpu_current_thread here thread;
          cpu_local_tls = set_at s.cpu_local_tls here (thread + 16);
        }))

unfoldable pub thread_update_int_stack : ℕ → Threads → Threads
thread_update_int_stack thread s =
    let c = s.thread thread in
    let sp =
      if bit_and c.scheduled.t_stateflags thread_sf_intstack_2 == 0
      then c.t_istacks 0
      else c.t_istacks 1 in
    put_control thread (set_int_stack sp c) s

-- The thread of a call of the system uses its second stack, and the first one behind it.
unfoldable pub enter_syscall : Control → Control
enter_syscall c =
    set_int_stack (c.t_istacks 1)
      (set_flags (bit_or c.scheduled.t_stateflags thread_sf_intstack_2) c)

unfoldable pub exit_syscall : Control → Control
exit_syscall c =
    set_int_stack (c.t_istacks 0)
      (set_flags (clear c.scheduled.t_stateflags thread_sf_intstack_2) c)

unfoldable pub thread_enter_syscall :
    ((ℕ → Segdesc) → ℕ → Option (ℕ → Segdesc)) → ℕ → Threads → Option Threads
thread_enter_syscall ltr here s =
    let thread = s.cpu_current_thread here in
    after_switch ltr here (put_control thread (enter_syscall (s.thread thread)) s)

unfoldable pub thread_exit_syscall :
    ((ℕ → Segdesc) → ℕ → Option (ℕ → Segdesc)) → ℕ → Threads → Option Threads
thread_exit_syscall ltr here s =
    let thread = s.cpu_current_thread here in
    after_switch ltr here (put_control thread (exit_syscall (s.thread thread)) s)
