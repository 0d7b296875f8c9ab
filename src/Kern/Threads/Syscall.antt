-- ===== src/Kern/Threads/Syscall.antt =====
-- system/kern/kern_thread.c: the stack for interrupts of the current thread.
use rkernel.Base.{none, ◌/◌, ◌==◌, refl, bit_or, arith, ◌+◌, if◌then◌else◌, eq→==, bit_and, ◌≡◌, ℕ}
use rkernel.Base.Bits.{bit_and-digit, bit_or-digit, bit_and-zero}
use rkernel.Arch.Hal.Task.{Ltr, switched}
use rkernel.Kern.Sched.{set_at, clear}
use rkernel.Kern.Threads.{
  kernel_set_current_thread, put_control, Control, Threads, thread_sf_intstack_2, tls_stack,
  thread_enter_syscall, thread_exit_syscall, thread_update_int_stack, enter_syscall, exit_syscall,
}

-- The current stack for interrupts is the one that the flags say.
abbrev pub HasIntStack : Control → Type 0
HasIntStack c = c.t_storage 0 ≡ (
    if bit_and c.scheduled.t_stateflags thread_sf_intstack_2 == 0
    then c.t_istacks 0
    else c.t_istacks 1)

flag_set : (f : ℕ) → bit_and (bit_or f 1) 1 ≡ 1
flag_set f =
    omega (arith, bit_and-digit (bit_or f 1) 1, bit_or-digit f 1, bit_and-zero (bit_or f 1 / 2))

flag_clear : (f : ℕ) → bit_and (clear f 1) 1 ≡ 0
flag_clear f = omega (
  arith,
  bit_and-digit (clear f 1) 1,
  bit_and-digit f 1,
  bit_and-zero (clear f 1 / 2),
  bit_and-zero (f / 2),
)

pub enter_syscall-HasIntStack : (c : Control) → HasIntStack (enter_syscall c)
unfolding enter_syscall
enter_syscall-HasIntStack c = rw (flag_set c.scheduled.t_stateflags) refl

pub exit_syscall-HasIntStack : (c : Control) → HasIntStack (exit_syscall c)
unfolding exit_syscall
exit_syscall-HasIntStack c = rw (flag_clear c.scheduled.t_stateflags) refl

-- The update gives every thread the stack that its flags say.
pub thread_update_int_stack-HasIntStack :
    (thread : ℕ) (s : Threads) → HasIntStack ((thread_update_int_stack thread s).thread thread)
unfolding thread_update_int_stack
thread_update_int_stack-HasIntStack thread s = rw (eq→== thread thread refl) refl

-- The processor's task state and the current thread's storage name the same stack, and it is the one
-- that the thread's flags say.
abbrev pub UsesStack : ℕ → Threads → Type 0
UsesStack here s =
    let c = s.thread (s.cpu_current_thread here) in
    ((s.cpu_arch here).esp0 ≡ c.t_storage 0) × HasIntStack c

-- The processor's storage is that of its current thread.
abbrev pub HasTls : ℕ → Threads → Type 0
HasTls here s = s.cpu_local_tls here ≡ s.cpu_current_thread here + 16

-- The state in which `kernel_set_current_thread` switches.
abbrev given : ℕ → ℕ → Threads → Threads
given here thread s =
    let c = s.thread thread in
    let sched = c.scheduled in
    put_control thread (record c { scheduled = record sched { t_current_cpu = here } })
      (record s {
        cpu_current_thread = set_at s.cpu_current_thread here thread;
        cpu_local_tls = set_at s.cpu_local_tls here (thread + 16);
      })

-- The state behind the switch.
abbrev loaded : ℕ → Threads → Threads
loaded here s = record s {
  cpu_arch = set_at s.cpu_arch here (switched (tls_stack here s) (s.cpu_arch here));
}

-- Every call that switches the stack of the processor raises an exception.
abbrev pub CannotSwitch : Ltr → ℕ → Threads → Type 0
CannotSwitch ltr here s =
    (thread_enter_syscall ltr here s ≡ none)
    × ((thread_exit_syscall ltr here s ≡ none)
        × ((next : ℕ) → kernel_set_current_thread ltr here next s ≡ none))
