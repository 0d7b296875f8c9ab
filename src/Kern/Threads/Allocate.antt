-- ===== src/Kern/Threads/Allocate.antt =====
-- system/kern/kern_thread.c: the stacks of a new thread.
use rkernel.Base.{
  subst, [], ◌≢◌, none, ◌^◌, ℕ, List, ap, sym, ◌∙◌, eq→==, ne→==, refl, ◌∷◌, ◌≡◌, Bool,
}
use rkernel.Vm.Kmem.{KernelVm, vm_kalloc_ll}
use rkernel.Kern.Zalloc
use rkernel.Kern.Zalloc.{Memory, Result, zalloc, zfree}
use rkernel.Kern.Stacks.{
  Stacks, kernel_stack_allocate, kernel_stack_release, kernel_stack_new, stack_in,
}
use rkernel.Kern.Stacks.Free.{kernel_stack_release-AreFree, AreFree}
use rkernel.Kern.Threads.{
  linked_ring_init, with_istacks, pair_of, put_control, Threads, Control, returned, take_stack,
  give_stack, equip, thread_in, allocated, thread_allocate,
}
use rkernel.Kern.Threads.Syscall.{HasIntStack}

-- The state without the stack `k`, the first free one.
abbrev without : ℕ → Threads → Threads
without k s =
    let stacks = s.stacks in
    let vm = s.memory.vm in
    record s { stacks = record stacks { stacks = stacks.st_tail k; vm = vm } }

-- The state once the kernel has no memory for a new stack.
abbrev exhausted : KernelVm → Threads → Threads
exhausted vm s =
    let stacks = s.stacks in
    let memory = s.memory in
    record s { stacks = record stacks { vm = vm }; memory = record memory { vm = vm } }

take_free :
    (down : Bool) (k : ℕ) (s : Threads) (ks : List ℕ)
    → AreFree s.stacks (k ∷ ks)
    → take_stack down s ≡ (k, without k s)
unfolding take_stack kernel_stack_allocate
take_free down k s ks (e, (nonzero, rest)) =
    rw (ne→== s.stacks.stacks 0 (λ z. nonzero (sym e ∙ z))) (ap (λ (p : ℕ). (p, without p s)) e)

take_none :
    (down : Bool) (s : Threads) (vm : KernelVm)
    → s.stacks.stacks ≡ 0
    → vm_kalloc_ll s.memory.vm (2 ^ 14) ≡ (none, vm)
    → take_stack down s ≡ (0, exhausted vm s)
unfolding take_stack kernel_stack_allocate kernel_stack_new stack_in
take_none down s vm e full = rw (eq→== s.stacks.stacks 0 e, full, stack_in) refl

-- A thread with the stacks `a` and `b`, the first in use.
abbrev pub HasStacks : ℕ → ℕ → Stacks → Control → Type 0
HasStacks a b stacks c =
    (c.t_istobjs 0 ≡ a)
    × ((c.t_istobjs 1 ≡ b)
        × ((c.t_istacks 0 ≡ stacks.st_sp a) × ((c.t_istacks 1 ≡ stacks.st_sp b) × HasIntStack c)))

-- The state in which the new thread holds its stack objects.
abbrev holding : ℕ → ℕ → ℕ → Threads → Threads
holding thr a b s =
    let template = s.thread_template in
    put_control thr (record template { t_istobjs = pair_of a b }) s

thread_in-equips :
    (down : Bool) (thr a b : ℕ) (s one two : Threads)
    → thr ≢ 0
    → take_stack down s ≡ (a, one)
    → take_stack down one ≡ (b, two)
    → two.thread_template ≡ s.thread_template
    → thread_in down thr s ≡ equip thr (holding thr a b two)
unfolding thread_in
thread_in-equips down thr a b s one two nonzero first second same =
    rw (ne→== thr 0 nonzero, first, second, sym same) refl

equip-HasStacks :
    (thr a b : ℕ) (s : Threads)
    → a ≢ 0
    → b ≢ 0
    → s.thread_template.scheduled.t_stateflags ≡ 0
    → (s' : Threads) × (equip thr (holding thr a b s) ≡ (thr, s'))
      × ((s'.stacks ≡ s.stacks) × HasStacks a b s.stacks (s'.thread thr))
unfolding equip
equip-HasStacks thr a b s a_nonzero b_nonzero plain =
    rw (eq→== thr thr refl, ne→== a 0 a_nonzero, ne→== b 0 b_nonzero)
      (
        put_control thr
            (let template = s.thread_template in
              with_istacks s.stacks (record template { t_istobjs = pair_of a b }))
            (let held = holding thr a b s in record held { links = linked_ring_init thr s.links }),
        refl,
        (refl, rw (eq→== thr thr refl) (refl, (refl, (refl, (refl, rw plain refl))))),
      )

equip-fails :
    (thr k : ℕ) (s : Threads)
    → k ≢ 0
    → (s' : Threads) × (equip thr (holding thr k 0 s) ≡ (0, s'))
      × ((s'.stacks ≡ kernel_stack_release k s.stacks) × (s'.memory ≡ zfree thr s.memory))
unfolding equip give_stack
equip-fails thr k s nonzero =
    rw (eq→== thr thr refl, ne→== k 0 nonzero)
      (
        (let held = holding thr k 0 s in
            record held { stacks = kernel_stack_release k s.stacks; memory = zfree thr s.memory }),
        refl,
        (refl, refl),
      )

-- With two free stacks, and a buffer for its structure, a new thread gets both of them.
pub thread_allocate-HasStacks :
    (down : Bool) (thr a b : ℕ) (m : Memory) (s : Threads) (ks : List ℕ)
    → zalloc s.thread_zone s.memory ≡ Zalloc.ok thr m
    → thr ≢ 0
    → s.thread_template.scheduled.t_stateflags ≡ 0
    → AreFree s.stacks (a ∷ b ∷ ks)
    → (s' : Threads) × (thread_allocate down s ≡ returned thr s')
      × (AreFree s'.stacks ks × HasStacks a b s.stacks (s'.thread thr))
unfolding thread_allocate allocated
thread_allocate-HasStacks down thr a b m s ks made nonzero plain
      (e, (a_nonzero, (e', (b_nonzero, rest)))) =
    let start = record s { memory = m } in
    let one = without a start in
    let two = without b one in
    let (s', done, (same, has)) = equip-HasStacks thr a b two a_nonzero b_nonzero plain in
    (
      s',
      rw
          (
            made,
            thread_in-equips down thr a b start one two nonzero
                (take_free down a start (b ∷ ks) (e, (a_nonzero, (e', (b_nonzero, rest)))))
                (take_free down b one ks (e', (b_nonzero, rest))) refl,
            done,
          )
          refl,
      (subst (λ (t : Stacks). AreFree t ks) (sym same) rest, has),
    )

-- With a buffer for the thread, one free stack, and no memory for another, thread_allocate
-- returns null, the stack is free again, and the buffer is handed back to its zone.
pub thread_allocate-fails :
    (down : Bool) (thr k : ℕ) (m : Memory) (s : Threads) (vm : KernelVm)
    → zalloc s.thread_zone s.memory ≡ Zalloc.ok thr m
    → thr ≢ 0
    → AreFree s.stacks (k ∷ [])
    → vm_kalloc_ll m.vm (2 ^ 14) ≡ (none, vm)
    → (s' : Threads) × (thread_allocate down s ≡ returned 0 s')
      × (AreFree s'.stacks (k ∷ []) × (s'.memory ≡ zfree thr (record m { vm = vm })))
unfolding thread_allocate allocated
thread_allocate-fails down thr k m s vm made nonzero (e, (k_nonzero, rest)) full =
    let start = record s { memory = m } in
    let one = without k start in
    let two = exhausted vm one in
    let (s', done, (same, freed)) = equip-fails thr k two k_nonzero in
    (
      s',
      rw
          (
            made,
            thread_in-equips down thr k 0 start one two nonzero
                (take_free down k start [] (e, (k_nonzero, rest))) (take_none down one vm rest full)
                refl,
            done,
          )
          refl,
      (
        subst (λ (t : Stacks). AreFree t (k ∷ [])) (sym same)
            (kernel_stack_release-AreFree k two.stacks [] k_nonzero tt rest),
        freed,
      ),
    )
