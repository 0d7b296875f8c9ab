-- ===== src/Kern/Threads/Tests.antt =====
-- Threads on a processor whose tables are fresh, and the theorems at them.
use rkernel.Base.{refl, [], ◌∷◌, ◌≡◌, none, some, ◌==◌, if◌then◌else◌, true, arith}
use rkernel.Arch.Segments.{seg, sts_t32a}
use rkernel.Arch.Hal.{hal_initcpu}
use rkernel.Arch.Hal.Task.{Ltr, busy}
use rkernel.Vm.Kmem.{KernelVm, vm_kalloc_ll, grow_critical, grow_childs}
use rkernel.Kern.Zalloc.{Memory, zalloc, zfree, zrefill, take_top, remove_top}
use rkernel.Kern.Stacks.Free.{AreFree}
use rkernel.Kern.Threads.{Threads, Control, thread_allocate, returned}
use rkernel.Kern.Threads.Allocate.{thread_allocate-fails}

abbrev ltr : Ltr
ltr gdt selector = if (gdt 6).kind == sts_t32a then some (busy gdt 6) else none

abbrev no_memory : KernelVm
no_memory = record {
  rm = record { childs = []; size = 0; refc = 0 };
  space = λ _. record { n_pages = 0; size = 0; pages = [] };
  pd_begin = 0;
  bmas = record { block = []; maps = [] };
  entered = [];
}

abbrev user : Control
user = record {
  scheduled = record {
    t_current_cpu = 0;
    t_stateflags = 0;
    t_priority = 16;
    t_nonpreempt = 0;
    t_wait_queue = 0;
  };
  t_storage = λ i. 0x5000;
  t_istacks = λ i. if i == 0 then 0x5000 else 0x6000;
  t_istobjs = λ i. if i == 0 then 0x5000 else 0x6000;
}

-- One free stack, at 0x7000, one free buffer for a thread, and a processor that no thread was given to.
abbrev running : Threads
running = record {
  thread_zone = 500;
  thread_template = user;
  thread = λ t. user;
  links = record { next = λ t. t; prev = λ t. t };
  memory = record {
    word = λ p. if p == 1000 then 0 else 500;
    zone = λ p. record { bufsize = 80; freelist = 1000; count = 1; memtype = 0 };
    vm = no_memory;
  };
  stacks = record { stacks = 0x7000; st_tail = λ k. 0; st_sp = λ k. k; vm = no_memory };
  cpu_current_thread = λ cpu. 0;
  cpu_local_tls = λ cpu. 0;
  cpu_arch = λ cpu. hal_initcpu 0xC0300000 0xC0301000 0xC0302000 (record {
    gdt = λ i. seg 0 0 0 0;
    esp0 = 0;
    ss0 = 0;
    iomb = 0;
    gdtr = (0, 0);
    idtr = (0, 0);
    gs = 0;
  });
}

-- The memory once the one buffer is taken.
abbrev emptied : Memory
emptied = record {
  word = λ p. if p == 1000 then 500 else if p == 1000 then 0 else 500;
  zone = λ p.
      if p == 500
      then record { bufsize = 80; freelist = 0; count = 0; memtype = 0 }
      else record { bufsize = 80; freelist = 1000; count = 1; memtype = 0 };
  vm = no_memory;
}

thread_allocate-fails_example :
    (s' : Threads) × (thread_allocate true running ≡ returned 0 s')
    × (AreFree s'.stacks (0x7000 ∷ [])
        × (s'.memory ≡ zfree 1004 (record emptied { vm = no_memory })))
unfolding zalloc zrefill take_top remove_top vm_kalloc_ll grow_critical grow_childs
thread_allocate-fails_example =
    thread_allocate-fails true 1004 0x7000 emptied running no_memory refl (omega arith)
      (refl, (omega arith, refl)) refl
