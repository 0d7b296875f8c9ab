-- ===== src/Lib.antt =====
-- A verification library for rkernel, a small kernel for the i686 (repository maxymania/rkernel2).
--
-- The parts of the kernel that are modelled, and how they work together:
--   The boot code hands the ranges of usable memory to the physical allocator (system/physmem), which
--   keeps one bit for each page. The kernel's memory (system/vm/kmem_util2.c) takes pages from it and
--   enters them into the kernel's protection domain, in the stretch of the first object of the
--   kernel's region mapper. The zone allocator (system/kern/zalloc.c) cuts that memory into buffers of
--   one size. The region mapper (system/vm/region_mapper.c) keeps the objects of an address space at
--   offsets in order, and the pager (system/vm/rm_pager.c) follows a page fault through mappers to a
--   dataspace, whose pages it enters. The search tree (system/vm/tree.c) is the kernel's map from
--   numbers to numbers. The formatted output (system/libkern/printf.c) renders numbers and formats.
--   The kernel's protection domain (system/vm/protection_domain.c) enters those pages into the page
--   tables. A thread (system/kern/kern_thread.c) is a buffer of a zone with two stacks
--   (system/kern/kern_stacks.c), one for interrupts in its own code and one for those in calls of the
--   system, which the task state of the processor (system/arch/i686/hal.c) names.
--   The formatted output goes through a pipe (system/iopipe) to the terminal, which turns it into calls
--   of the console (system/platform/i686-pc/terminal.c).
--   Threads take shared and exclusive locks (system/kern/kern_lock.c), which keep those that wait in a
--   queue (system/kern/kern_wait.c), and the scheduler (system/kern/kern_sched.c) keeps the threads that
--   can run in a ring for each priority. Below all of them, the i686 maps pages of physical memory into
--   a window of the kernel's page table (system/arch/i686/physmem.c), through which the page tables of
--   the kernel are read and written (system/arch/i686/mmu.c), and the tables of the BIOS that list the
--   processors are read (system/arch/i686/mp.c).
--
-- Which file models which part; the names of the source's functions are kept:
--   Vm.Tree            system/vm/tree.c. A node is its key, value and depth field, and the links that
--                      a function walked are the way back up. The ring of 64 remembered links is kept.
--   Physmem.Alloc      system/physmem/phys_bmalloc.c. The bitmaps are stretches of one block of words.
--   Physmem.Boot       system/physmem/phys_bmainit.c.
--   Vm.Region          system/vm/region_mapper.c, and Vm.Init its static objects.
--   Vm.Pager           system/vm/rm_pager.c. The calls of pd_enter are collected in a list.
--   Vm.Kmem            system/vm/kmem_util2.c.
--   Vm.Domain          system/vm/protection_domain.c and dataspace.c.
--   Kern.Ring          system/kern/kern_ring.c and system/include/utils/list.h.
--   Kern.Zalloc        system/kern/zalloc.c. Memory is the word at each address.
--   Kern.Wait          system/kern/kern_wait.c, the queues alone, and Kern.Wait.Sleep with the threads.
--   Kern.Stacks        system/kern/kern_stacks.c.
--   Kern.Threads       system/kern/kern_thread.c, over the zones, the stacks and the task state.
--   Kern.Lock          system/kern/kern_lock.c. A function is cut where its thread waits; Kern.Lock.System
--                      is the step relation of many threads that call it.
--   Kern.Sched         system/kern/kern_sched.c, with an assignment of kern_thread.c.
--   Arch.Window        system/arch/i686/physmem.c. A page is its words.
--   Arch.Mmu           system/arch/i686/mmu.c.
--   Arch.Segments      system/arch/i686/include/x86/gdt.h. A descriptor is its bit fields.
--   Arch.Hal           system/arch/i686/hal.c. The instruction ltr is a parameter.
--   Arch.Irq           system/arch/i686/irq_pic.c and irq_lapic.c, and __i686_interrupt of hal.c. The writes
--                      to ports and registers are lists.
--   Arch.Start         the ranges of memory of system/arch/i686/kerninit.c, and kern_initmem of
--                      system/kern/init_main.c.
--   Arch.Mp            system/arch/i686/mp.c. The tables are read through the window.
--   Libkern.Numbers    the functions of system/libkern/printf.c that render a number.
--   Libkern.Format     iopipe_vioprintf of system/libkern/printf.c.
--   Libkern.Info       system/libkern/printinfo.c.
--   Libkern.Bytes      system/libkern/string.c. The loops up to a terminator have fuel.
--   Terminal.Output    system/terminal/ccterm_output.c and ccterm_writeraw of ccterm_base.c.
--   Terminal.Console   system/platform/i686-pc/terminal.c and vga.h, and cc_tab of ccterm_output.c.
--   Terminal.Pipe      system/iopipe/iopipe_ops.c, and the rest of ccterm_base.c and kterm.c.
--   Base               the shared names: tests on numbers, lists, and bits of words.
-- Beside a module stand its child modules with the proofs, named for what they prove, and a module
-- Tests with runs and with each theorem at a concrete input.
--
-- State is passed explicitly. A pointer to an object is a number, 0 the null pointer, and a store is a
-- function from numbers. A failure is an Option or a data type of the part. Numbers of 32 and 64 bits
-- keep their wrap-around written out. A spinlock that a function holds for its whole length makes it
-- one step.
--
-- Bounds and fuel: the loop of _zcram goes round at most once for each byte, that of calc_bufsize
-- fewer than size + 16 times, the one over the processors' table at most once for each byte, the one
-- that writes digits at most once for each bit, and the one over a format at most once for each
-- character. The loop of rm_pagefault has no bound of its own; mappers
-- that hold each other would keep it going. sched_schedule_next has fuel for the rounds in which it
-- meets a suspended thread.
--
-- Not modelled: the assembly, the build scripts and the generated vectors, since they are no C code;
-- the order in which kernel_main calls the parts; port_alive, the aborts and the calls of other
-- processors, which print, halt or are stubs.
pub mod Base
pub mod Vm
pub mod Physmem
pub mod Kern
pub mod Libkern
pub mod Terminal
pub mod Arch
