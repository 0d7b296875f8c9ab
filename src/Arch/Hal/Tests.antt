-- ===== src/Arch/Hal/Tests.antt =====
-- system/arch/i686/hal.c: a processor with its tables at low addresses.
use rkernel.Base.{◌*◌, none, ◌==◌, ◌+◌, some, ◌≡◌, ℕ, if◌then◌else◌, arith, refl}
use rkernel.Arch.Segments.{seg, seg16, sts_t32a}
use rkernel.Arch.Hal.{CpuArch, hal_initcpu, hal_after_thread_switch}
use rkernel.Arch.Hal.Tables.{Segments, hal_initcpu-Segments}
use rkernel.Arch.Hal.Task.{Ltr, busy, hal_after_thread_switch_once, switched}

abbrev unset : CpuArch
unset = record {
  gdt = λ i. seg 0 0 0 0;
  esp0 = 0;
  ss0 = 0;
  iomb = 0;
  gdtr = (0, 0);
  idtr = (0, 0);
  gs = 0;
}

hal_initcpu-Segments_example :
    Segments 0xC0301000 0xC0302000 (hal_initcpu 0xC0300000 0xC0301000 0xC0302000 unset)
hal_initcpu-Segments_example =
    hal_initcpu-Segments 0xC0300000 0xC0301000 0xC0302000 unset (omega arith) (omega arith)

abbrev vectors : ℕ → ℕ
vectors i = 0xC0101000 + i * 10

abbrev ltr : Ltr
ltr gdt selector = if (gdt 6).kind == sts_t32a then some (busy gdt 6) else none

abbrev fresh : CpuArch
fresh = hal_initcpu 0xC0300000 0xC0301000 0xC0302000 unset

hal_after_thread_switch_once_example :
    (hal_after_thread_switch ltr 0xC0400000 fresh ≡ some (switched 0xC0400000 fresh))
    × (hal_after_thread_switch ltr 0xC0500000 (switched 0xC0400000 fresh) ≡ none)
unfolding hal_initcpu seg16
hal_after_thread_switch_once_example =
    hal_after_thread_switch_once ltr (λ gdt e. rw e refl) (λ gdt e. rw e refl) 0xC0400000 0xC0500000
      fresh refl
