-- ===== src/Arch/Hal.antt =====
-- system/arch/i686/hal.c: the tables of descriptors, the task state, and the interrupts. The registers of
-- the processor that the instructions load are the values they are loaded with.
pub mod Tables
pub mod Task
mod Tests
use rkernel.Base.{
  zero, some, none, false, ◌^◌, ◌==◌, ◌+◌, ◌*◌, true, suc, if◌then◌else◌, Option, ℕ, Bool,
}
use rkernel.Arch.Segments.{Gatedesc, seg, seg16, Segdesc, set_gate, sts_t32a}

-- `struct cpu_arch`, with the three fields of the task state that are set, and what is loaded: `gdtr` and
-- `idtr` as address and size, and the segment register `gs`.
pub record CpuArch : Type 0 where
  pub gdt : ℕ → Segdesc
  pub esp0 : ℕ
  pub ss0 : ℕ
  pub iomb : ℕ
  pub gdtr : ℕ × ℕ
  pub idtr : ℕ × ℕ
  pub gs : ℕ

abbrev pub seg_kcode : ℕ
seg_kcode = 1

abbrev pub seg_kdata : ℕ
seg_kdata = 2

abbrev pub seg_kcpu : ℕ
seg_kcpu = 3

abbrev pub seg_ucode : ℕ
seg_ucode = 4

abbrev pub seg_udata : ℕ
seg_udata = 5

abbrev pub seg_tss : ℕ
seg_tss = 6

abbrev pub dpl_user : ℕ
dpl_user = 3

abbrev pub put_segment : ℕ → Segdesc → CpuArch → CpuArch
put_segment i d c = record c { gdt = λ j. if j == i then d else c.gdt j }

abbrev pub clear_s : Segdesc → Segdesc
clear_s d = record d { s = 0 }

-- The addresses of the table, of the task state and of `cpu_local`, a task state of 104 bytes and 12
-- bytes of `cpu_local`.
unfoldable pub hal_initcpu : ℕ → ℕ → ℕ → CpuArch → CpuArch
hal_initcpu gdt tss cpu_local c =
    let c1 = put_segment seg_kcode (seg 0xA 0 0xFFFFFFFF 0) c in
    let c2 = put_segment seg_kdata (seg 0x2 0 0xFFFFFFFF 0) c1 in
    let c3 = put_segment seg_ucode (seg 0xA 0 0xFFFFFFFF dpl_user) c2 in
    let c4 = put_segment seg_udata (seg 0x2 0 0xFFFFFFFF dpl_user) c3 in
    let c5 = put_segment seg_tss (clear_s (seg16 sts_t32a tss 103 0)) c4 in
    let c6 = put_segment seg_kcpu (seg 0x2 cpu_local 12 0) c5 in
    record c6 { gdtr = (gdt, 56); gs = seg_kcpu * 2 ^ 3 }

-- `stack` is the first word of the current thread's storage. `ltr` is the instruction, on the table and
-- the selector; `none` stands for the exception it raises.
unfoldable pub hal_after_thread_switch :
    ((ℕ → Segdesc) → ℕ → Option (ℕ → Segdesc)) → ℕ → CpuArch → Option CpuArch
hal_after_thread_switch ltr stack c =
    let c' = record c { ss0 = seg_kdata * 2 ^ 3; esp0 = stack; iomb = 0xFFFF } in
    elim (ltr c'.gdt (seg_tss * 2 ^ 3)) [ none ↦ none | some gdt ↦ some (record c' { gdt = gdt }) ]

-- True, as -1 is.
unfoldable pub hal_stack_grows_downward : Bool
hal_stack_grows_downward = true

-- The loop over `n` gates from `i` on.
unfoldable pub set_gates : (ℕ → ℕ) → ℕ → ℕ → (ℕ → Gatedesc) → ℕ → Gatedesc
set_gates vectors zero i idt = idt
set_gates vectors (suc n) i idt =
    set_gates vectors n (i + 1)
      (λ j. if j == i then set_gate false (seg_kcode * 2 ^ 3) (vectors i) 0 else idt j)

-- The table of gates, and the processor that has loaded its address.
unfoldable pub setup_idt : (ℕ → ℕ) → ℕ → (ℕ → Gatedesc) → CpuArch → (ℕ → Gatedesc) × CpuArch
setup_idt vectors address idt c = (set_gates vectors 256 0 idt, record c { idtr = (address, 2048) })
