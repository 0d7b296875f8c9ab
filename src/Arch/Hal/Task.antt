-- ===== src/Arch/Hal/Task.antt =====
-- system/arch/i686/hal.c: the task state after a switch of threads. The instruction `ltr` is documented to
-- take a descriptor of an available task state, to mark it as busy, and to raise an exception for a busy
-- one.
use rkernel.Base.{refl, ◌==◌, some, none, ◌≡◌, if◌then◌else◌, Option, ℕ}
use rkernel.Arch.Segments.{Segdesc, sts_t32a}
use rkernel.Arch.Hal.{CpuArch, hal_after_thread_switch}

abbrev pub Ltr : Type 0
Ltr = (ℕ → Segdesc) → ℕ → Option (ℕ → Segdesc)

-- The table with the descriptor `i` marked as busy.
abbrev pub busy : (ℕ → Segdesc) → ℕ → ℕ → Segdesc
busy gdt i j = if j == i then (let d = gdt i in record d { kind = 0xB }) else gdt j

abbrev pub TakesAvailable : Ltr → Type 0
TakesAvailable ltr = (gdt : ℕ → Segdesc) → (gdt 6).kind ≡ sts_t32a → ltr gdt 48 ≡ some (busy gdt 6)

abbrev pub RefusesBusy : Ltr → Type 0
RefusesBusy ltr = (gdt : ℕ → Segdesc) → (gdt 6).kind ≡ 0xB → ltr gdt 48 ≡ none

-- The processor once it has switched to a thread.
abbrev pub switched : ℕ → CpuArch → CpuArch
switched stack c = record c { ss0 = 16; esp0 = stack; iomb = 0xFFFF; gdt = busy c.gdt 6 }

module _ (ltr : Ltr) (takes : TakesAvailable ltr) where
  pub first_switch :
      (stack : ℕ) (c : CpuArch)
      → (c.gdt 6).kind ≡ sts_t32a
      → hal_after_thread_switch ltr stack c ≡ some (switched stack c)
  unfolding hal_after_thread_switch
  first_switch stack c fresh = rw (takes c.gdt fresh, hal_after_thread_switch) refl

module _ (ltr : Ltr) (takes : TakesAvailable ltr) (refuses : RefusesBusy ltr) where
  -- Where ltr takes an available task state, marks it busy, and refuses a busy one, the first
  -- hal_after_thread_switch sets the stack of the kernel and the second raises an exception.
  pub hal_after_thread_switch_once :
      (stack next : ℕ) (c : CpuArch)
      → (c.gdt 6).kind ≡ sts_t32a
      → (hal_after_thread_switch ltr stack c ≡ some (switched stack c))
        × (hal_after_thread_switch ltr next (switched stack c) ≡ none)
  unfolding hal_after_thread_switch
  hal_after_thread_switch_once stack next c fresh = (
    first_switch ltr takes stack c fresh,
    rw (refuses (busy c.gdt 6) refl, hal_after_thread_switch) refl,
  )
