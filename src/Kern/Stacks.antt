-- ===== src/Kern/Stacks.antt =====
-- system/kern/kern_stacks.c: stacks of the kernel. A stack is named by the address of its `struct
-- kernel_stack`, 0 the null pointer. The spinlock makes each operation one step.
pub mod Free
pub mod Size
use rkernel.Base.{
  false, zero, ◌*◌, true, ltb, ◌-◌, ◌%◌, suc, ◌==◌, ◌+◌, none, ◌^◌, some, if◌then◌else◌, Option, ℕ,
  Bool,
}
use rkernel.Kern.Zalloc
use rkernel.Vm.Kmem.{Grown, KernelVm, vm_kalloc_ll}

-- `stacks`, the two fields of every stack, and the memory of the kernel.
pub record Stacks : Type 0 where
  pub stacks : ℕ
  pub st_tail : ℕ → ℕ
  pub st_sp : ℕ → ℕ
  pub vm : KernelVm

abbrev pub set_field : (ℕ → ℕ) → ℕ → ℕ → ℕ → ℕ
set_field f p v q = if q == p then v else f q

-- The loop of `calc_size`; `none` where the fuel ends.
unfoldable pub size_loop : ℕ → ℕ → ℕ → Option ℕ
size_loop zero size num = none
size_loop (suc fuel) size num = elim (ltb num size) [
  | true ↦ size_loop fuel size (num * 2 % 2 ^ 32)
  | false ↦ some num
]

unfoldable pub calc_size : ℕ → ℕ → Option ℕ
calc_size fuel size = size_loop fuel size 1

unfoldable pub kernel_stacks_init : Stacks → Stacks
kernel_stacks_init s = record s { stacks = 0 }

-- The value of `CPU_LOCAL_STACK`; `none` stands for the panic. `down` is `hal_stack_grows_downward()`.
unfoldable pub cpu_stack : Bool → Grown → Option (ℕ × KernelVm)
cpu_stack down (none, vm) = none
cpu_stack down (some (begin, size), vm) = some (if down then (begin + size) % 2 ^ 32 else begin, vm)

unfoldable pub kernel_cpu_init_stack : Bool → KernelVm → Option (ℕ × KernelVm)
kernel_cpu_init_stack down vm = cpu_stack down (vm_kalloc_ll vm (2 ^ 14))

-- The new stack in the memory that is found, with `base` bytes for its structure.
unfoldable pub stack_in : Bool → ℕ → Stacks → Grown → ℕ × Stacks
stack_in down base s (none, vm) = (0, record s { vm = vm })
stack_in down base s (some (begin, size), vm) =
    let top = (begin + (size + 2 ^ 32 - base) % 2 ^ 32) % 2 ^ 32 in
    if down
    then (top, record s { vm = vm; st_sp = set_field s.st_sp top top })
    else (begin, record s { vm = vm; st_sp = set_field s.st_sp begin ((begin + base) % 2 ^ 32) })

-- `struct kernel_stack` has 8 bytes, which `calc_size` keeps.
unfoldable pub kernel_stack_new : Bool → Stacks → ℕ × Stacks
kernel_stack_new down s = stack_in down 8 s (vm_kalloc_ll s.vm (2 ^ 14))

unfoldable pub kernel_stack_allocate : Bool → Stacks → ℕ × Stacks
kernel_stack_allocate down s =
    let fresh = kernel_stack_new down s in
    if s.stacks == 0 then fresh else (s.stacks, record s { stacks = s.st_tail s.stacks })

unfoldable pub kernel_stack_release : ℕ → Stacks → Stacks
kernel_stack_release kstack s =
    if kstack == 0
    then s
    else record s { st_tail = set_field s.st_tail kstack s.stacks; stacks = kstack }
