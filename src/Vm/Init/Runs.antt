-- ===== src/Vm/Init/Runs.antt =====
-- system/vm/region_mapper.c and kmem_util2.c: the memory of the kernel from its start on.
use rkernel.Base.{◌<◌, ℕ, List, Option, none, some, [], ◌∷◌, ◌≡◌, ◌≤◌, ◌+◌, ◌%◌, ◌^◌, All}
use rkernel.Arch.Mmu.{Pmap}
use rkernel.Physmem.Alloc.{Bmaset}
use rkernel.Physmem.Alloc.Free.{IsValid}
use rkernel.Vm.Kmem.{KernelVm, Grown, pages_for, vm_kalloc_ll}
use rkernel.Vm.Kmem.Grow.{Grows, vm_kalloc_ll-Grows}
use rkernel.Vm.Init.{Statics, rm_init}
use rkernel.Vm.Init.Ready.{
  IsReady, LiesInside, vm_kalloc_ll-LiesInside, started_vm, rm_init-IsReady,
}

-- What the calls of `vm_kalloc_ll` with these sizes hand out, one after the other.
unfoldable pub allocations : List ℕ → KernelVm → List (Option (ℕ × ℕ))
allocations [] k = []
allocations (size ∷ sizes) k =
    let grown = vm_kalloc_ll k size in grown.0 ∷ allocations sizes grown.1

-- Whole pages of the half megabyte from 0xC1000000 on, or none.
abbrev pub IsInside : Option (ℕ × ℕ) → Type 0
IsInside none = Unit
IsInside (some (va, sr)) =
    (0xC1000000 ≤ va)
    × ((va + sr ≤ 0xC1080000) × ((va % 2 ^ 12 ≡ 0) × ((0 < sr) × (sr % 2 ^ 12 ≡ 0))))

LiesInside-IsInside : (g : Grown) → LiesInside g → IsInside g.0 × IsReady g.1
LiesInside-IsInside (none, k') ready = (tt, ready)
LiesInside-IsInside (some (va, sr), k') (low, (high, (aligned, (size, ready)))) =
    ((low, (high, (aligned, size))), ready)

Grows-IsValid :
    (k : KernelVm) (n : ℕ) (g : Grown) (taken : List ℕ) → Grows k n g taken → IsValid g.1.bmas
Grows-IsValid k n (none, k') taken (a, b, c, valid) = valid
Grows-IsValid k n (some (va, sr), k') taken (a, b, c, d, e, valid) = valid

allocations-IsInside :
    (sizes : List ℕ) (k : KernelVm)
    → IsValid k.bmas
    → IsReady k
    → All IsInside (allocations sizes k)
unfolding allocations
allocations-IsInside [] k valid ready = tt
allocations-IsInside (size ∷ sizes) k valid ready =
    let (taken, grows) = vm_kalloc_ll-Grows k size valid in
    let (inside, ready') =
      LiesInside-IsInside (vm_kalloc_ll k size) (vm_kalloc_ll-LiesInside k size valid ready) in
    (
      inside,
      allocations-IsInside sizes (vm_kalloc_ll k size).1
          (Grows-IsValid k (pages_for size) (vm_kalloc_ll k size) taken grows) ready',
    )

-- Over the range of addresses of the kernel and a valid physical allocator, rm_init ends, and
-- whatever sizes vm_kalloc_ll is called with from there on, it hands out one or more whole pages
-- of the half megabyte from 0xC1000000 on, or none.
pub rm_init-allocations :
    (rmodss : ℕ) (pmap : Pmap) (s : Statics) (bmas : Bmaset) (sizes : List ℕ)
    → pmap.vab ≡ 0xC1000000
    → pmap.vae ≡ 0xFDFFFFFF
    → IsValid bmas
    → (s' : Statics) × (rm_init rmodss pmap s ≡ some s')
      × All IsInside (allocations sizes (started_vm s' bmas))
rm_init-allocations rmodss pmap s bmas sizes low high valid =
    let (s', done, (ready, placed)) = rm_init-IsReady rmodss pmap s bmas low high in
    (s', done, allocations-IsInside sizes (started_vm s' bmas) valid ready)
