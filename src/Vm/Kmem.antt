-- ===== src/Vm/Kmem.antt =====
-- system/vm/kmem_util2.c: the kernel's own memory. `grow_critical` fills the next pages of the first
-- dataspace of the kernel's region mapper with pages of physical memory. `pd_enter` is the list of
-- the calls made, the last one last; the kernel slice gives the one physical allocator.
pub mod Grow
mod Tests
use rkernel.Base.{
  false, true, zero, some, get_or, [], ◌∷◌, ◌==◌, ◌/◌, ◌+◌, ◌++◌, leb, ◌-◌, ◌*◌, suc, set, none,
  if◌then◌else◌, ℕ, Option, List,
}
use rkernel.Vm.Region.{Rmo, Rm, RmoType, undefined, dataspace, region_mapper, vadd}
use rkernel.Vm.Pager.{Dataspace, Enter, page_size}
use rkernel.Physmem.Alloc.{Bmaset, vm_phys_alloc}

-- What `grow_critical` reads and writes: the kernel's mapper, its dataspaces by their pointers, the
-- first address of its protection domain, the physical allocator, and the calls of `pd_enter`.
pub record KernelVm : Type 0 where
  pub rm : Rm
  pub space : ℕ → Dataspace
  pub pd_begin : ℕ
  pub bmas : Bmaset
  pub entered : List Enter

-- `VM_PROT_KMEM`: read and write.
abbrev pub prot_kmem : ℕ
prot_kmem = 6

-- The search for the first page that is not there, with `n` rounds left; it ends at `ds_n_pages`.
unfoldable pub first_empty : ℕ → ℕ → List ℕ → ℕ
first_empty zero i pages = i
first_empty (suc n) i pages =
    let rest = first_empty n (i + 1) pages in if get_or pages i 0 == 0 then i else rest

-- What the loop changes: the dataspace, the allocator, the calls of `pd_enter`, and `sr`.
pub record Growing : Type 0 where
  pub ds : Dataspace
  pub bmas : Bmaset
  pub entered : List Enter
  pub sr : ℕ

unfoldable pub put_page : ℕ → ℕ → ℕ → Bmaset → Growing → Growing
put_page i va page bmas g =
    let ds = g.ds in
    record {
      ds = record ds { pages = set ds.pages i page };
      bmas = bmas;
      entered = g.entered ++ (record { va = va; pa = page; prot = prot_kmem } ∷ []);
      sr = vadd g.sr page_size;
    }

-- The loop, with `n - j` rounds left.
unfoldable pub grow_loop : ℕ → ℕ → ℕ → Growing → Growing
grow_loop zero i va g = g
grow_loop (suc n) i va g = elim (i == g.ds.n_pages) [
  | true ↦ g
  | false ↦ elim (vm_phys_alloc g.bmas) [
    | none ↦ g
    | some (page, bmas) ↦ grow_loop n (i + 1) (vadd va page_size) (put_page i va page bmas g)
  ]
]

unfoldable pub set_space : (ℕ → Dataspace) → ℕ → Dataspace → ℕ → Dataspace
set_space f p ds q = if q == p then ds else f q

-- The address and the size handed back where the code returns 1, and the kernel's memory after.
abbrev pub Grown : Type 0
Grown = Option (ℕ × ℕ) × KernelVm

-- The part of `grow_critical` behind its early returns: page `i` is the first one to fill.
unfoldable pub grow_from : KernelVm → Rmo → ℕ → ℕ → Grown
grow_from k rmo n i =
    let va = vadd (vadd k.pd_begin rmo.offset) (i * page_size) in
    let g =
      grow_loop n i va
        (record { ds = k.space rmo.object; bmas = k.bmas; entered = k.entered; sr = 0 }) in
    let k' = record k {
      space = set_space k.space rmo.object g.ds;
      bmas = g.bmas;
      entered = g.entered;
    } in
    (if g.sr == 0 then none else some (va, g.sr), k')

unfoldable pub grow_first : KernelVm → ℕ → Rmo → Grown
grow_first k n rmo = elim (rmo.kind) [
  | undefined ↦ (none, k)
  | dataspace ↦
      let ds = k.space rmo.object in
      let i = first_empty ds.n_pages 0 ds.pages in
      if leb ds.n_pages i then (none, k) else grow_from k rmo n i
  | region_mapper ↦ (none, k)
]

unfoldable pub grow_childs : KernelVm → ℕ → List Rmo → Grown
grow_childs k n [] = (none, k)
grow_childs k n (rmo ∷ rest) = grow_first k n rmo

unfoldable pub grow_critical : KernelVm → ℕ → Grown
grow_critical k n = grow_childs k n k.rm.childs

-- The pages that a size takes, rounded up.
abbrev pub pages_for : ℕ → ℕ
pages_for size = vadd size (page_size - 1) / page_size

unfoldable pub vm_alloc_critical : KernelVm → ℕ → Grown
vm_alloc_critical k size = grow_critical k (pages_for size)

unfoldable pub vm_kalloc_ll : KernelVm → ℕ → Grown
vm_kalloc_ll k size = grow_critical k (pages_for size)
