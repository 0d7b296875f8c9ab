-- ===== src/Vm/Init/Ready.antt =====
-- system/vm/region_mapper.c and kmem_util2.c: the memory of the kernel lies in its first object.
use rkernel.Base.{
  Bool-cases, inl, inr, leb, ◌<◌, ℕ, none, some, ◌≤◌, ◌≡◌, ◌+◌, ◌*◌, ◌^◌, ◌%◌, [], ◌∷◌, refl, arith,
  List, false, ◌==◌, if◌then◌else◌, eq→==,
}
use rkernel.Vm.Region.Insert
use rkernel.Physmem.Alloc.{Bmaset}
use rkernel.Physmem.Alloc.Free.{IsValid}
use rkernel.Arch.Mmu.{Pmap, pmap_get_address_range}
use rkernel.Vm.Init.{
  Statics, rm_init, rm_kalloc, filled, inserted, insert_static, kernel_size, static_pages,
  rmods_size,
}
use rkernel.Vm.Domain.{ds_construct}
use rkernel.Vm.Region.{
  rm_construct, rmo_construct, rm_insert, insert_loop, undefined, dataspace, region_mapper, Rmo,
  vadd,
}
use rkernel.Vm.Pager.{page_size}
use rkernel.Vm.Kmem.{
  grow_loop, first_empty, pages_for, grow_critical, vm_kalloc_ll, grow_from, grow_first,
  grow_childs, set_space, KernelVm, Grown, Growing,
}
use rkernel.Vm.Kmem.Grow.{pages_for-small, grow_loop-Took, Took, growing, grown}

-- The kernel's mapper has one object, at its begin, over at most 128 pages.
abbrev pub IsReady : KernelVm → Type 0
IsReady k =
    (rmo : Rmo) × (k.rm.childs ≡ rmo ∷ [])
    × ((rmo.offset ≡ 0) × ((k.pd_begin ≡ 0xC1000000) × ((k.space rmo.object).n_pages ≤ 128)))

-- Memory that is handed out begins with a page, and lies in the half megabyte from 0xC1000000 on.
abbrev pub LiesInside : Grown → Type 0
LiesInside (none, k') = IsReady k'
LiesInside (some (va, sr), k') =
    (0xC1000000 ≤ va)
    × ((va + sr ≤ 0xC1080000) × ((va % 2 ^ 12 ≡ 0) × (((0 < sr) × (sr % 2 ^ 12 ≡ 0)) × IsReady k')))

grown-LiesInside :
    (k : KernelVm) (rmo : Rmo) (n i : ℕ) (g : Growing) (taken : List ℕ)
    → k.rm.childs ≡ rmo ∷ []
    → rmo.offset ≡ 0
    → k.pd_begin ≡ 0xC1000000
    → (k.space rmo.object).n_pages ≤ 128
    → Took n i (vadd (vadd k.pd_begin rmo.offset) (i * page_size)) (growing k rmo) g taken
    → LiesInside (grown k rmo (vadd (vadd k.pd_begin rmo.offset) (i * page_size)) g)
unfolding set_space
grown-LiesInside k rmo n i g taken one first begin few t =
    let ready : IsReady (grown k rmo 0 g).1 = (
      rmo,
      one,
      (first, (begin, rw (eq→== rmo.object rmo.object refl) omega (arith, t.n_pages))),
    ) in
    elim (Bool-cases (g.sr == 0)) [
      | inl nothing ↦ rw nothing ready
      | inr more ↦
          let size : (0 < g.sr) × (g.sr % 2 ^ 12 ≡ 0) =
            (ground (arith, more), omega (arith, t.sr)) in
          rw more (
            rw (begin, first) omega (arith, t.room),
            (
              rw (begin, first) omega (arith, t.room, t.sr),
              (rw (begin, first) omega (arith, t.room), (size, ready)),
            ),
          )
    ]

grow_from-LiesInside :
    (k : KernelVm) (rmo : Rmo) (n i : ℕ)
    → IsValid k.bmas
    → k.rm.childs ≡ rmo ∷ []
    → rmo.offset ≡ 0
    → k.pd_begin ≡ 0xC1000000
    → (k.space rmo.object).n_pages ≤ 128
    → i ≤ (k.space rmo.object).n_pages
    → n * page_size < 2 ^ 32
    → LiesInside (grow_from k rmo n i)
unfolding grow_from
grow_from-LiesInside k rmo n i valid one first begin few room small =
    let va = vadd (vadd k.pd_begin rmo.offset) (i * page_size) in
    let (taken, took) = grow_loop-Took n i va (growing k rmo) valid room (omega arith) in
    grown-LiesInside k rmo n i (grow_loop n i va (growing k rmo)) taken one first begin few took

grow_first-LiesInside :
    (k : KernelVm) (rmo : Rmo) (n : ℕ)
    → IsValid k.bmas
    → k.rm.childs ≡ rmo ∷ []
    → rmo.offset ≡ 0
    → k.pd_begin ≡ 0xC1000000
    → (k.space rmo.object).n_pages ≤ 128
    → n * page_size < 2 ^ 32
    → LiesInside (grow_first k n rmo)
unfolding grow_first
grow_first-LiesInside k rmo n valid one first begin few small =
    let ready : IsReady k = (rmo, one, (first, (begin, few))) in
    let i = first_empty (k.space rmo.object).n_pages 0 (k.space rmo.object).pages in
    elim (rmo.kind)
      as (λ kind. LiesInside (elim kind [
        | undefined ↦ (none, k)
        | dataspace ↦ if leb (k.space rmo.object).n_pages i then (none, k) else grow_from k rmo n i
        | region_mapper ↦ (none, k)
      ])) [
        | undefined ↦ ready
        | dataspace ↦ elim (Bool-cases (leb (k.space rmo.object).n_pages i)) [
          | inl full ↦ rw full ready
          | inr room ↦ rw room (
              grow_from-LiesInside k rmo n i valid one first begin few (ground (arith, room)) small)
        ]
        | region_mapper ↦ ready
      ]

grow_childs-LiesInside :
    (k : KernelVm) (n : ℕ)
    → IsValid k.bmas
    → IsReady k
    → n * page_size < 2 ^ 32
    → LiesInside (grow_childs k n k.rm.childs)
unfolding grow_childs
grow_childs-LiesInside k n valid (rmo, one, (first, (begin, few))) small =
    rw (one, grow_childs) (grow_first-LiesInside k rmo n valid one first begin few small)

-- Where the kernel's mapper has one object, at its begin, over at most 128 pages, `vm_kalloc_ll` hands out
-- whole pages of the half megabyte from 0xC1000000 on, or none, and leaves the mapper so.
pub vm_kalloc_ll-LiesInside :
    (k : KernelVm) (size : ℕ) → IsValid k.bmas → IsReady k → LiesInside (vm_kalloc_ll k size)
unfolding vm_kalloc_ll grow_critical
vm_kalloc_ll-LiesInside k size valid ready =
    grow_childs-LiesInside k (pages_for size) valid ready (pages_for-small size)

-- The kernel's memory as `rm_init` leaves it.
abbrev pub started_vm : Statics → Bmaset → KernelVm
started_vm s bmas = record {
  rm = s.kernel_rm;
  space = s.spaces;
  pd_begin = 0xC1000000;
  bmas = bmas;
  entered = [];
}

-- The statics with the first object in the mapper.
abbrev first_inserted : ℕ → Statics → Statics
first_inserted rmodss s =
    let objects =
      filled rmodss 0
        (record s { kernel_rm = rm_construct 0x3D000000; locked = false; rmoi = 0 }) in
    let rmo = objects.rmos 0 in
    record objects {
      kernel_rm = record { childs = record rmo { offset = 0 } ∷ []; size = 0x3D000000; refc = 1 };
    }

first_inserted-IsReady :
    (rmodss : ℕ) (s : Statics) (bmas : Bmaset) → IsReady (started_vm (first_inserted rmodss s) bmas)
unfolding filled static_pages ds_construct
first_inserted-IsReady rmodss s bmas =
    let rmo = (filled rmodss 0 s).rmos 0 in
    let at = rmodss + rmods_size * 0 in
    (record rmo { offset = 0 }, refl, (refl, (refl, rw (eq→== at at refl) omega arith)))

-- `rm_init` ends, with one object in a valid mapper over the kernel's part of the addresses.
pub rm_init-IsReady :
    (rmodss : ℕ) (pmap : Pmap) (s : Statics) (bmas : Bmaset)
    → pmap.vab ≡ 0xC1000000
    → pmap.vae ≡ 0xFDFFFFFF
    → (s' : Statics) × (rm_init rmodss pmap s ≡ some s')
      × (IsReady (started_vm s' bmas) × Insert.IsValid s'.kernel_rm)
unfolding rm_init rm_kalloc filled inserted insert_static pmap_get_address_range kernel_size
    rm_construct rm_insert insert_loop static_pages ds_construct rmo_construct
rm_init-IsReady rmodss pmap s bmas low high = (
  first_inserted rmodss s,
  rw (low, high) refl,
  (first_inserted-IsReady rmodss s bmas, record { placed = omega arith }),
)
