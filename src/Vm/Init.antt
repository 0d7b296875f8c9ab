-- ===== src/Vm/Init.antt =====
-- system/vm/region_mapper.c: the static objects of the kernel's region mapper. A dataspace is looked up
-- by its address, and `rmodss` is the address of `kernel_rmodss`.
pub mod Ready
pub mod Runs
pub mod Stuck
mod Tests
use rkernel.Base.{
  replicate, true, ◌==◌, leb, ◌^◌, none, ◌*◌, ◌%◌, some, if◌then◌else◌, false, ◌-◌, ◌+◌, min,
  Option, ℕ, Bool,
}
use rkernel.Arch.Mmu.{Pmap, pmap_get_address_range}
use rkernel.Vm.Region.{Rm, Rmo, dataspace, rm_construct, rmo_construct, rm_insert, vadd, vsub}
use rkernel.Vm.Pager.{Dataspace, page_size}
use rkernel.Vm.Domain.{ds_construct}

-- `kernel_rm`, whether `kernel_lock` is held, `kernel_rmoi`, `kernel_rmos` and the dataspaces.
pub record Statics : Type 0 where
  pub kernel_rm : Rm
  pub locked : Bool
  pub rmoi : ℕ
  pub rmos : ℕ → Rmo
  pub spaces : ℕ → Dataspace

abbrev pub n_rmos : ℕ
n_rmos = 4

-- A header of 16 bytes and 130 entries.
abbrev pub rmods_size : ℕ
rmods_size = 536

-- The pages of a static dataspace.
unfoldable pub static_pages : ℕ
static_pages = min (ds_construct rmods_size).ds_n_pages 128

-- The object `i` and its dataspace, as `rm_kalloc` fills them.
unfoldable pub filled : ℕ → ℕ → Statics → Statics
filled rmodss i s =
    let ds = rmodss + rmods_size * i in
    let size = static_pages * page_size % 2 ^ 32 in
    let rmo = rmo_construct (s.rmos i) in
    record s {
      rmoi = i + 1;
      rmos = λ j.
          if j == i
          then record rmo { is_static = true; kind = dataspace; object = ds; size = size }
          else s.rmos j;
      spaces = λ p.
          if p == ds
          then record { n_pages = static_pages; size = size; pages = replicate static_pages 0 }
          else s.spaces p;
    }

-- The index of the object, or `none` for the null pointer; `none` outside of that is a call that waits
-- for its lock for good.
unfoldable pub rm_kalloc : ℕ → Statics → Option (Option ℕ × Statics)
rm_kalloc rmodss s =
    if s.locked
    then none
    else if leb n_rmos s.rmoi
    then some (none, record s { locked = true })
    else some (some s.rmoi, filled rmodss s.rmoi s)

-- What `rm_insert` returns is not looked at; it would read through a null pointer.
unfoldable pub insert_static : Option ℕ → Statics → Option Statics
insert_static none s = none
insert_static (some i) s = elim (rm_insert s.kernel_rm (s.rmos i)) [
  | none ↦ some s
  | some rm ↦ some (record s { kernel_rm = rm })
]

unfoldable pub inserted : Option (Option ℕ × Statics) → Option Statics
inserted none = none
inserted (some (i, s)) = insert_static i s

-- The size of the kernel's part, from the ends of its range.
unfoldable pub kernel_size : ℕ × ℕ → ℕ
kernel_size (start, end) = vadd (vsub (end - end % page_size) start) page_size

unfoldable pub rm_init : ℕ → Pmap → Statics → Option Statics
rm_init rmodss pmap s = inserted (
    rm_kalloc rmodss (record s {
      kernel_rm = rm_construct (kernel_size (pmap_get_address_range pmap));
      locked = false;
      rmoi = 0;
    }))
