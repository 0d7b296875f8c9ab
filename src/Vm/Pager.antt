-- ===== src/Vm/Pager.antt =====
-- system/vm/rm_pager.c: a page fault goes down from a region mapper to the dataspace that holds its
-- address, whose pages are then entered into the protection domain. `pd_enter` goes to the page
-- tables; here it is the list of the calls made. Objects live at numbers, 0 being the null pointer,
-- and a read through a pointer to no object is a crash.
pub mod Faults
pub mod Depth
mod Tests
use rkernel.Base.{
  ℕ, zero, suc, ◌+◌, ◌-◌, ◌*◌, ◌/◌, ◌%◌, ◌^◌, Option, none, some, List, [], ◌∷◌, ltb, leb, get_or,
  if◌then◌else◌,
}
use rkernel.Vm.Region.{
  Rm, RmoType, undefined, dataspace, region_mapper, PageFault, rm_ll_lookup, vadd, vsub,
}

-- `struct dataspace`: `ds_n_pages`, `ds_size` and `ds_pages`.
pub record Dataspace : Type 0 where
  pub n_pages : ℕ
  pub size : ℕ
  pub pages : List ℕ

-- `struct protection_domain`, as far as a fault reads it.
pub record Pd : Type 0 where
  pub begin : ℕ
  pub end : ℕ

-- What the object pointers point to.
pub record Objects : Type 0 where
  pub mapper : ℕ → Option Rm
  pub space : ℕ → Option Dataspace

-- A call `pd_enter(pd, va, pa, prot, 0)`.
pub record Enter : Type 0 where
  pub va : ℕ
  pub pa : ℕ
  pub prot : ℕ

abbrev pub page_size : ℕ
page_size = 0x1000

-- The loop of `dataspace_map`, with `n` pages left from number `i` on.
unfoldable pub enter_pages : ℕ → ℕ → List ℕ → ℕ → ℕ → List Enter
enter_pages zero i pages base prot = []
enter_pages (suc n) i pages base prot =
    record { va = base; pa = get_or pages i 0; prot = prot }
    ∷ enter_pages n (i + 1) pages (vadd base page_size) prot

unfoldable pub dataspace_map : Dataspace → ℕ → ℕ → ℕ → List Enter
dataspace_map ds base size prot =
    let size' = if ltb ds.size size then ds.size else size in
    let n = size' / page_size in
    let n' = if ltb ds.n_pages n then ds.n_pages else n in enter_pages n' 0 ds.pages base prot

-- The values that a fault handler returns.
pub data Code : Type 0 where
  vm_ok vm_failure vm_segfault : Code

-- One round of the loop: a code with the pages entered, `VM_AGAIN` with the variables `type`,
-- `object` and `fault` as they are then, or a read through a null pointer.
pub data Round : Type 0 where
  done : Code → List Enter → Round
  again : RmoType → ℕ → PageFault → Round
  crash : Round

unfoldable pub rm_dispatch_pagefault : Objects → RmoType → ℕ → PageFault → Round
rm_dispatch_pagefault os undefined object fault = done vm_failure []
rm_dispatch_pagefault os dataspace object fault = elim (os.space object) [
  | none ↦ crash
  | some ds ↦ done vm_ok (dataspace_map ds fault.offset fault.size fault.kind)
]
rm_dispatch_pagefault os region_mapper object fault = elim (os.mapper object) [
  | none ↦ crash
  | some rm ↦ elim (rm_ll_lookup rm fault) [
    | none ↦ again region_mapper 0 fault
    | some h ↦ again h.kind h.object h.fault
  ]
]

pub data Outcome : Type 0 where
  returned : Code → List Enter → Outcome
  crashed : Outcome
  out_of_fuel : Outcome

unfoldable pub pagefault_loop : ℕ → Objects → RmoType → ℕ → PageFault → Outcome
pagefault_loop zero os type object fault = out_of_fuel
pagefault_loop (suc fuel) os type object fault = elim (rm_dispatch_pagefault os type object fault) [
  | done code entered ↦ returned code entered
  | again type' object' fault' ↦ pagefault_loop fuel os type' object' fault'
  | crash ↦ crashed
]

-- `ROUND_UP(fault.size)` of the source's comment.
abbrev pub round_up : ℕ → ℕ
round_up x = vadd x (page_size - 1) / page_size * page_size

abbrev pub domain_size : Pd → ℕ
domain_size pd = round_up (vsub pd.end pd.begin)

abbrev pub first_fault : Pd → ℕ → ℕ → PageFault
first_fault pd va prot = record {
  offset = pd.begin;
  ptr = vsub va pd.begin;
  size = domain_size pd;
  kind = prot;
}

unfoldable pub rm_pagefault : ℕ → Objects → Pd → ℕ → ℕ → ℕ → Outcome
rm_pagefault fuel os pd rm va prot =
    let down = pagefault_loop fuel os region_mapper rm (first_fault pd va prot) in
    if ltb va pd.begin
    then returned vm_segfault []
    else if leb (domain_size pd) (vsub va pd.begin)
    then returned vm_segfault []
    else down
