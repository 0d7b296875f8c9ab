-- ===== src/Vm/Domain.antt =====
-- system/vm/protection_domain.c and dataspace.c: the domains over the page tables, and their references.
-- A domain is looked up by its pointer; `kernel_pd` is the one of the kernel's. Each lock makes an
-- operation one step.
pub mod Mapped
pub mod Kmem
mod Tests
use rkernel.Base.{
  leb, [], ◌/◌, not, none, ◌∷◌, ◌-◌, ◌%◌, ◌^◌, ◌==◌, some, ◌+◌, if◌then◌else◌, Option, List, ℕ,
}
use rkernel.Arch.Window.{Memory}
use rkernel.Arch.Mmu.{Pmap, pmap_enter, pmap_get_address_range, pmap_kernel}
use rkernel.Kern.Zalloc.{zfree}
use rkernel.Kern.Zalloc
use rkernel.Vm.Pager.{Enter}

-- `struct protection_domain`
pub record Domain : Type 0 where
  pub pd_begin : ℕ
  pub pd_end : ℕ
  pub pd_pmap : ℕ
  pub pd_refc : ℕ

-- The domains, and the memory of the zones that they come from.
pub record Domains : Type 0 where
  pub domain : ℕ → Domain
  pub zones : Zalloc.Memory

abbrev pub put_domain : ℕ → Domain → Domains → Domains
put_domain p dom s = record s { domain = λ q. if q == p then dom else s.domain q }

-- `kernel` is the address of the kernel's page tables.
unfoldable pub pd_init : ℕ → ℕ → Pmap → Domains → Domains
pd_init kernel_pd kernel pmap s =
    let dom = s.domain kernel_pd in
    let (start, end) = pmap_get_address_range pmap in
    put_domain kernel_pd
      (record dom { pd_pmap = pmap_kernel kernel; pd_begin = start; pd_end = end }) s

unfoldable pub pd_enter : ℕ → Domain → ℕ → ℕ → ℕ → Memory → Option (ℕ × Memory)
pd_enter kernel dom va pa prot m = pmap_enter kernel dom.pd_pmap va pa prot m

-- `pmap_remove` does nothing.
unfoldable pub pd_remove : Domain → ℕ → ℕ → Memory → ℕ × Memory
pd_remove dom vab vae m = (0, m)

abbrev pub put_refc : ℕ → ℕ → Domains → Domains
put_refc p refc s = let dom = s.domain p in put_domain p (record dom { pd_refc = refc }) s

unfoldable pub pd_grab : ℕ → ℕ → Domains → Domains
pd_grab kernel_pd dom s =
    if dom == kernel_pd then s else put_refc dom (((s.domain dom).pd_refc + 1) % 2 ^ 32) s

unfoldable pub pd_drop : ℕ → ℕ → Domains → Domains
pd_drop kernel_pd dom s =
    let refc = ((s.domain dom).pd_refc + 2 ^ 32 - 1) % 2 ^ 32 in
    let s' = put_refc dom refc s in
    if dom == kernel_pd
    then s
    else if not (refc == 0)
    then s'
    else record s' { zones = zfree dom s'.zones }

-- The calls of `pd_enter` that the pager and the kernel's memory make, with `none` for a panic; the callers
-- do not look at the status.
unfoldable pub run_enters : ℕ → Domain → List Enter → Memory → Option Memory
run_enters kernel dom [] m = some m
run_enters kernel dom (e ∷ es) m = elim (pd_enter kernel dom e.va e.pa e.prot m) [
  | none ↦ none
  | some (status, m') ↦ run_enters kernel dom es m'
]

-- `struct dataspace` as `ds_construct` fills it; its header takes 16 bytes.
pub record Construct : Type 0 where
  pub ds_n_pages : ℕ
  pub ds_refc : ℕ
  pub ds_size : ℕ

unfoldable pub ds_construct : ℕ → Construct
ds_construct bufsize =
    let size = (bufsize + 2 ^ 32 - 16) % 2 ^ 32 / 4 in
    record { ds_n_pages = if leb (2 ^ 27) size then 2 ^ 27 - 1 else size; ds_refc = 1; ds_size = 0 }
