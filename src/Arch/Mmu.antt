-- ===== src/Arch/Mmu.antt =====
-- system/arch/i686/mmu.c: the kernel's address space. An address space is named by its address;
-- `kernel` is the one of `p_inst_kernel`. The pages of memory are those of Arch.Window. The addresses
-- that are entered lie from `vab` on, so that their page tables are not the one the window itself is in.
pub mod Walk
pub mod Init
mod Tests
use rkernel.Base.{
  ◌-◌, zero, ◌^◌, ◌==◌, ◌+◌, ◌*◌, ◌%◌, suc, ◌/◌, some, none, if◌then◌else◌, ℕ, Option,
}
use rkernel.Arch.Window.{
  Memory, kernel_base, pmap_pte_set, pmap_zero_page, pte_addr, pte_flags, pte_pw, set_entry,
}
use rkernel.Physmem.Alloc.{Bmaset, vm_phys_alloc}

-- `slice` is a pointer.
pub record Pmap : Type 0 where
  pub slice : ℕ
  pub pdir : ℕ
  pub vab : ℕ
  pub vae : ℕ

abbrev pub pdx : ℕ → ℕ
pdx va = va / 2 ^ 22 % 1024

abbrev pub ptx : ℕ → ℕ
ptx va = va / 2 ^ 12 % 1024

abbrev pub put_directory : ℕ → ℕ → Memory → Memory
put_directory i pte m = record m { page_dir = set_entry m.page_dir i pte }

-- A round of the loop of `pmap_init`; `none` stands for the panic of `pmap_zero_page`.
unfoldable pub init_entry : ℕ → Memory → Bmaset → Option (ℕ × Bmaset) → Option (Bmaset × Memory)
init_entry i m s none = some (s, put_directory i 0 m)
init_entry i m s (some (page, s')) = elim (pmap_zero_page page m) [
  | none ↦ none
  | some m' ↦ some (s', put_directory i (page / 4 * 4 + pte_pw) m')
]

unfoldable pub init_entries : ℕ → ℕ → Bmaset → Memory → Option (Bmaset × Memory)
init_entries zero i s m = some (s, m)
init_entries (suc n) i s m = elim (init_entry i m s (vm_phys_alloc s)) [
  | none ↦ none
  | some (s', m') ↦ init_entries n (i + 1) s' m'
]

-- `slice` is the current processor's and `directory` the address of `_i686_kernel_page_dir`.
unfoldable pub pmap_init : ℕ → ℕ → Bmaset → Memory → Option (Pmap × (Bmaset × Memory))
pmap_init slice directory bmas m = elim (init_entries 252 772 bmas m) [
  | none ↦ none
  | some out ↦ some (
    record {
      slice = slice;
      pdir = (directory + 2 ^ 32 - kernel_base) % 2 ^ 32;
      vab = 0xC1000000;
      vae = 0xFDFFFFFF;
    },
    out,
  )
]

-- `pmap_kernel`, `pmap_create` and `pmap_kernslice`
unfoldable pub pmap_kernel : ℕ → ℕ
pmap_kernel kernel = kernel

unfoldable pub pmap_create : ℕ
pmap_create = 0

unfoldable pub pmap_kernslice : Pmap → ℕ
pmap_kernslice p = p.slice

unfoldable pub pmap_get_address_range : Pmap → ℕ × ℕ
pmap_get_address_range p = (p.vab, p.vae)

-- `PTE_ADDR(pa) | PTE_P`, and `PTE_W` where `prot` has `VM_PROT_WRITE`.
unfoldable pub pte_for : ℕ → ℕ → ℕ
pte_for pa prot = if prot / 2 % 2 == 1 then pte_addr pa + 3 else pte_addr pa + 1

unfoldable pub entered : Option Memory → Option (ℕ × Memory)
entered none = none
entered (some m) = some (0, m)

-- The status and the memory; `none` stands for the panic.
unfoldable pub pmap_enter : ℕ → ℕ → ℕ → ℕ → ℕ → Memory → Option (ℕ × Memory)
pmap_enter kernel pmap va pa prot m =
    let pta = m.page_dir (pdx va) in
    if pmap == kernel
    then if pte_flags pta == 0
      then some (1, m)
      else entered (pmap_pte_set (pte_addr pta) (ptx va) (pte_for pa prot) m)
    else some (1, m)
