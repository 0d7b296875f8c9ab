-- ===== src/Arch/Window.antt =====
-- system/arch/i686/physmem.c: pages of physical memory looked at through free entries of the kernel's
-- page table. Physical memory is the word at each index of each page, a page named by its address. The
-- low bits of a page's address are 0, so that `|` with the flags is `+`. The pages that are looked at are
-- others than those that hold the page table and the page directory. The spinlock makes mapping one
-- step; flushing the TLB changes nothing that is modelled.
pub mod Access
pub mod Fill
pub mod Runs
pub mod Between
pub mod Range
mod Tests
use rkernel.Base.{
  ◌&&◌, not, ◌^◌, ◌==◌, ◌*◌, some, none, ltb, leb, ◌/◌, ◌-◌, ◌+◌, ◌%◌, if◌then◌else◌, Option, ℕ,
  zero, suc,
}

pub record Memory : Type 0 where
  pub page_table : ℕ → ℕ  -- `_i686_kernel_page_table`
  pub page_dir : ℕ → ℕ  -- `_i686_kernel_page_dir`
  pub phys : ℕ → ℕ → ℕ

abbrev pub kptmin : ℕ
kptmin = 3072

abbrev pub kptmax : ℕ
kptmax = 4096

abbrev pub pte_pw : ℕ
pte_pw = 3

abbrev pub kernel_base : ℕ
kernel_base = 0xC0000000

-- `PTE_ADDR` and `PTE_FLAGS`
abbrev pub pte_addr : ℕ → ℕ
pte_addr pte = pte / 2 ^ 12 * 2 ^ 12

abbrev pub pte_flags : ℕ → ℕ
pte_flags pte = pte % 2 ^ 12

abbrev pub set_entry : (ℕ → ℕ) → ℕ → ℕ → ℕ → ℕ
set_entry f i v j = if j == i then v else f j

abbrev pub put_entry : ℕ → ℕ → Memory → Memory
put_entry i v m = record m { page_table = set_entry m.page_table i v }

-- The search of `map_page`, over `n` entries from `i` on.
unfoldable pub free_entry : (ℕ → ℕ) → ℕ → ℕ → Option ℕ
free_entry table zero i = none
free_entry table (suc n) i =
    let rest = free_entry table n (i + 1) in if table i == 0 then some i else rest

abbrev pub entry_address : ℕ → ℕ
entry_address i = (kernel_base + i * 2 ^ 12) % 2 ^ 32

unfoldable pub mapped : ℕ → Memory → Option ℕ → ℕ × Memory
mapped pa m none = (0, m)
mapped pa m (some i) = (entry_address i, put_entry i (pte_addr pa + pte_pw) m)

-- The address of the page in the window, 0 where no entry is free.
unfoldable pub map_page : ℕ → Memory → ℕ × Memory
map_page pa m = mapped pa m (free_entry m.page_table (kptmax - kptmin) kptmin)

abbrev pub entry_of : ℕ → ℕ
entry_of va = (va + 2 ^ 32 - kernel_base) % 2 ^ 32 / 2 ^ 12

unfoldable pub unmap_page : ℕ → Memory → Memory
unmap_page va m = put_entry (entry_of va) 0 m

-- The words of the page that is mapped at `va`; it is read only where a page has been mapped.
unfoldable pub load : ℕ → ℕ → Memory → ℕ
load va i m = m.phys (pte_addr (m.page_table (entry_of va))) i

unfoldable pub store : ℕ → ℕ → ℕ → Memory → Memory
store va i v m =
    let page = pte_addr (m.page_table (entry_of va)) in
    record m { phys = λ p j. if p == page && j == i then v else m.phys p j }

-- `f` on the page at `pa`, in the window; `none` stands for the panic.
unfoldable pub with_page : ℕ → (ℕ → Memory → Memory) → Memory → Option Memory
with_page pa f m =
    let (va, m') = map_page pa m in if va == 0 then none else some (unmap_page va (f va m'))

-- Words set one after the other, `n` of them from `i` on, to what `word` gives.
unfoldable pub store_words : ℕ → ℕ → ℕ → (ℕ → ℕ) → Memory → Memory
store_words va zero i word m = m
store_words va (suc n) i word m = store_words va n (i + 1) word (store va i (word i) m)

-- `memset` over the 4096 bytes of the page.
unfoldable pub pmap_zero_page : ℕ → Memory → Option Memory
pmap_zero_page pa m = with_page pa (λ va. store_words va 1024 0 (λ i. 0)) m

unfoldable pub pmap_pte_set : ℕ → ℕ → ℕ → Memory → Option Memory
pmap_pte_set pa i pte m = with_page pa (λ va. store va i pte) m

-- The entry, 0 where no page can be mapped, and the memory then.
unfoldable pub pmap_pte_get : ℕ → ℕ → Memory → ℕ × Memory
pmap_pte_get pa i m =
    let (va, m') = map_page pa m in if va == 0 then (0, m') else (load va i m', unmap_page va m')

unfoldable pub load_byte : ℕ → ℕ → Memory → ℕ
load_byte va b m = load va (b / 4) m / 2 ^ (8 * (b % 4)) % 256

-- The addresses that the BIOS keeps from 0x400 on: of the extended data area, and of the end of memory.
unfoldable pub get_mp : Memory → (ℕ × ℕ) × Memory
get_mp m =
    let (va, m') = map_page 0 m in
    if va == 0 then ((0, 0), m') else (
      (
        (load_byte va 0x40F m' * 2 ^ 8 + load_byte va 0x40E m') * 2 ^ 4,
        (load_byte va 0x414 m' * 2 ^ 8 + load_byte va 0x413 m') * 2 ^ 10,
      ),
      unmap_page va m',
    )

-- The kernel's part of a page directory begins at entry 768.
unfoldable pub pmap_pdinit : ℕ → Memory → Option Memory
pmap_pdinit pa m =
    with_page pa (λ va. store_words va 1024 0 (λ i. if ltb i 768 then 0 else m.page_dir i)) m

-- The loop of `map_page_range` that counts the free entries from `j` on, up to `n` of them.
unfoldable pub count_free : (ℕ → ℕ) → ℕ → ℕ → ℕ
count_free table zero j = 0
count_free table (suc n) j =
    let rest = suc (count_free table n (j + 1)) in
    if leb kptmax j then 0 else if table j == 0 then rest else 0

-- Its outer loop, over `rounds` entries from `i` on.
unfoldable pub free_run : (ℕ → ℕ) → ℕ → ℕ → ℕ → Option ℕ
free_run table n zero i = none
free_run table n (suc rounds) i =
    let rest = free_run table n rounds (i + 1) in
    if not (table i == 0) then rest else if count_free table n i == n then some i else rest

-- The loop that fills the entries.
unfoldable pub fill_entries : ℕ → ℕ → ℕ → (ℕ → ℕ) → ℕ → ℕ
fill_entries zero i pa table = table
fill_entries (suc n) i pa table =
    fill_entries n (i + 1) ((pa + 2 ^ 12) % 2 ^ 32) (set_entry table i (pte_addr pa + pte_pw))

unfoldable pub range_mapped : ℕ → ℕ → Memory → Option ℕ → ℕ × Memory
range_mapped pa n m none = (0, m)
range_mapped pa n m (some i) =
    (entry_address i, record m { page_table = fill_entries n i pa m.page_table })

unfoldable pub map_page_range : ℕ → ℕ → Memory → ℕ × Memory
map_page_range pa n m =
    let out = range_mapped pa n m (free_run m.page_table n (kptmax - kptmin) kptmin) in
    if n == 0 then (0, m) else out

unfoldable pub mp_map_range : ℕ → ℕ → Memory → ℕ × Memory
mp_map_range pa n m =
    let off = pa % 2 ^ 12 in
    let (va, m') = map_page_range pa ((off + n + 0xFFF) % 2 ^ 32 / 2 ^ 12) m in
    if va == 0 then (0, m') else ((va + off) % 2 ^ 32, m')

-- The loop of `__i686_mp_unmap_range`, over `n` pages from `va` on.
unfoldable pub unmap_pages : ℕ → ℕ → Memory → Memory
unmap_pages zero va m = m
unmap_pages (suc n) va m = unmap_pages n (va + 2 ^ 12) (unmap_page va m)

-- The pages from the one of `va` to the one of its last byte, which lies below 2 ^ 32.
unfoldable pub mp_unmap_range : ℕ → ℕ → Memory → Memory
mp_unmap_range va n m =
    let first = va / 2 ^ 12 in
    let last = (va + n - 1) / 2 ^ 12 in unmap_pages (last + 1 - first) (first * 2 ^ 12) m
