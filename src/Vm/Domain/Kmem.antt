-- ===== src/Vm/Domain/Kmem.antt =====
-- system/vm/kmem_util2.c over protection_domain.c: memory of the kernel is there once it is handed out.
use rkernel.Base.{
  ap, ◌∙◌, ◌++◌, subst, ne→==, ne→==, ==→eq, inl, inr, ◌==◌, zero, suc, [], Bool-cases, some, false,
  arith, ◌≢◌, ◌≡◌, ◌∷◌, ◌^◌, ◌*◌, ◌%◌, ◌<◌, ◌/◌, ◌+◌, ◌≤◌, List, ℕ, refl, All, get_or, length,
}
use rkernel.Arch.Window.{Memory, pte_addr}
use rkernel.Arch.Window.Access.{HasFree}
use rkernel.Arch.Mmu.{pdx, ptx}
use rkernel.Arch.Mmu.Walk.{is_static, same_entry, walk}
use rkernel.Physmem.Alloc.Free.{free_pages, IsValid}
use rkernel.Vm.Pager.{Enter, page_size}
use rkernel.Vm.Region.{vadd}
use rkernel.Vm.Kmem.{KernelVm, Grown, pages_for, vm_kalloc_ll}
use rkernel.Vm.Kmem.Grow.{calls, Grows, vm_kalloc_ll-Grows}
use rkernel.Vm.Init.Ready.{IsReady, LiesInside, vm_kalloc_ll-LiesInside}
use rkernel.Vm.Domain.{Domain, run_enters}
use rkernel.Vm.Domain.Mapped.{AreDistinct, AreOthers, HasTable, IsMapped, run_enters-Runs}

-- From entry 772 on the page directory has page tables that can be written, each its own.
pub record AreReady (m : Memory) : Type 0 where
  pub present : (i : ℕ) → 772 ≤ i → i < 1024 → m.page_dir i % 4 ≡ 3
  pub apart :
      (i j : ℕ)
      → 772 ≤ i
      → i < 1024
      → 772 ≤ j
      → j < 1024
      → pte_addr (m.page_dir i) ≡ pte_addr (m.page_dir j)
      → i ≡ j

outside_static : (va : ℕ) → 0xC1000000 ≤ va → va < 2 ^ 32 → is_static va ≡ false
outside_static va low high = ground arith

module _ (m : Memory) (ready : AreReady m) where
  other_page :
      (a b : ℕ)
      → 0xC1000000 ≤ a
      → a < 2 ^ 32
      → 0xC1000000 ≤ b
      → b < 2 ^ 32
      → a / 2 ^ 12 ≢ b / 2 ^ 12
      → same_entry m a b ≡ false
  other_page a b a_low a_high b_low b_high ne =
      let away : is_static a ≡ false = outside_static a a_low a_high in
      elim (Bool-cases (pte_addr (m.page_dir (pdx a)) == pte_addr (m.page_dir (pdx b)))) [
        | inr apart ↦ rw (away, apart) refl
        | inl same ↦
            let e : pdx a ≡ pdx b =
              ready.apart (pdx a) (pdx b) (omega arith) (omega arith) (omega arith) (omega arith)
                (==→eq (pte_addr (m.page_dir (pdx a))) (pte_addr (m.page_dir (pdx b))) same) in
            rw (away, same, ne→== (ptx a) (ptx b) (λ t. ne (omega arith))) refl
      ]

  calls-HasTable :
      (va : ℕ) (pages : List ℕ)
      → 0xC1000000 ≤ va
      → va + length pages * page_size < 2 ^ 32
      → All (λ (e : Enter). HasTable m e.va) (calls va pages)
  unfolding calls
  calls-HasTable va [] low high = tt
  calls-HasTable va (page ∷ pages) low high = (
    (outside_static va low (omega arith), ready.present (pdx va) (omega arith) (omega arith)),
    calls-HasTable (vadd va page_size) pages (omega arith) (omega arith),
  )

  calls-AreOthers :
      (at va : ℕ) (pages : List ℕ)
      → 0xC1000000 ≤ at
      → at / 2 ^ 12 < va / 2 ^ 12
      → va + length pages * page_size < 2 ^ 32
      → AreOthers m at (calls va pages)
  unfolding calls
  calls-AreOthers at va [] low below high = tt
  calls-AreOthers at va (page ∷ pages) low below high = (
    other_page at va low (omega arith) (omega arith) (omega arith) (omega arith),
    calls-AreOthers at (vadd va page_size) pages low (omega arith) (omega arith),
  )

  calls-AreDistinct :
      (va : ℕ) (pages : List ℕ)
      → 0xC1000000 ≤ va
      → va + length pages * page_size < 2 ^ 32
      → AreDistinct m (calls va pages)
  unfolding calls
  calls-AreDistinct va [] low high = tt
  calls-AreDistinct va (page ∷ pages) low high = (
    calls-AreOthers va (vadd va page_size) pages low (omega arith) (omega arith),
    calls-AreDistinct (vadd va page_size) pages (omega arith) (omega arith),
  )

-- An address in the page number `k` of the calls.
found_page :
    (m : Memory) (va : ℕ) (pages : List ℕ) (k at : ℕ)
    → k < length pages
    → va + length pages * page_size < 2 ^ 32
    → at / 2 ^ 12 ≡ va / 2 ^ 12 + k
    → All (IsMapped m) (calls va pages)
    → walk m at ≡ some (pte_addr (get_or pages k 0) + at % 2 ^ 12, 1)
unfolding calls
found_page m va [] k at few high page mapped = absurd (omega arith)
found_page m va (p ∷ pages) zero at few high page mapped = mapped.0 at (omega arith)
found_page m va (p ∷ pages) (suc k) at few high page mapped =
    found_page m (vadd va page_size) pages k at (omega arith) (omega arith) (omega arith) mapped.1

-- The address is in memory of the kernel that was handed out: once the calls are made it leads, for writing
-- too, to the page of physical memory that the allocator gave up for it.
abbrev pub Backed : ℕ → Domain → Memory → KernelVm → KernelVm → ℕ → ℕ → Type 0
Backed kernel dom m k k' va off =
    (taken : List ℕ) × (m' : Memory) × (free_pages k.bmas ≡ taken ++ free_pages k'.bmas)
    × (run_enters kernel dom k'.entered m ≡ some m')
    × (walk m' (va + off) ≡ some (pte_addr (get_or taken (off / 2 ^ 12) 0) + off % 2 ^ 12, 1))

module _ (kernel : ℕ) (dom : Domain) (own : dom.pd_pmap ≡ kernel) (m : Memory) (ready : AreReady m)
    (free : HasFree m) where
  Grows-Backed :
      (k k' : KernelVm) (n va sr off : ℕ) (taken : List ℕ)
      → k.entered ≡ []
      → Grows k n (some (va, sr), k') taken
      → 0xC1000000 ≤ va
      → va + sr < 2 ^ 32
      → va % 2 ^ 12 ≡ 0
      → off < sr
      → Backed kernel dom m k k' va off
  Grows-Backed k k' n va sr off taken fresh (gone, entered, size, pos, few, valid) low high aligned
        inside =
      let bound : va + length taken * page_size < 2 ^ 32 = omega arith in
      let all : k'.entered ≡ calls va taken =
        entered ∙ ap (λ (l : List Enter). l ++ calls va taken) fresh in
      let (m', out, mapped, kept) =
        run_enters-Runs kernel dom own (calls va taken) m free
          (calls-HasTable m ready va taken low bound)
          (calls-AreDistinct m ready va taken low bound) in
      let here : (va + off) % 2 ^ 12 ≡ off % 2 ^ 12 = omega arith in
      (
        taken,
        m',
        gone,
        ap (λ (l : List Enter). run_enters kernel dom l m) all ∙ out,
        found_page m' va taken (off / 2 ^ 12) (va + off) (omega arith) bound (omega arith) mapped
            ∙ ap (λ (w : ℕ). some (pte_addr (get_or taken (off / 2 ^ 12) 0) + w, 1)) here,
      )

  -- Over a valid physical allocator, with a free entry of the window, writable page tables of the
  -- kernel in place, each its own, and the kernel's mapper as rm_init leaves it, an address in
  -- the memory that vm_kalloc_ll hands out leads, once its calls of pd_enter have run through
  -- pmap_enter, to the page of physical memory that the allocator gave up for it, for writing
  -- too.
  pub vm_kalloc_ll-Backed :
      (k k' : KernelVm) (size va sr off : ℕ)
      → IsValid k.bmas
      → IsReady k
      → k.entered ≡ []
      → vm_kalloc_ll k size ≡ (some (va, sr), k')
      → off < sr
      → Backed kernel dom m k k' va off
  vm_kalloc_ll-Backed k k' size va sr off valid set_up fresh out inside =
      let (taken, grows) = vm_kalloc_ll-Grows k size valid in
      let (low, (high, (aligned, ready'))) =
        subst (λ (g : Grown). LiesInside g) out (vm_kalloc_ll-LiesInside k size valid set_up) in
      Grows-Backed k k' (pages_for size) va sr off taken fresh
        (subst (λ (g : Grown). Grows k (pages_for size) g taken) out grows) low (omega arith)
        aligned inside
