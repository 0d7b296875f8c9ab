-- ===== src/Vm/Domain/Mapped.antt =====
-- system/vm/protection_domain.c: the pages that calls of `pd_enter` map, as the processor walks them.
use rkernel.Base.{
  ap, ◌+◌, arith, ◌∙◌, ◌^◌, some, false, [], ◌≡◌, ◌∷◌, ◌/◌, ◌%◌, Option, ℕ, List, refl, All,
  All-mono,
}
use rkernel.Arch.Window.{Memory, pte_addr}
use rkernel.Arch.Window.Access.{HasFree}
use rkernel.Arch.Mmu.{pdx, ptx, pte_for}
use rkernel.Arch.Mmu.Walk.{
  is_static, entry_set, pmap_enter-entry_set, same_entry, walk, walk-entered, walk-other,
}
use rkernel.Vm.Pager.{Enter}
use rkernel.Vm.Domain.{Domain, pd_enter, run_enters}

-- A page table other than the static one is there for the address, and lets its pages be written.
abbrev pub HasTable : Memory → ℕ → Type 0
HasTable m va = (is_static va ≡ false) × (m.page_dir (pdx va) % 4 ≡ 3)

-- The entry of the page directory is present, and does not take away the right to write.
present_table : (pde : ℕ) → pde % 4 ≡ 3 → (pde % 2 ≡ 1) × (pde / 2 % 2 ≡ 1)
present_table pde table = (omega arith, omega arith)

mapped_page :
    (m : Memory) (va pa prot at : ℕ)
    → HasTable m va
    → at / 2 ^ 12 ≡ va / 2 ^ 12
    → walk (entry_set m va (pte_for pa prot)) at ≡ some (pte_addr pa + at % 2 ^ 12, prot / 2 % 2)
mapped_page m va pa prot at (away, table) page =
    let (present, write) = present_table (m.page_dir (pdx va)) table in
    walk-entered m va pa prot at away present page
    ∙ ap (λ (w : ℕ). some (pte_addr pa + at % 2 ^ 12, w)) (rw write (omega arith))

-- No call enters the entry of the address `va`.
abbrev pub AreOthers : Memory → ℕ → List Enter → Type 0
AreOthers m va es = All (λ (e : Enter). same_entry m va e.va ≡ false) es

-- No two calls enter the same entry.
abbrev pub AreDistinct : Memory → List Enter → Type 0
AreDistinct m [] = Unit
AreDistinct m (e ∷ es) = AreOthers m e.va es × AreDistinct m es

-- The page that the call maps is found at each address in it, with its rights.
abbrev pub IsMapped : Memory → Enter → Type 0
IsMapped m e =
    (at : ℕ)
    → at / 2 ^ 12 ≡ e.va / 2 ^ 12
    → walk m at ≡ some (pte_addr e.pa + at % 2 ^ 12, e.prot / 2 % 2)

AreOthers-page :
    (m : Memory) (at va : ℕ) (es : List Enter)
    → at / 2 ^ 12 ≡ va / 2 ^ 12
    → AreOthers m va es
    → AreOthers m at es
AreOthers-page m at va es page others =
    let dir : pdx at ≡ pdx va = omega arith in
    let table : ptx at ≡ ptx va = omega arith in
    All-mono (λ (e : Enter). same_entry m va e.va ≡ false)
      (λ (e : Enter). same_entry m at e.va ≡ false) (λ e h. rw (dir, table) h) es others

-- What the calls leave: the page tables hold every page, and other addresses lead where they led.
abbrev pub Runs : List Enter → Memory → Option Memory → Type 0
Runs es m out =
    (m' : Memory) × (out ≡ some m')
    × All (IsMapped m') es
    × ((at : ℕ) → AreOthers m at es → walk m' at ≡ walk m at)

module _ (kernel : ℕ) (dom : Domain) (own : dom.pd_pmap ≡ kernel) where
  pd_enter-entry_set :
      (va pa prot : ℕ) (m : Memory)
      → HasFree m
      → HasTable m va
      → pd_enter kernel dom va pa prot m ≡ some (0, entry_set m va (pte_for pa prot))
  unfolding pd_enter
  pd_enter-entry_set va pa prot m free table = rw own (
      pmap_enter-entry_set kernel va pa prot m free (present_table (m.page_dir (pdx va)) table.1).0)

  run_enters-step :
      (e : Enter) (es : List Enter) (m m' : Memory)
      → pd_enter kernel dom e.va e.pa e.prot m ≡ some (0, m')
      → run_enters kernel dom (e ∷ es) m ≡ run_enters kernel dom es m'
  unfolding run_enters
  run_enters-step e es m m' done = rw (done, run_enters) refl

  pub run_enters-Runs :
      (es : List Enter) (m : Memory)
      → HasFree m
      → All (λ (e : Enter). HasTable m e.va) es
      → AreDistinct m es
      → Runs es m (run_enters kernel dom es m)
  unfolding run_enters
  run_enters-Runs [] m free tables distinct = (m, refl, tt, λ at others. refl)
  run_enters-Runs (e ∷ es) m free (table, tables) (others, distinct) =
      let m1 : Memory = entry_set m e.va (pte_for e.pa e.prot) in
      let (m2, out, mapped, kept) = run_enters-Runs es m1 free tables distinct in
      (
        m2,
        run_enters-step e es m m1 (pd_enter-entry_set e.va e.pa e.prot m free table) ∙ out,
        (
          λ at page.
              kept at (AreOthers-page m at e.va es page others)
              ∙ mapped_page m e.va e.pa e.prot at table page,
          mapped,
        ),
        λ at apart. kept at apart.1 ∙ walk-other m e.va (pte_for e.pa e.prot) at apart.0,
      )
