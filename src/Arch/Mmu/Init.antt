-- ===== src/Arch/Mmu/Init.antt =====
-- system/arch/i686/mmu.c: the page directory after `pmap_init`.
use rkernel.Base.{
  sym, ==→eq, ◌==◌, subst, ◌∙◌, ltb→ge, zero, suc, ltb→lt, arith, ltb, inr, ap, Bool-cases, ◌≤◌,
  ◌*◌, ◌/◌, ◌+◌, ◌%◌, refl, ◌⊎◌, ◌<◌, some, none, inl, ◌≡◌, Option, ℕ,
}
use rkernel.Arch.Window.{Memory, pmap_zero_page, pte_addr, pte_pw, set_entry}
use rkernel.Arch.Window.Access.{Becomes, HasFree, HasFree-not_full, set_entry-same, set_entry-other}
use rkernel.Arch.Window.Fill.{pmap_zero_page-Becomes, with_words}
use rkernel.Arch.Mmu.{init_entry, init_entries, put_directory, pmap_init, Pmap}
use rkernel.Physmem.Alloc.{Bmaset, vm_phys_alloc}

abbrev pub state_of : Option (Pmap × (Bmaset × Memory)) → Option (Bmaset × Memory)
state_of none = none
state_of (some (p, out)) = some out

-- No page table, or one that is present and writable.
abbrev pub IsTable : ℕ → Type 0
IsTable pde = (pde ≡ 0) ⊎ (pde % 4 ≡ 3)

abbrev pub EntryDone : ℕ → Memory → Option (Bmaset × Memory) → Type 0
EntryDone i m out =
    (s : Bmaset) × ((m' : Memory) × ((out ≡ some (s, m'))
        × ((m'.page_table ≡ m.page_table)
            × ((pde : ℕ) × ((m'.page_dir ≡ set_entry m.page_dir i pde) × IsTable pde)))))

cleared-EntryDone :
    (i page : ℕ) (m : Memory) (phys : ℕ → ℕ → ℕ) (s : Bmaset) (o : Option Memory)
    → HasFree m
    → Becomes phys m o
    → EntryDone i m
        (elim o [ none ↦ none | some m' ↦ some (s, put_directory i (page / 4 * 4 + pte_pw) m') ])
cleared-EntryDone i page m phys s none free full = HasFree-not_full m free full
cleared-EntryDone i page m phys s (some m') free (at, room) = (
  s,
  (
    put_directory i (page / 4 * 4 + pte_pw) m',
    (
      refl,
      (
        ap (λ (n : Memory). n.page_table) at,
        (
          page / 4 * 4 + pte_pw,
          (
            ap (λ (n : Memory). set_entry n.page_dir i (page / 4 * 4 + pte_pw)) at,
            inr (omega arith),
          ),
        ),
      ),
    ),
  ),
)

init_entry-EntryDone :
    (i : ℕ) (m : Memory) (s : Bmaset) (o : Option (ℕ × Bmaset))
    → HasFree m
    → EntryDone i m (init_entry i m s o)
unfolding init_entry
init_entry-EntryDone i m s none free =
    (s, (put_directory i 0 m, (refl, (refl, (0, (refl, inl refl))))))
init_entry-EntryDone i m s (some (page, s')) free =
    cleared-EntryDone i page m (with_words (pte_addr page) 1024 0 (λ j. 0) m.phys) s'
      (pmap_zero_page page m) free (pmap_zero_page-Becomes page m)

-- The entry `j` once the `n` entries from `i` on are done: a page table or 0 in that range, and else the
-- entry of before.
abbrev pub AtEntry : ℕ → ℕ → (ℕ → ℕ) → (ℕ → ℕ) → ℕ → Type 0
AtEntry n i dir dir' j =
    ((dir' j ≡ dir j) × ((j < i) ⊎ (i + n ≤ j))) ⊎ (((i ≤ j) × (j < i + n)) × IsTable (dir' j))

-- The loop ends without a panic.
abbrev pub EntriesDone : ℕ → ℕ → Memory → Option (Bmaset × Memory) → Type 0
EntriesDone n i m out =
    (s : Bmaset) × ((m' : Memory) × ((out ≡ some (s, m'))
        × ((m'.page_table ≡ m.page_table) × ((j : ℕ) → AtEntry n i m.page_dir m'.page_dir j))))

AtEntry-zero : (i : ℕ) (dir : ℕ → ℕ) (j : ℕ) → AtEntry 0 i dir dir j
AtEntry-zero i dir j = inl (
  refl,
  elim (Bool-cases (ltb j i)) [
    | inl low ↦ inl (ltb→lt j i low)
    | inr high ↦ inr (omega (arith, ltb→ge j i high))
  ],
)

AtEntry-suc :
    (n i pde : ℕ) (dir dir' : ℕ → ℕ) (j : ℕ)
    → IsTable pde
    → AtEntry n (i + 1) (set_entry dir i pde) dir' j
    → AtEntry (suc n) i dir dir' j
AtEntry-suc n i pde dir dir' j is (inr ((lo, hi), table)) = inr ((omega arith, omega arith), table)
AtEntry-suc n i pde dir dir' j is (inl (same, inr high)) =
    inl (same ∙ set_entry-other dir i pde j (omega arith), inr (omega arith))
AtEntry-suc n i pde dir dir' j is (inl (same, inl low)) = elim (Bool-cases (j == i)) [
  | inl at ↦
      let e : j ≡ i = ==→eq j i at in
      inr (
        (omega arith, omega arith),
        subst IsTable (sym (same ∙ rw e (set_entry-same dir i pde))) is,
      )
  | inr other ↦ inl (same ∙ rw other refl, inl (ground (arith, other)))
]

done_after :
    (n i : ℕ) (m : Memory) (out : Option (Bmaset × Memory))
    → EntryDone i m out
    → ((s : Bmaset) (m' : Memory)
        → HasFree m'
        → EntriesDone n (i + 1) m' (init_entries n (i + 1) s m'))
    → HasFree m
    → EntriesDone
        (suc n)
        i
        m
        (elim out [ none ↦ none | some (s', m') ↦ init_entries n (i + 1) s' m' ])
done_after n i m out (s1, (m1, (done, (table, (pde, (dir, is)))))) rest (j, (lo, (hi, free))) =
    let (s2, (m2, (done2, (table2, at)))) =
      rest s1 m1 (j, (lo, (hi, ap (λ (f : ℕ → ℕ). f j) table ∙ free))) in
    (
      s2,
      (
        m2,
        (
          rw done done2,
          (
            table2 ∙ table,
            λ k.
                AtEntry-suc n i pde m.page_dir m2.page_dir k is
                  (subst (λ (d : ℕ → ℕ). AtEntry n (i + 1) d m2.page_dir k) dir (at k)),
          ),
        ),
      ),
    )

init_entries-EntriesDone :
    (n i : ℕ) (s : Bmaset) (m : Memory) → HasFree m → EntriesDone n i m (init_entries n i s m)
unfolding init_entries
init_entries-EntriesDone zero i s m free =
    (s, (m, (refl, (refl, λ j. AtEntry-zero i m.page_dir j))))
init_entries-EntriesDone (suc n) i s m free =
    done_after n i m (init_entry i m s (vm_phys_alloc s))
      (init_entry-EntryDone i m s (vm_phys_alloc s) free) (init_entries-EntriesDone n (i + 1)) free

-- `pmap_init` does not panic where an entry of the window is free; the entries of the page directory from
-- 772 on are page tables or 0 then, and the others as before.
pub pmap_init-EntriesDone :
    (slice directory : ℕ) (s : Bmaset) (m : Memory)
    → HasFree m
    → EntriesDone 252 772 m (state_of (pmap_init slice directory s m))
unfolding pmap_init
pmap_init-EntriesDone slice directory s m free =
    let (s', (m', (done, rest))) = init_entries-EntriesDone 252 772 s m free in
    (s', (m', (rw (done, state_of) refl, rest)))
