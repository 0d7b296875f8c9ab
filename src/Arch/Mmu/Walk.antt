-- ===== src/Arch/Mmu/Walk.antt =====
-- system/arch/i686/mmu.c: addresses looked up after a page has been entered.
use rkernel.Base.{
  ◌-◌, ◌*◌, leb, ap, true, sym, subst, not, ==→eq, ◌∙◌, eq→==, arith, inr, inl, Bool-cases, ◌/◌,
  ◌^◌, refl, ◌+◌, ◌&&◌, none, ◌==◌, some, if◌then◌else◌, false, ◌≡◌, ◌%◌, Option, Bool, ℕ,
}
use rkernel.Arch.Window.{Memory, pte_addr, pte_flags, pmap_pte_set}
use rkernel.Arch.Window.Access.{
  HasFree-not_full, HasFree, Becomes, WindowIsFull, with_word, pmap_pte_set-Becomes,
}
use rkernel.Arch.Mmu.{pdx, ptx, pte_for, entered, pmap_enter}

-- The address that the page tables give, and whether it can be written (1) or not (0): the two levels of
-- the processor, which take an entry whose lowest bit is 0 for missing, and ask bit 1 of both for a write.
-- `may_write` is that bit of the page directory's entry.
pub walk_entry : ℕ → ℕ → ℕ → Option (ℕ × ℕ)
walk_entry may_write pte va =
    if pte % 2 == 0 then none else some (pte_addr pte + va % 2 ^ 12, may_write * (pte / 2 % 2))

-- The page tables from entry 768 to 771 are the static one that the window is in.
abbrev pub is_static : ℕ → Bool
is_static va = leb 768 (pdx va) && leb (pdx va) 771

-- Bit 1 of the page directory's entry for the address.
abbrev pub may_write : Memory → ℕ → ℕ
may_write m va = m.page_dir (pdx va) / 2 % 2

-- The entry of the second level for the address.
abbrev pub second_level : Memory → ℕ → ℕ
second_level m va =
    if is_static va
    then m.page_table ((pdx va - 768) * 1024 + ptx va)
    else m.phys (pte_addr (m.page_dir (pdx va))) (ptx va)

pub walk : Memory → ℕ → Option (ℕ × ℕ)
walk m va =
    if m.page_dir (pdx va) % 2 == 0
    then none
    else walk_entry (may_write m va) (second_level m va) va

walk_entry-present :
    (may pte va a w : ℕ)
    → pte % 2 ≡ 1
    → pte_addr pte ≡ a
    → pte / 2 % 2 ≡ w
    → walk_entry may pte va ≡ some (a + va % 2 ^ 12, may * w)
unfolding walk_entry
walk_entry-present may pte va a w present at write = rw (present, at, write) refl

pub walk_entry-pte_for :
    (may pa prot va : ℕ)
    → walk_entry may (pte_for pa prot) va ≡ some (pte_addr pa + va % 2 ^ 12, may * (prot / 2 % 2))
unfolding pte_for
walk_entry-pte_for may pa prot va = elim (Bool-cases (prot / 2 % 2 == 1)) [
  | inl write ↦ rw write (
      walk_entry-present may (pte_addr pa + 3) va (pte_addr pa) (prot / 2 % 2) (omega arith)
        (omega arith) (omega (arith, ==→eq (prot / 2 % 2) 1 write)))
  | inr read ↦ rw read (
      walk_entry-present may (pte_addr pa + 1) va (pte_addr pa) (prot / 2 % 2) (omega arith)
        (omega arith) (ground (arith, read)))
]

-- The word that the walk of `va` reads is the one that is entered for `at`.
abbrev pub same_entry : Memory → ℕ → ℕ → Bool
same_entry m va at =
    not (is_static va)
    && (pte_addr (m.page_dir (pdx va)) == pte_addr (m.page_dir (pdx at)) && ptx va == ptx at)

-- The memory once the entry for `at` is `v`.
abbrev pub entry_set : Memory → ℕ → ℕ → Memory
entry_set m at v = record m { phys = with_word (pte_addr (m.page_dir (pdx at))) (ptx at) v m.phys }

second_level-entry_set :
    (m : Memory) (at v va : ℕ)
    → second_level (entry_set m at v) va ≡ (if same_entry m va at then v else second_level m va)
second_level-entry_set m at v va =
    elim (is_static va)
      as (λ b.
        (if b
          then m.page_table ((pdx va - 768) * 1024 + ptx va)
          else (entry_set m at v).phys (pte_addr (m.page_dir (pdx va))) (ptx va))
        ≡ (if not b
              && (pte_addr (m.page_dir (pdx va)) == pte_addr (m.page_dir (pdx at))
                  && ptx va == ptx at)
            then v
            else (if b
                then m.page_table ((pdx va - 768) * 1024 + ptx va)
                else m.phys (pte_addr (m.page_dir (pdx va))) (ptx va)))) [
                  | true ↦ refl
                  | false ↦ refl
                ]

pub walk-entry_set :
    (m : Memory) (at v va : ℕ)
    → walk (entry_set m at v) va ≡ (
        if not (m.page_dir (pdx va) % 2 == 0) && same_entry m va at
        then walk_entry (may_write m va) v va
        else walk m va)
unfolding walk
walk-entry_set m at v va = elim (Bool-cases (m.page_dir (pdx va) % 2 == 0)) [
  | inl missing ↦ rw missing refl
  | inr present ↦
      rw (present, second_level-entry_set m at v va)
        (elim (same_entry m va at)
          as (λ b. walk_entry (may_write m va) (if b then v else second_level m va) va ≡ (
            if b
            then walk_entry (may_write m va) v va
            else walk_entry (may_write m va) (second_level m va) va)) [
              | true ↦ refl
              | false ↦ refl
            ])
]

present_flags : (pde : ℕ) → pde % 2 ≡ 1 → (pte_flags pde == 0) ≡ false
present_flags pde present = ground arith

-- Every address after `va` has been entered: those that are looked up through the entry for `va` lead into
-- the page of `pa`, the others are as before.
abbrev pub AllWalk : ℕ → ℕ → ℕ → Memory → Memory → Type 0
AllWalk va pa prot m m' =
    (other : ℕ)
    → walk m' other ≡ (
        if not (m.page_dir (pdx other) % 2 == 0) && same_entry m other va
        then some (pte_addr pa + other % 2 ^ 12, may_write m other * (prot / 2 % 2))
        else walk m other)

abbrev pub Enters : ℕ → ℕ → ℕ → Memory → Option (ℕ × Memory) → Type 0
Enters va pa prot m none = WindowIsFull m
Enters va pa prot m (some (status, m')) =
    ((status ≡ 0)
      × ((walk m' va ≡ some (pte_addr pa + va % 2 ^ 12, may_write m va * (prot / 2 % 2)))
          × AllWalk va pa prot m m'))

AllWalk-entry_set :
    (va pa prot : ℕ) (m : Memory) → AllWalk va pa prot m (entry_set m va (pte_for pa prot))
AllWalk-entry_set va pa prot m other =
    rw (sym (walk_entry-pte_for (may_write m other) pa prot other))
      (walk-entry_set m va (pte_for pa prot) other)

same_entry_itself : (m : Memory) (va : ℕ) → is_static va ≡ false → same_entry m va va ≡ true
same_entry_itself m va other =
    rw
      (
        other,
        eq→== (pte_addr (m.page_dir (pdx va))) (pte_addr (m.page_dir (pdx va))) refl,
        eq→== (ptx va) (ptx va) refl,
      )
      refl

AllWalk-itself :
    (va pa prot : ℕ) (m m' : Memory)
    → is_static va ≡ false
    → m.page_dir (pdx va) % 2 ≡ 1
    → AllWalk va pa prot m m'
    → walk m' va ≡ some (pte_addr pa + va % 2 ^ 12, may_write m va * (prot / 2 % 2))
AllWalk-itself va pa prot m m' away present all =
    all va ∙ rw (present, same_entry_itself m va away) refl

entered-Enters :
    (va pa prot : ℕ) (m : Memory) (o : Option Memory)
    → is_static va ≡ false
    → m.page_dir (pdx va) % 2 ≡ 1
    → Becomes (with_word (pte_addr (m.page_dir (pdx va))) (ptx va) (pte_for pa prot) m.phys) m o
    → Enters va pa prot m (entered o)
unfolding entered
entered-Enters va pa prot m none away present full = full
entered-Enters va pa prot m (some m') away present (at, free) =
    (refl, (AllWalk-itself va pa prot m m' away present all, all))
  where
    all : AllWalk va pa prot m m'
    all = subst (AllWalk va pa prot m) (sym at) (AllWalk-entry_set va pa prot m)

pte_addr_twice : (pte : ℕ) → pte_addr (pte_addr pte) ≡ pte_addr pte
pte_addr_twice pte = omega arith

-- The entry for `va` set through the window.
table-Becomes :
    (va pte : ℕ) (m : Memory)
    → Becomes
        (with_word (pte_addr (m.page_dir (pdx va))) (ptx va) pte m.phys)
        m
        (pmap_pte_set (pte_addr (m.page_dir (pdx va))) (ptx va) pte m)
table-Becomes va pte m =
    subst
      (λ (a : ℕ).
        Becomes (with_word a (ptx va) pte m.phys) m
          (pmap_pte_set (pte_addr (m.page_dir (pdx va))) (ptx va) pte m))
      (pte_addr_twice (m.page_dir (pdx va)))
      (pmap_pte_set-Becomes (pte_addr (m.page_dir (pdx va))) (ptx va) pte m)

-- Where the page directory of the kernel has a page table for va, not the static one, pmap_enter
-- returns 0, and an address walked through the two levels then leads into the page of pa,
-- writable exactly where prot and the entry of the page directory say so, if it is looked up
-- through the entry of va, as va itself is, and else leads where it led before. The panic happens
-- only where no entry of the window is free.
pub pmap_enter-Enters :
    (kernel va pa prot : ℕ) (m : Memory)
    → is_static va ≡ false
    → m.page_dir (pdx va) % 2 ≡ 1
    → Enters va pa prot m (pmap_enter kernel kernel va pa prot m)
unfolding pmap_enter
pmap_enter-Enters kernel va pa prot m away present =
    rw (eq→== kernel kernel refl, present_flags (m.page_dir (pdx va)) present)
      (entered-Enters va pa prot m
        (pmap_pte_set (pte_addr (m.page_dir (pdx va))) (ptx va) (pte_for pa prot) m) away present
        (table-Becomes va (pte_for pa prot) m))

entered-entry_set :
    (va pa prot : ℕ) (m : Memory) (o : Option Memory)
    → HasFree m
    → Becomes (with_word (pte_addr (m.page_dir (pdx va))) (ptx va) (pte_for pa prot) m.phys) m o
    → entered o ≡ some (0, entry_set m va (pte_for pa prot))
unfolding entered
entered-entry_set va pa prot m none free full = HasFree-not_full m free full
entered-entry_set va pa prot m (some m') free (at, room) = ap (λ (n : Memory). some (0, n)) at

-- Where the window has room too, that is all that happens.
pub pmap_enter-entry_set :
    (kernel va pa prot : ℕ) (m : Memory)
    → HasFree m
    → m.page_dir (pdx va) % 2 ≡ 1
    → pmap_enter kernel kernel va pa prot m ≡ some (0, entry_set m va (pte_for pa prot))
unfolding pmap_enter
pmap_enter-entry_set kernel va pa prot m free present =
    rw (eq→== kernel kernel refl, present_flags (m.page_dir (pdx va)) present)
      (entered-entry_set va pa prot m
        (pmap_pte_set (pte_addr (m.page_dir (pdx va))) (ptx va) (pte_for pa prot) m) free
        (table-Becomes va (pte_for pa prot) m))

-- An address in the page of `va`, and one that is looked up through another entry.
pub walk-entered :
    (m : Memory) (va pa prot at : ℕ)
    → is_static va ≡ false
    → m.page_dir (pdx va) % 2 ≡ 1
    → at / 2 ^ 12 ≡ va / 2 ^ 12
    → walk (entry_set m va (pte_for pa prot)) at
      ≡ some (pte_addr pa + at % 2 ^ 12, may_write m va * (prot / 2 % 2))
walk-entered m va pa prot at away present page =
    let dir : pdx at ≡ pdx va = omega arith in
    let table : ptx at ≡ ptx va = omega arith in
    AllWalk-entry_set va pa prot m at ∙ rw (dir, table, present, same_entry_itself m va away) refl

pub walk-other :
    (m : Memory) (va v at : ℕ) → same_entry m at va ≡ false → walk (entry_set m va v) at ≡ walk m at
walk-other m va v at other =
    walk-entry_set m va v at
    ∙ rw other
        (elim (m.page_dir (pdx at) % 2 == 0)
          as (λ b.
            (if not b && false then walk_entry (may_write m at) v at else walk m at) ≡ walk m at) [
              | true ↦ refl
              | false ↦ refl
            ])
