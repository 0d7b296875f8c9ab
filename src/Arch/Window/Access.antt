-- ===== src/Arch/Window/Access.antt =====
-- system/arch/i686/physmem.c: what is read and written through the window.
use rkernel.Base.{
  ne→==, subst, ◌∙◌, refl, ◌&&◌, ◌⊎◌, sym, if◌then◌else◌, inr, ==→eq, inl, none, Bool-cases, ◌≢◌,
  some, ◌+◌, false, ◌≤◌, ◌≡◌, ◌==◌, ◌<◌, Option, ℕ, arith, zero, suc,
}
use rkernel.Base.{eq→==, ap}
use rkernel.Arch.Window.{
  free_entry, entry_of, entry_address, pte_addr, pte_pw, set_entry, put_entry, Memory, kptmin,
  kptmax, mapped, map_page, unmap_page, load, store, with_page, pmap_pte_set, pmap_pte_get,
}

abbrev FirstFree : (ℕ → ℕ) → ℕ → ℕ → Option ℕ → Type 0
FirstFree table n i none = (j : ℕ) → i ≤ j → j < i + n → table j ≢ 0
FirstFree table n i (some j) = (i ≤ j) × ((j < i + n) × (table j ≡ 0))

free_entry-FirstFree : (table : ℕ → ℕ) (n i : ℕ) → FirstFree table n i (free_entry table n i)
unfolding free_entry
free_entry-FirstFree table zero i = λ j lo hi. absurd (omega arith)
free_entry-FirstFree table (suc n) i = elim (Bool-cases (table i == 0)) [
  | inl free ↦ rw free (omega arith, (omega arith, ==→eq (table i) 0 free))
  | inr used ↦
      rw used (later (free_entry table n (i + 1)) used (free_entry-FirstFree table n (i + 1)))
]
  where
    later :
        (o : Option ℕ)
        → (table i == 0) ≡ false
        → FirstFree table n (i + 1) o
        → FirstFree table (suc n) i o
    later none used all = λ j lo hi. ground (arith, used, all j)
    later (some j) used (lo, (hi, free)) = (omega arith, (omega arith, free))

pub entry_of-entry_address : (i : ℕ) → i < 4096 → entry_of (entry_address i) ≡ i
entry_of-entry_address i h = omega arith

pub entry_address_nonzero : (i : ℕ) → i < 4096 → (entry_address i == 0) ≡ false
entry_address_nonzero i h = ground arith

pte_addr_pw : (pa : ℕ) → pte_addr (pte_addr pa + pte_pw) ≡ pte_addr pa
pte_addr_pw pa = omega arith

pub set_entry-same : (f : ℕ → ℕ) (i v : ℕ) → set_entry f i v i ≡ v
set_entry-same f i v = rw (eq→== i i refl) refl

pub set_entry-other : (f : ℕ → ℕ) (i v j : ℕ) → j ≢ i → set_entry f i v j ≡ f j
set_entry-other f i v j apart = rw (ne→== j i apart) refl

set_entry-pointwise : (f : ℕ → ℕ) (i v j : ℕ) → f i ≡ 0 → set_entry (set_entry f i v) i 0 j ≡ f j
set_entry-pointwise f i v j free = elim (Bool-cases (j == i)) [
  | inl at ↦ rw at (sym (ap f (==→eq j i at) ∙ free))
  | inr other ↦ rw other refl
]

-- An entry that was free is as before once it is mapped and unmapped again.
set_entry-restores : (f : ℕ → ℕ) (i v : ℕ) → f i ≡ 0 → set_entry (set_entry f i v) i 0 ≡ f
set_entry-restores f i v free = λ k j. set_entry-pointwise f i v j free k

-- Physical memory with the word `v` at the index `i` of the page `page`.
abbrev pub with_word : ℕ → ℕ → ℕ → (ℕ → ℕ → ℕ) → ℕ → ℕ → ℕ
with_word page i v phys p j = if p == page && j == i then v else phys p j

abbrev pub WindowIsFull : Memory → Type 0
WindowIsFull m = (j : ℕ) → kptmin ≤ j → j < kptmax → m.page_table j ≢ 0

abbrev pub HasFree : Memory → Type 0
HasFree m = (j : ℕ) × ((kptmin ≤ j) × ((j < kptmax) × (m.page_table j ≡ 0)))

-- The memory `phys` has become, or the panic where no entry of the window is free.
abbrev pub Becomes : (ℕ → ℕ → ℕ) → Memory → Option Memory → Type 0
Becomes phys m none = WindowIsFull m
Becomes phys m (some m') = (m' ≡ record m { phys = phys }) × HasFree m

abbrev pub Gets : ℕ → ℕ → Memory → ℕ × Memory → Type 0
Gets pa i m out = (out ≡ (m.phys (pte_addr pa) i, m)) ⊎ ((out ≡ (0, m)) × WindowIsFull m)

mapped-entry_of :
    (f : ℕ → ℕ) (pa i : ℕ)
    → i < 4096
    → pte_addr (set_entry f i (pte_addr pa + pte_pw) (entry_of (entry_address i))) ≡ pte_addr pa
mapped-entry_of f pa i h =
    rw (entry_of-entry_address i h)
      (ap pte_addr (set_entry-same f i (pte_addr pa + pte_pw)) ∙ pte_addr_pw pa)

-- The window as it was, once the entry `e` for the page is dropped again.
unmap-mapped :
    (pa e : ℕ) (phys : ℕ → ℕ → ℕ) (m : Memory)
    → e < 4096
    → m.page_table e ≡ 0
    → unmap_page (entry_address e) (record (put_entry e (pte_addr pa + pte_pw) m) { phys = phys })
      ≡ record m { phys = phys }
unfolding unmap_page
unmap-mapped pa e phys m bound free = rw (entry_of-entry_address e bound) (λ k. record m {
  page_table = set_entry-restores m.page_table e (pte_addr pa + pte_pw) free k;
  phys = phys;
})

pub store-mapped :
    (pa e i v : ℕ) (phys : ℕ → ℕ → ℕ) (m : Memory)
    → e < 4096
    → store (entry_address e) i v (record (put_entry e (pte_addr pa + pte_pw) m) { phys = phys })
      ≡ record (put_entry e (pte_addr pa + pte_pw) m) { phys = with_word (pte_addr pa) i v phys }
unfolding store
store-mapped pa e i v phys m bound = λ k. record (put_entry e (pte_addr pa + pte_pw) m) {
  phys = with_word (mapped-entry_of m.page_table pa e bound k) i v phys;
}

-- What `with_page` makes of the entry that is free, if any.
abbrev pub in_window : ℕ → (ℕ → Memory → Memory) → Memory → Option ℕ → Option Memory
in_window pa f m o =
    let (va, m') = mapped pa m o in if va == 0 then none else some (unmap_page va (f va m'))

in_window-Becomes :
    (pa : ℕ) (f : ℕ → Memory → Memory) (phys : ℕ → ℕ → ℕ) (m : Memory) (o : Option ℕ)
    → ((e : ℕ)
        → e < 4096
        → f (entry_address e) (put_entry e (pte_addr pa + pte_pw) m)
          ≡ record (put_entry e (pte_addr pa + pte_pw) m) { phys = phys })
    → FirstFree m.page_table 1024 kptmin o
    → Becomes phys m (in_window pa f m o)
unfolding mapped
in_window-Becomes pa f phys m none does full = full
in_window-Becomes pa f phys m (some e) does (lo, (hi, free)) =
    rw (entry_address_nonzero e (omega arith)) (
      ap (unmap_page (entry_address e)) (does e (omega arith))
          ∙ unmap-mapped pa e phys m (omega arith) free,
      (e, (lo, (hi, free))),
    )

pub with_page-Becomes :
    (pa : ℕ) (f : ℕ → Memory → Memory) (phys : ℕ → ℕ → ℕ) (m : Memory)
    → ((e : ℕ)
        → e < 4096
        → f (entry_address e) (put_entry e (pte_addr pa + pte_pw) m)
          ≡ record (put_entry e (pte_addr pa + pte_pw) m) { phys = phys })
    → Becomes phys m (with_page pa f m)
unfolding with_page map_page
with_page-Becomes pa f phys m does =
    in_window-Becomes pa f phys m (free_entry m.page_table 1024 kptmin) does
      (free_entry-FirstFree m.page_table 1024 kptmin)

pub pmap_pte_set-Becomes :
    (pa i v : ℕ) (m : Memory)
    → Becomes (with_word (pte_addr pa) i v m.phys) m (pmap_pte_set pa i v m)
unfolding pmap_pte_set
pmap_pte_set-Becomes pa i v m =
    with_page-Becomes pa (λ va. store va i v) (with_word (pte_addr pa) i v m.phys) m
      (λ e bound. store-mapped pa e i v m.phys m bound)

get_window-Gets :
    (pa i : ℕ) (m : Memory) (o : Option ℕ)
    → FirstFree m.page_table 1024 kptmin o
    → Gets pa i m (
        let (va, m') = mapped pa m o in
        if va == 0 then (0, m') else (load va i m', unmap_page va m'))
unfolding mapped load
get_window-Gets pa i m none full = inr (refl, full)
get_window-Gets pa i m (some e) (lo, (hi, free)) = rw (entry_address_nonzero e (omega arith)) (
    inl (λ k. (
      m.phys (mapped-entry_of m.page_table pa e (omega arith) k) i,
      unmap-mapped pa e m.phys m (omega arith) free k,
    )))

pub pmap_pte_get-Gets : (pa i : ℕ) (m : Memory) → Gets pa i m (pmap_pte_get pa i m)
unfolding pmap_pte_get map_page
pmap_pte_get-Gets pa i m =
    get_window-Gets pa i m (free_entry m.page_table 1024 kptmin)
      (free_entry-FirstFree m.page_table 1024 kptmin)

pub HasFree-not_full : {A : Type 0} (m : Memory) → HasFree m → WindowIsFull m → A
HasFree-not_full m (j, (lo, (hi, free))) full = absurd (full j lo hi free)

pub with_word-same : (page i v : ℕ) (phys : ℕ → ℕ → ℕ) → with_word page i v phys page i ≡ v
with_word-same page i v phys = rw (eq→== page page refl, eq→== i i refl) refl

get_after :
    (pa i v : ℕ) (m : Memory) (out : ℕ × Memory)
    → HasFree m
    → Gets pa i (record m { phys = with_word (pte_addr pa) i v m.phys }) out
    → out ≡ (v, record m { phys = with_word (pte_addr pa) i v m.phys })
get_after pa i v m out free (inl read) =
    read
    ∙ ap (λ (w : ℕ). (w, record m { phys = with_word (pte_addr pa) i v m.phys }))
        (with_word-same (pte_addr pa) i v m.phys)
get_after pa i v m out free (inr (nothing, full)) = HasFree-not_full m free full

-- An entry that has been set is read back, and reading it changes nothing.
pub pmap_pte_get-set :
    (pa i v : ℕ) (m m' : Memory) → pmap_pte_set pa i v m ≡ some m' → pmap_pte_get pa i m' ≡ (v, m')
pmap_pte_get-set pa i v m m' set =
    let (at, free) =
      subst (Becomes (with_word (pte_addr pa) i v m.phys) m) set (pmap_pte_set-Becomes pa i v m) in
    rw at (
      get_after pa i v m
        (pmap_pte_get pa i (record m { phys = with_word (pte_addr pa) i v m.phys })) free
        (pmap_pte_get-Gets pa i (record m { phys = with_word (pte_addr pa) i v m.phys })))
