-- ===== src/Arch/Window/Between.antt =====
-- system/arch/i686/physmem.c: runs of entries that are filled and cleared.
use rkernel.Base.{
  inr, sym, eq→==, ==→eq, zero, refl, inl, ◌∙◌, ◌==◌, true, false, ap, ◌*◌, ◌%◌, ltb, arith,
  Bool-cases, ◌≤◌, ◌^◌, ◌-◌, ◌&&◌, suc, ◌≡◌, ◌<◌, ◌+◌, leb, if◌then◌else◌, ℕ,
}
use rkernel.Arch.Window.{
  entry_of, fill_entries, kernel_base, kptmax, Memory, pte_addr, pte_pw, put_entry, set_entry,
  unmap_page, unmap_pages,
}
use rkernel.Arch.Window.Runs.{IsFreeRun}
use rkernel.Arch.Window.Fill.{later_range, first_range, past_range}

-- `f` between `i` and `i + n`, the table elsewhere.
pub between : ℕ → ℕ → (ℕ → ℕ) → (ℕ → ℕ) → ℕ → ℕ
between n i f table j = if leb i j && ltb j (i + n) then f j else table j

-- The page mapped by the entry `j` when the first entry is `i`.
abbrev pub page_word : ℕ → ℕ → ℕ → ℕ
page_word pa i j = pte_addr ((pa + (j - i) * 2 ^ 12) % 2 ^ 32) + pte_pw

pub in_range : (n i j : ℕ) → (leb i j && ltb j (i + n)) ≡ true → (i ≤ j) × (j < i + n)
in_range n i j h = (ground (arith, h), ground (arith, h))

page_word-first : (pa i : ℕ) → pa < 2 ^ 32 → page_word pa i i ≡ pte_addr pa + pte_pw
page_word-first pa i bound = omega arith

page_word-later :
    (pa i j : ℕ) → i < j → page_word ((pa + 2 ^ 12) % 2 ^ 32) (i + 1) j ≡ page_word pa i j
page_word-later pa i j later = omega arith

between-zero : (i : ℕ) (f table : ℕ → ℕ) (j : ℕ) → table j ≡ between 0 i f table j
unfolding between
between-zero i f table j = rw empty refl
  where
    empty : (leb i j && ltb j (i + 0)) ≡ false
    empty = ground arith

-- A range is its first entry and the range behind it.
between-suc :
    (n i v : ℕ) (f g table : ℕ → ℕ) (j : ℕ)
    → g i ≡ v
    → ((k : ℕ) → i < k → f k ≡ g k)
    → between n (i + 1) f (set_entry table i v) j ≡ between (suc n) i g table j
unfolding between
between-suc n i v f g table j first later = elim (Bool-cases (j == i)) [
  | inl at ↦ rw (==→eq j i at, past_range n i, first_range n i, eq→== i i refl) (sym first)
  | inr other ↦ elim (Bool-cases (leb i j && ltb j (i + suc n))) [
    | inl inside ↦
        let (lo, hi) = in_range (suc n) i j inside in
        rw (later_range n i j other, inside) (later j (ground (arith, other)))
    | inr outside ↦ rw (later_range n i j other, outside, other) refl
  ]
]

pub fill_entries-between :
    (n i pa : ℕ) (table : ℕ → ℕ) (j : ℕ)
    → pa < 2 ^ 32
    → fill_entries n i pa table j ≡ between n i (page_word pa i) table j
unfolding fill_entries
fill_entries-between zero i pa table j bound = between-zero i (page_word pa i) table j
fill_entries-between (suc n) i pa table j bound =
    fill_entries-between n (i + 1) ((pa + 2 ^ 12) % 2 ^ 32)
      (set_entry table i (pte_addr pa + pte_pw)) j (omega arith)
    ∙ between-suc n i (pte_addr pa + pte_pw) (page_word ((pa + 2 ^ 12) % 2 ^ 32) (i + 1))
        (page_word pa i) table j (page_word-first pa i bound) (page_word-later pa i)

pub unmap_pages-between :
    (n i : ℕ) (m : Memory)
    → i + n ≤ kptmax
    → unmap_pages n (kernel_base + i * 2 ^ 12) m
      ≡ record m { page_table = between n i (λ j. 0) m.page_table }
unfolding unmap_pages unmap_page
unmap_pages-between zero i m top =
    λ k. record m { page_table = λ j. between-zero i (λ j. 0) m.page_table j k }
unmap_pages-between (suc n) i m top =
    ap (unmap_pages n (kernel_base + i * 2 ^ 12 + 2 ^ 12)) (λ k. put_entry (address_entry k) 0 m)
    ∙ (ap (λ (va : ℕ). unmap_pages n va (put_entry i 0 m)) next
        ∙ (unmap_pages-between n (i + 1) (put_entry i 0 m) (omega arith) ∙ (λ k. record m {
          page_table =
              λ j. between-suc n i 0 (λ j. 0) (λ j. 0) m.page_table j refl (λ k later. refl) k;
        })))
  where
    next : kernel_base + i * 2 ^ 12 + 2 ^ 12 ≡ kernel_base + (i + 1) * 2 ^ 12
    next = omega arith

    address_entry : entry_of (kernel_base + i * 2 ^ 12) ≡ i
    address_entry = omega arith

pub between-restores :
    (n i : ℕ) (f table : ℕ → ℕ) (j : ℕ)
    → IsFreeRun table n i
    → between n i (λ k. 0) (between n i f table) j ≡ table j
unfolding between
between-restores n i f table j (top, zeros) = elim (Bool-cases (leb i j && ltb j (i + n))) [
  | inl inside ↦ let (lo, hi) = in_range n i j inside in rw inside (sym (zeros j lo hi))
  | inr outside ↦ rw outside refl
]
