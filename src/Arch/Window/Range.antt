-- ===== src/Arch/Window/Range.antt =====
-- system/arch/i686/physmem.c: ranges of pages that are mapped and unmapped again.
use rkernel.Base.{
  inr, Option, ◌∙◌, ◌-◌, refl, ◌/◌, ◌*◌, inl, arith, ◌≤◌, ◌+◌, some, none, false, ◌⊎◌, ◌^◌, ◌==◌,
  ◌≡◌, ◌<◌, ◌%◌, if◌then◌else◌, ℕ,
}
use rkernel.Arch.Window.{
  entry_address, free_run, kptmin, kernel_base, map_page_range, Memory, mp_map_range,
  mp_unmap_range, range_mapped,
}
use rkernel.Arch.Window.Access.{entry_address_nonzero}
use rkernel.Arch.Window.Runs.{IsFreeRun, RunFound, free_run-RunFound}
use rkernel.Arch.Window.Between.{
  between-restores, between, page_word, fill_entries-between, unmap_pages-between,
}

abbrev pub pages_of : ℕ → ℕ → ℕ
pages_of pa n = (pa % 2 ^ 12 + n + 0xFFF) % 2 ^ 32 / 2 ^ 12

-- The memory with the range mapped from the entry `e` on.
abbrev pub range_at : ℕ → ℕ → ℕ → Memory → Memory
range_at pa pages e m = record m { page_table = between pages e (page_word pa e) m.page_table }

range_mapped-range_at :
    (pa pages e : ℕ) (m : Memory)
    → pa < 2 ^ 32
    → range_mapped pa pages m (some e) ≡ (entry_address e, range_at pa pages e m)
unfolding range_mapped
range_mapped-range_at pa pages e m bound = λ k. (
  entry_address e,
  record m { page_table = λ j. fill_entries-between pages e pa m.page_table j bound k },
)

unmap-range_at :
    (pa n e : ℕ) (m : Memory)
    → 0 < n
    → n < 2 ^ 31
    → IsFreeRun m.page_table (pages_of pa n) e
    → mp_unmap_range (kernel_base + e * 2 ^ 12 + pa % 2 ^ 12) n (range_at pa (pages_of pa n) e m)
      ≡ m
unfolding mp_unmap_range
unmap-range_at pa n e m some_bytes few (top, zeros) =
    rw (pages, first)
      (unmap_pages-between (pages_of pa n) e (range_at pa (pages_of pa n) e m) top ∙ (λ k.
        record m {
          page_table = λ j.
              between-restores (pages_of pa n) e (page_word pa e) m.page_table j (top, zeros) k;
        }))
  where
    first : (kernel_base + e * 2 ^ 12 + pa % 2 ^ 12) / 2 ^ 12 * 2 ^ 12 ≡ kernel_base + e * 2 ^ 12
    first = omega arith

    pages :
        (kernel_base + e * 2 ^ 12 + pa % 2 ^ 12 + n - 1) / 2 ^ 12
          + 1
          - (kernel_base + e * 2 ^ 12 + pa % 2 ^ 12) / 2 ^ 12
        ≡ pages_of pa n
    pages = omega arith

-- A range that is mapped: the pages one after the other in entries that were free, at the address `va`,
-- and the memory as before once it is unmapped. Else nothing is changed.
abbrev pub MapsRange : ℕ → ℕ → Memory → ℕ × Memory → Type 0
MapsRange pa n m (va, m') =
    ((va ≡ 0) × (m' ≡ m))
    ⊎ ((e : ℕ) × ((kptmin ≤ e)
          × ((va ≡ kernel_base + e * 2 ^ 12 + pa % 2 ^ 12)
              × (IsFreeRun m.page_table (pages_of pa n) e
                  × ((m' ≡ range_at pa (pages_of pa n) e m) × (mp_unmap_range va n m' ≡ m))))))

-- What `mp_map_range` makes of the run that is found, if any.
abbrev with_offset : ℕ → ℕ × Memory → ℕ × Memory
with_offset off (va, m') = if va == 0 then (0, m') else ((va + off) % 2 ^ 32, m')

none-MapsRange :
    (pa n : ℕ) (m : Memory)
    → MapsRange pa n m (with_offset (pa % 2 ^ 12) (range_mapped pa (pages_of pa n) m none))
unfolding range_mapped
none-MapsRange pa n m = inl (refl, refl)

with_offset-MapsRange :
    (pa n : ℕ) (m : Memory) (o : Option ℕ)
    → pa < 2 ^ 32
    → 0 < n
    → n < 2 ^ 31
    → RunFound m.page_table (pages_of pa n) kptmin o
    → MapsRange pa n m (with_offset (pa % 2 ^ 12) (range_mapped pa (pages_of pa n) m o))
with_offset-MapsRange pa n m none bound some_bytes few found = none-MapsRange pa n m
with_offset-MapsRange pa n m (some e) bound some_bytes few (lo, (top, zeros)) =
    rw (range_mapped-range_at pa (pages_of pa n) e m bound) (
      rw (entry_address_nonzero e (omega arith)) (
        inr (
          e,
          (
            lo,
            (
              address,
              (
                (top, zeros),
                (refl, rw address (unmap-range_at pa n e m some_bytes few (top, zeros))),
              ),
            ),
          ),
        )))
  where
    address : (entry_address e + pa % 2 ^ 12) % 2 ^ 32 ≡ kernel_base + e * 2 ^ 12 + pa % 2 ^ 12
    address = omega arith

pub mp_map_range-MapsRange :
    (pa n : ℕ) (m : Memory)
    → pa < 2 ^ 32
    → 0 < n
    → n < 2 ^ 31
    → MapsRange pa n m (mp_map_range pa n m)
unfolding mp_map_range map_page_range
mp_map_range-MapsRange pa n m bound some_bytes few = rw (some_pages) (
    with_offset-MapsRange pa n m (free_run m.page_table (pages_of pa n) 1024 kptmin) bound
      some_bytes few (free_run-RunFound m.page_table (pages_of pa n) 1024 kptmin (omega arith)))
  where
    some_pages : (pages_of pa n == 0) ≡ false
    some_pages = ground arith
