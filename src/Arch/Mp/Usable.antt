-- ===== src/Arch/Mp/Usable.antt =====
-- system/arch/i686/mp.c: what `_i686_initmp` leaves, and that its loop ends.
use rkernel.Arch.Window.{Memory}
use rkernel.Base.{none, ◌^◌, ◌%◌, ◌⊎◌, false, ◌<◌, ◌+◌, true, some, ◌≤◌, ◌≡◌, ℕ, Option, Bool}
use rkernel.Arch.Mp.{Run, ok, page_fault, out_of_fuel, is_mapped, Mp, mpconfig}

abbrev pub IsSingle : Mp → Type 0
IsSingle s =
    (s.ncpu ≡ 1) × ((s.boot_cpu ≡ 0) × ((s.ioapic ≡ 0) × ((s.ioapic_has ≡ 0) × (s.local_apic ≡ 0))))

abbrev pub IsMany : Mp → Type 0
IsMany s = (1 ≤ s.ncpu) × ((0xFE000000 ≤ s.ioapic) × (0xFE000000 ≤ s.local_apic))

-- An entry that begins in the table from `b` to `e`, and a byte of it that is not mapped.
abbrev pub IsCut : Memory → ℕ → ℕ → Type 0
IsCut m b e = (p : ℕ) × (k : ℕ) × ((b ≤ p) × ((p < e) × ((k < 20) × (is_mapped m (p + k) ≡ false))))

-- What the loop over the entries from `b` to `e` comes to: it ends, or meets a cut entry.
abbrev Ends : Memory → ℕ → ℕ → Run (Bool × Mp) → Type 0
Ends m b e (ok out) = Unit
Ends m b e page_fault = IsCut m b e
Ends m b e out_of_fuel = ⊥

-- Nothing changes the memory in a round, and where it faults a byte of its entry is not mapped.
abbrev Round : Memory → ℕ → Option (ℕ × Mp) → Type 0
Round m p none = (k : ℕ) × ((k < 20) × (is_mapped m (p + k) ≡ false))
Round m p (some (n, s)) = s.memory ≡ m

-- What `mpinit` says: there is a processor where it says anything.
abbrev Counted : Memory → ℕ → ℕ → Run (Bool × Mp) → Type 0
Counted m b e (ok (ismp, s)) = ismp ≡ true → 1 ≤ s.ncpu
Counted m b e page_fault = IsCut m b e
Counted m b e out_of_fuel = ⊥

-- The call ends, with one processor and no APIC, or with processors and both kinds of APIC; it raises a page
-- fault only at a cut entry of the table whose memory, begin and end are given.
abbrev pub Usable : Memory → ℕ → ℕ → Run Mp → Type 0
Usable m b e (ok s) = IsSingle s ⊎ IsMany s
Usable m b e page_fault = IsCut m b e
Usable m b e out_of_fuel = ⊥

-- The end of the entries.
abbrev pub table_end : Mp → ℕ
table_end s = (s.g_conf_table_body + s.g_cblen) % 2 ^ 32

-- The state once the table is looked for.
abbrev pub looked : Mp → Mp
looked s = (mpconfig (record s { g_mpptr = 0; g_mplen = 0 })).1
