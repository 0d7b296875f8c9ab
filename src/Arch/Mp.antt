-- ===== src/Arch/Mp.antt =====
-- system/arch/i686/mp.c: the processors, as the tables of the BIOS list them. Memory is read a byte at a
-- time, through the page table of Arch.Window.
pub mod Usable
pub mod Search
mod Tests
use rkernel.Base.{
  not, ◌||◌, ◌^◌, ◌/◌, ◌-◌, ◌*◌, ◌&&◌, zero, true, none, ltb, leb, false, ◌==◌, ◌+◌, ◌%◌, suc, some,
  if◌then◌else◌, ℕ, Option, Bool,
}
use rkernel.Arch.Window.{Memory, entry_of, get_mp, load_byte, mp_map_range, mp_unmap_range}

-- The global variables.
pub record Mp : Type 0 where
  pub memory : Memory
  pub local_apic : ℕ
  pub ioapic_has : ℕ
  pub ioapic_id : ℕ
  pub ioapic : ℕ
  pub ncpu : ℕ
  pub boot_cpu : ℕ
  pub cpu_apics : ℕ → ℕ
  pub g_mpptr : ℕ
  pub g_mplen : ℕ
  pub g_ctptr : ℕ
  pub g_ctlen : ℕ
  pub g_cbptr : ℕ
  pub g_cblen : ℕ
  pub g_conf_table_body : ℕ

-- What a call comes to: a result, or the fault of a read where no page is mapped.
pub data Run (A : Type 0) : Type 0 where
  ok : A → Run A
  page_fault : Run A
  out_of_fuel : Run A

-- A page is mapped at the address, in the static page table; at the start there is no other one.
abbrev pub is_mapped : Memory → ℕ → Bool
is_mapped m a = ltb (entry_of a) 4096 && m.page_table (entry_of a) % 2 == 1

-- The searches and the checks of the table read only what is mapped just before; the loop of `mpinit`
-- looks whether its bytes are.
abbrev pub byte_at : Mp → ℕ → ℕ
byte_at s a = load_byte a (a % 2 ^ 12) s.memory

-- `GETINT`, of bytes with the lowest first.
abbrev pub get_int : (ℕ → ℕ) → ℕ → ℕ
get_int read a = read a + read (a + 1) * 2 ^ 8 + read (a + 2) * 2 ^ 16 + read (a + 3) * 2 ^ 24

-- Bytes added to `total`.
unfoldable pub sum : (ℕ → ℕ) → ℕ → ℕ → ℕ → ℕ
sum read a zero total = total
sum read a (suc n) total = sum read (a + 1) n ((total + read a) % 256)

-- "_MP_" and "PCMP"
abbrev pub mp_signature : ℕ
mp_signature = 0x5F504D5F

abbrev pub conf_signature : ℕ
conf_signature = 0x504D4350

-- The loop of `mpsearch2`, over `n` places from `p` on; 0 where there is none.
unfoldable pub search_from : (ℕ → ℕ) → ℕ → ℕ → ℕ
search_from read zero p = 0
search_from read (suc n) p =
    let rest = search_from read n (p + 16) in
    if get_int read p == mp_signature && sum read p 16 0 == 0 then p else rest

unfoldable pub mpsearch2 : (ℕ → ℕ) → ℕ → ℕ → ℕ
mpsearch2 read va len = search_from read ((len + 15) / 16) va

-- What `mpsearch1` does with the range that is mapped at `ptr`.
unfoldable pub search_mapped : ℕ → ℕ → Mp → ℕ × Mp
search_mapped ptr len s =
    let mp = mpsearch2 (byte_at s) ptr len in
    if mp == 0
    then (0, record s { memory = mp_unmap_range ptr len s.memory })
    else (mp, record s { g_mpptr = ptr; g_mplen = len })

unfoldable pub mpsearch1 : ℕ → ℕ → Mp → ℕ × Mp
mpsearch1 pa len s =
    let (ptr, m) = mp_map_range pa len s.memory in
    if ptr == 0
    then (0, record s { memory = m })
    else search_mapped ptr len (record s { memory = m })

abbrev pub or_search : ℕ × Mp → (Mp → ℕ × Mp) → ℕ × Mp
or_search (mp, s) next = if mp == 0 then next s else (mp, s)

unfoldable pub mpsearch : Mp → ℕ × Mp
mpsearch s =
    let ((ebda, base), m) = get_mp s.memory in
    let s' = record s { memory = m } in
    or_search
      (or_search (if ebda == 0 then (0, s') else mpsearch1 ebda 1024 s')
        (λ t. if leb 1024 base then mpsearch1 (base - 1024) 1024 t else (0, t)))
      (mpsearch1 0xF0000 0x10000)

abbrev pub endpage : ℕ → ℕ → ℕ
endpage va n = (va + n - 1) / 2 ^ 12 * 2 ^ 12

-- The checks of the checksum, and what follows them, for a table of `length` bytes at `conf`.
unfoldable pub body_mapped : ℕ → ℕ → Mp → ℕ × Mp
body_mapped conf checksum s =
    if s.g_cbptr == 0
    then (0, s)
    else if (checksum + sum (byte_at s) s.g_cbptr s.g_cblen 0) % 256 == 0
    then (conf, record s { g_conf_table_body = s.g_cbptr })
    else (0, s)

unfoldable pub body_beyond : ℕ → ℕ → Mp → ℕ × Mp
body_beyond conf pa s =
    let checksum = sum (byte_at s) conf 44 0 in
    let (va, m) = mp_map_range ((pa + 44) % 2 ^ 32) s.g_cblen s.memory in
    body_mapped conf checksum (record s { memory = m; g_cbptr = va })

unfoldable pub body_here : ℕ → ℕ → Mp → ℕ × Mp
body_here conf length s =
    if sum (byte_at s) conf length 0 == 0
    then (conf, record s { g_cbptr = 0; g_conf_table_body = conf + 44 })
    else (0, record s { g_cbptr = 0 })

-- The checks of the header that is mapped at `conf`.
unfoldable pub config_mapped : ℕ → ℕ → Mp → ℕ × Mp
config_mapped conf pa s =
    let version = byte_at s (conf + 6) in
    let length = byte_at s (conf + 4) + byte_at s (conf + 5) * 2 ^ 8 in
    let s' = record s { g_cblen = (length + 2 ^ 32 - 44) % 2 ^ 32 } in
    if conf == 0 || not (get_int (byte_at s) conf == conf_signature)
    then (0, s)
    else if not (version == 1) && not (version == 4)
    then (0, s)
    else if ltb (endpage conf 44) (endpage conf length)
    then body_beyond conf pa s'
    else body_here conf length s'

-- What `mpconfig` does with the structure that is found, if any.
unfoldable pub config_found : ℕ × Mp → ℕ × Mp
config_found (mp, s) =
    let pa = get_int (byte_at s) (mp + 4) in
    let (va, m) = mp_map_range pa 44 s.memory in
    if mp == 0 || pa == 0
    then (0, s)
    else config_mapped va pa (record s { memory = m; g_ctptr = va; g_ctlen = 44 })

unfoldable pub mpconfig : Mp → ℕ × Mp
mpconfig s = config_found (mpsearch s)

-- An entry for a processor, at `p`.
unfoldable pub add_processor : ℕ → Mp → Mp
add_processor p s =
    let apics : ℕ → ℕ = λ i. if i == s.ncpu then byte_at s (p + 1) else s.cpu_apics i in
    let boot = if byte_at s (p + 3) / 2 % 2 == 1 then s.ncpu else s.boot_cpu in
    let next = (s.ncpu + 1) % 2 ^ 32 in
    if ltb s.ncpu 256
    then record s { cpu_apics = apics; boot_cpu = boot; ncpu = next }
    else record s { ncpu = next }

-- An entry for an I/O APIC.
unfoldable pub add_ioapic : ℕ → Mp → Mp
add_ioapic p s = record s {
  ioapic_has = 0;
  ioapic_id = byte_at s (p + 1);
  ioapic = get_int (byte_at s) (p + 4);
}

-- A round of the loop of `mpinit`: the length of the entry at `p`, 0 for one that is unknown; `none` where
-- a field of the entry that is read is not mapped.
unfoldable pub scan_entry : ℕ → ℕ → Mp → Option (ℕ × Mp)
scan_entry type p s =
    if type == 0
    then if leb 256 s.ncpu || (is_mapped s.memory (p + 1) && is_mapped s.memory (p + 3))
      then some (20, add_processor p s)
      else none
    else if type == 2
    then if is_mapped s.memory (p + 1) && (is_mapped s.memory (p + 4) && is_mapped s.memory (p + 7))
      then some (8, add_ioapic p s)
      else none
    else if type == 1 || (type == 3 || type == 4)
    then some (8, s)
    else some (0, s)

-- What follows a round: the loop goes on behind an entry, and ends at an unknown one.
unfoldable pub scan_after : (ℕ → Mp → Run (Bool × Mp)) → ℕ → Option (ℕ × Mp) → Run (Bool × Mp)
scan_after continue p none = page_fault
scan_after continue p (some (zero, s)) = ok (false, s)
scan_after continue p (some (suc n, s)) = continue (p + suc n) s

-- The loop, from `p` up to `e`.
unfoldable pub scan : ℕ → ℕ → ℕ → Mp → Run (Bool × Mp)
scan zero e p s = if ltb p e then out_of_fuel else ok (true, s)
scan (suc fuel) e p s =
    let round = if is_mapped s.memory p then scan_entry (byte_at s p) p s else none in
    elim (ltb p e) [ false ↦ ok (true, s) | true ↦ scan_after (scan fuel e) p round ]

unfoldable pub has_processor : Run (Bool × Mp) → Run (Bool × Mp)
has_processor page_fault = page_fault
has_processor out_of_fuel = out_of_fuel
has_processor (ok (ismp, s)) = ok (if ltb s.ncpu 1 then false else ismp, s)

-- Each entry has a byte, so that the number of bytes is fuel enough.
unfoldable pub mpinit : Mp → Run (Bool × Mp)
mpinit s =
    let p = s.g_conf_table_body in
    let e = (p + s.g_cblen) % 2 ^ 32 in has_processor (scan (e - p) e p (record s { ioapic = 0 }))

-- The end of `_i686_initmp`.
unfoldable pub single_processor : Mp → Mp
single_processor s = record s { local_apic = 0; boot_cpu = 0; ncpu = 1; ioapic_has = 0; ioapic = 0 }

unfoldable pub check_apics : Bool → Mp → Mp
check_apics ismp s =
    if ismp
      && (not (s.ioapic == 0)
          && (not (s.local_apic == 0) && (leb 0xFE000000 s.ioapic && leb 0xFE000000 s.local_apic)))
    then s
    else single_processor s

unfoldable pub initialized : ℕ → Run (Bool × Mp) → Run Mp
initialized conf page_fault = page_fault
initialized conf out_of_fuel = out_of_fuel
initialized conf (ok (ismp, s)) =
    ok (check_apics ismp (record s { local_apic = get_int (byte_at s) (conf + 36) }))

unfoldable pub configured : ℕ × Mp → Run Mp
configured (conf, s) =
    let s' = record s { ioapic_has = 0; ioapic = 0; boot_cpu = 256 } in
    elim (conf == 0) [ true ↦ ok (single_processor s') | false ↦ initialized conf (mpinit s') ]

unfoldable pub initmp : Mp → Run Mp
initmp s = configured (mpconfig (record s { g_mpptr = 0; g_mplen = 0 }))
