-- ===== src/Arch/Mp/Tests.antt =====
-- system/arch/i686/mp.c: memory with tables, and one with a structure at the second place.
use rkernel.Arch.Window.{
  get_mp, load_byte, load, map_page, mapped, free_entry, unmap_page, mp_map_range, map_page_range,
  range_mapped, free_run, count_free, fill_entries, mp_unmap_range, unmap_pages,
}
use rkernel.Base.{◌∷◌, [], List, ◌&&◌, ◌==◌, if◌then◌else◌, refl, ◌≡◌, ℕ}
use rkernel.Arch.Mp.{
  Run, ok, page_fault, out_of_fuel, Mp, initmp, mpsearch2, sum, configured, initialized,
  check_apics, single_processor, mpinit, has_processor, scan, scan_after, scan_entry, add_ioapic,
  add_processor, mpconfig, config_found, config_mapped, body_here, body_beyond, body_mapped,
  mpsearch, mpsearch1, search_mapped, search_from,
}
use rkernel.Arch.Mp.Usable.{Usable}

-- The tables of a machine with one processor and one I/O APIC, in the extended data area at 0x9FC00.
abbrev area_word : ℕ → ℕ
area_word i =
    if i == 768
    then 0x5F504D5F
    else if i == 769
    then 0x0009FD00
    else if i == 770
    then 10093569
    else if i == 832
    then 0x504D4350
    else if i == 833
    then 3624140872
    else if i == 841
    then 0xFEE00000
    else if i == 843
    then 33555712
    else if i == 848
    then 1794
    else if i == 849
    then 0xFEC00000
    else 0

abbrev one_processor : Mp
one_processor = record {
  memory = record {
    page_table = λ i. 0;
    page_dir = λ i. 0;
    phys =
        λ p i. if p == 0 && i == 0x103 then 0x9FC00000 else if p == 0x9F000 then area_word i else 0;
  };
  local_apic = 0;
  ioapic_has = 0;
  ioapic_id = 0;
  ioapic = 0;
  ncpu = 0;
  boot_cpu = 0;
  cpu_apics = λ i. 0;
  g_mpptr = 0;
  g_mplen = 0;
  g_ctptr = 0;
  g_ctlen = 0;
  g_cbptr = 0;
  g_cblen = 0;
  g_conf_table_body = 0;
}

-- The number of processors, the one that boots, its APIC, and both kinds of APIC.
abbrev summary : Run Mp → List ℕ
summary page_fault = []
summary out_of_fuel = []
summary (ok s) = s.ncpu ∷ s.boot_cpu ∷ s.cpu_apics 0 ∷ s.ioapic ∷ s.local_apic ∷ []

set_up : summary (initmp one_processor) ≡ 1 ∷ 0 ∷ 5 ∷ 0xFEC00000 ∷ 0xFEE00000 ∷ []
unfolding initmp configured initialized check_apics single_processor mpinit has_processor scan
    scan_after scan_entry add_ioapic add_processor mpconfig config_found config_mapped body_here
    body_beyond body_mapped mpsearch mpsearch1 search_mapped mpsearch2 search_from sum get_mp
    load_byte load map_page mapped free_entry unmap_page mp_map_range map_page_range range_mapped
    free_run count_free fill_entries mp_unmap_range unmap_pages
set_up = refl

-- "_MP_" at 16, and a last byte that makes the sum 0.
abbrev one_structure : ℕ → ℕ
one_structure a =
    if a == 16
    then 95
    else if a == 17
    then 77
    else if a == 18
    then 80
    else if a == 19
    then 95
    else if a == 31
    then 165
    else 0

found_at_16 : mpsearch2 one_structure 0 64 ≡ 16
unfolding mpsearch2 search_from sum
found_at_16 = refl
