-- ===== src/Arch/Window/Tests.antt =====
-- system/arch/i686/physmem.c: pages written in a memory that is all 0.
use rkernel.Base.{arith, ◌+◌, ◌*◌, none, ◌==◌, some, refl, ltb, ◌≡◌, if◌then◌else◌, Option}
use rkernel.Arch.Window.{mp_map_range, set_entry, Memory, map_page, free_entry, mapped}
use rkernel.Arch.Window.Range.{MapsRange, mp_map_range-MapsRange}

abbrev clear_memory : Memory
clear_memory = record {
  page_table = λ i. 0;
  page_dir = λ i. if ltb i 772 then i * 4096 + 3 else 0;
  phys = λ p i. 0;
}

abbrev or_clear : Option Memory → Memory
or_clear none = clear_memory
or_clear (some m) = m

map_page_second :
    map_page 0x5123 (record clear_memory { page_table = λ i. if i == 3072 then 7 else 0 }) ≡ (
      0xC0C01000,
      record clear_memory { page_table = set_entry (λ i. if i == 3072 then 7 else 0) 3073 0x5003 },
    )
unfolding map_page free_entry mapped
map_page_second = refl

mp_map_range-MapsRange_example :
    MapsRange 0xF0123 0x2000 clear_memory (mp_map_range 0xF0123 0x2000 clear_memory)
mp_map_range-MapsRange_example =
    mp_map_range-MapsRange 0xF0123 0x2000 clear_memory (omega arith) (omega arith) (omega arith)
