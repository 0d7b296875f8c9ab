-- ===== src/Physmem/Tests.antt =====
-- Small sets of bitmaps, and the theorems at them.
use rkernel.Base.{ℕ, ◌≤◌, ◌≡◌, refl, true, false, List, [], ◌∷◌, map, length, replicate, arith, All}
use rkernel.Physmem.Alloc.{Range, Bmalloc, Bmaset, busy, vm_phys_alloc, vm_phys_free}
use rkernel.Physmem.Alloc.Free.{free_from, free_in_maps, free_pages, IsValid}
use rkernel.Physmem.Alloc.Take.{Allocates, vm_phys_alloc-Allocates, vm_phys_free_never}
use rkernel.Physmem.Boot.{vm_phys_bm_bootinit, boot_loop, zero_words}
use rkernel.Physmem.Boot.Laws.{all_pages}
use rkernel.Physmem.Boot.Ranges.{LiesInRange, vm_phys_bm_bootinit-IsBooted}
use rkernel.Physmem.Boot.Success.{IsFull, vm_phys_bm_bootinit-success}

abbrev low : Range
low = record { begin = 0x1000; end = 0x5000 }

abbrev high : Range
high = record { begin = 0x8000; end = 0xa000 }

-- Two maps, the first page of the first one taken.
abbrev two_maps : Bmaset
two_maps = record {
  block = 1 ∷ 0 ∷ [];
  maps =
      record { range = low; bitmap = 0; len = 4 }
      ∷ record { range = high; bitmap = 1; len = 2 }
      ∷ [];
}

two_maps-IsValid : IsValid two_maps
two_maps-IsValid = record { laid = omega arith }

free_of_two_maps : free_pages two_maps ≡ 0x2000 ∷ 0x3000 ∷ 0x4000 ∷ 0x8000 ∷ 0x9000 ∷ []
unfolding free_from free_in_maps busy
free_of_two_maps = refl

-- The words are zeroed, and a bitmap takes one word for up to 32 pages.
abbrev boot_block : List ℕ
boot_block = replicate 4096 7

vm_phys_alloc-Allocates_example : Allocates two_maps (vm_phys_alloc two_maps)
vm_phys_alloc-Allocates_example = vm_phys_alloc-Allocates two_maps two_maps-IsValid

vm_phys_free_never_example : vm_phys_free two_maps 0x1000 ≡ (false, two_maps)
vm_phys_free_never_example = vm_phys_free_never two_maps 0x1000 (omega arith)

vm_phys_bm_bootinit-IsBooted_example :
    let s = (vm_phys_bm_bootinit boot_block (low ∷ high ∷ [])).bmas in
    IsValid s × (free_pages s ≡ all_pages s.maps) × All LiesInRange s.maps × (length s.maps ≤ 16)
vm_phys_bm_bootinit-IsBooted_example =
    vm_phys_bm_bootinit-IsBooted boot_block (low ∷ high ∷ []) refl (omega arith)

boots : (vm_phys_bm_bootinit boot_block (low ∷ high ∷ [])).success ≡ true
unfolding vm_phys_bm_bootinit boot_loop zero_words
boots = refl

vm_phys_bm_bootinit-success_example :
    let maps = (vm_phys_bm_bootinit boot_block (low ∷ high ∷ [])).bmas.maps in
    (map (λ (m : Bmalloc). m.range) maps ≡ low ∷ high ∷ []) × All IsFull maps
vm_phys_bm_bootinit-success_example =
    vm_phys_bm_bootinit-success boot_block (low ∷ high ∷ []) refl (omega arith) boots
