-- ===== src/Physmem/Boot/Ranges.antt =====
-- system/physmem/phys_bmainit.c: the maps stay within the ranges that they are made for.
use rkernel.Base.{
  length, Bool-cases, inl, inr, leb, [], ◌∷◌, ◌++◌, ◌+◌, ◌*◌, ◌≤◌, ◌≡◌, ℕ, List, All, All-append,
  arith,
}
use rkernel.Physmem.Alloc.{Bmalloc, Range}
use rkernel.Physmem.Alloc.Free.{free_pages, IsValid}
use rkernel.Physmem.Boot.{
  block_words, boot_loop, new_map, pages_in, vm_phys_bm_bootinit, words_for, zero_words,
}
use rkernel.Physmem.Boot.Laws.{all_pages, Short, vm_phys_bm_bootinit-Short}
use rkernel.Physmem.Boot.Success.{IsRange}

-- The maps are made for the ranges that are given.
pub boot_loop-ranges :
    (P : Range → Type 0) (n : ℕ) (rs : List Range) (i current : ℕ) (block : List ℕ)
    (maps : List Bmalloc)
    → All P rs
    → All (λ (m : Bmalloc). P m.range) maps
    → All (λ (m : Bmalloc). P m.range) (boot_loop n rs i current block maps).bmas.maps
unfolding boot_loop
boot_loop-ranges P n [] i current block maps given made = made
boot_loop-ranges P n (r ∷ rs) i current block maps given made = elim (Bool-cases (leb 16 i)) [
  | inl full ↦ rw (full, boot_loop) made
  | inr more ↦
      let (j, block') = zero_words (words_for (pages_in r)) 0 current block in
      let made' : All (λ (m : Bmalloc). P m.range) (maps ++ (new_map r current j ∷ [])) =
        All-append (λ (m : Bmalloc). P m.range) maps (new_map r current j ∷ []) made
          (given.0, tt) in
      elim (Bool-cases (leb block_words (current + j))) [
        | inl last ↦ rw (more, last, boot_loop) made'
        | inr on ↦
            rw (more, on, boot_loop)
              (boot_loop-ranges P n rs (i + 1) (current + j) block'
                (maps ++ (new_map r current j ∷ [])) given.1 made')
      ]
]

-- The pages that a map tells of end no later than its range.
abbrev pub LiesInRange : Bmalloc → Type 0
LiesInRange m = m.range.begin + m.len * 4096 ≤ m.range.end

Short-LiesInRange :
    (ms : List Bmalloc)
    → All (λ (m : Bmalloc). IsRange m.range) ms
    → All Short ms
    → All LiesInRange ms
Short-LiesInRange [] ranges short = tt
Short-LiesInRange (m ∷ ms) (range, ranges) (short, rest) =
    (omega arith, Short-LiesInRange ms ranges rest)

-- Over the static block of 4096 words, and for ranges that end no earlier than they begin and
-- below 2 ^ 32, vm_phys_bm_bootinit leaves a valid set of at most sixteen maps; every page of
-- every map is free, and the pages of a map lie in its range.
pub vm_phys_bm_bootinit-IsBooted :
    (block : List ℕ) (ranges : List Range)
    → length block ≡ block_words
    → All IsRange ranges
    → let s = (vm_phys_bm_bootinit block ranges).bmas in
      IsValid s × (free_pages s ≡ all_pages s.maps) × All LiesInRange s.maps × (length s.maps ≤ 16)
unfolding vm_phys_bm_bootinit
vm_phys_bm_bootinit-IsBooted block ranges size ordered =
    let s = (vm_phys_bm_bootinit block ranges).bmas in
    let (valid, free, short, few) = vm_phys_bm_bootinit-Short block ranges size in
    let of_ranges : All (λ (m : Bmalloc). IsRange m.range) s.maps =
      boot_loop-ranges IsRange (length ranges) ranges 0 0 block [] ordered tt in
    (valid, free, Short-LiesInRange s.maps of_ranges short, few)
