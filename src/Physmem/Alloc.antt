-- ===== src/Physmem/Alloc.antt =====
-- system/physmem/phys_bmalloc.c: page allocation over bitmaps, one bit to a page. The bitmaps of a
-- set are stretches of one block of words, `bitmap_block` of phys_bmainit.c, so a bitmap pointer is
-- the index of its first word there. The spinlock around each operation is left out: an operation
-- is one step.
pub mod Free
pub mod Take
use rkernel.Base.{
  ℕ, zero, suc, ◌+◌, ◌-◌, ◌*◌, ◌/◌, ◌%◌, ◌^◌, Bool, true, false, Option, none, some, List, [], ◌∷◌,
  bit_and, bit_or, not, ltb, leb, ◌==◌, if◌then◌else◌, ◌||◌, get_or, set, length,
}

-- `struct physmem_range`
pub record Range : Type 0 where
  pub begin : ℕ
  pub end : ℕ

-- `struct physmem_bmalloc`
pub record Bmalloc : Type 0 where
  pub range : Range
  pub bitmap : ℕ
  pub len : ℕ

-- `struct physmem_bmaset`, with the block of words that its bitmaps point into. `pmb_n_maps` is the
-- length of `maps`.
pub record Bmaset : Type 0 where
  pub block : List ℕ
  pub maps : List Bmalloc

abbrev pub page_size : ℕ
page_size = 0x1000

abbrev pub div_32 : ℕ → ℕ
div_32 x = x / 32

abbrev pub mod_32 : ℕ → ℕ
mod_32 x = x % 32

abbrev pub bit_32 : ℕ → ℕ
bit_32 x = 2 ^ mod_32 x

-- `MUL_PAGESIZE` and `DIV_PAGESIZE`, shifts by 12 of a 32-bit number.
abbrev pub mul_pagesize : ℕ → ℕ
mul_pagesize x = x * page_size % 2 ^ 32

abbrev pub div_pagesize : ℕ → ℕ
div_pagesize x = x / page_size

-- `bitmap[DIV_32(i)] & BIT_32(i)`
unfoldable pub busy : List ℕ → ℕ → ℕ → Bool
busy block bitmap i = not (bit_and (get_or block (bitmap + div_32 i) 0) (bit_32 i) == 0)

-- `bitmap[DIV_32(i)] |= BIT_32(i)`
unfoldable pub mark : List ℕ → ℕ → ℕ → List ℕ
mark block bitmap i =
    let k = bitmap + div_32 i in set block k (bit_or (get_or block k 0) (bit_32 i))

-- `bitmap[DIV_32(i)] &= ~BIT_32(i)`
unfoldable pub unmark : List ℕ → ℕ → ℕ → List ℕ
unmark block bitmap i =
    let k = bitmap + div_32 i in set block k (bit_and (get_or block k 0) (2 ^ 32 - 1 - bit_32 i))

-- The address of page `i` of a map.
abbrev pub page_of : Bmalloc → ℕ → ℕ
page_of m i = (mul_pagesize i + m.range.begin) % 2 ^ 32

-- The loop of `bitmap_search`, with `n` rounds left: the first index whose bit is clear.
unfoldable pub first_clear : List ℕ → ℕ → ℕ → ℕ → Option ℕ
first_clear block bitmap zero i = none
first_clear block bitmap (suc n) i =
    let rest = first_clear block bitmap n (i + 1) in if busy block bitmap i then rest else some i

-- The page found and the block with its bit set; `none` where the code returns 0.
unfoldable pub bitmap_search : List ℕ → Bmalloc → Option (ℕ × List ℕ)
bitmap_search block m = elim (first_clear block m.bitmap m.len 0) [
  | none ↦ none
  | some i ↦ some (page_of m i, mark block m.bitmap i)
]

-- The loop of `vm_phys_alloc` over the maps.
unfoldable pub alloc_in : List ℕ → List Bmalloc → Option (ℕ × List ℕ)
alloc_in block [] = none
alloc_in block (m ∷ ms) =
    let rest = alloc_in block ms in elim (bitmap_search block m) [ none ↦ rest | some r ↦ some r ]

-- `none` where the code returns 0; else what it stores into `*res`, and the new set.
unfoldable pub vm_phys_alloc : Bmaset → Option (ℕ × Bmaset)
vm_phys_alloc s = elim (alloc_in s.block s.maps) [
  | none ↦ none
  | some (page, block) ↦ some (page, record s { block = block })
]

-- The test at which the loop of `vm_phys_free` passes a map over.
unfoldable pub passes_over : Bmalloc → ℕ → Bool
passes_over m page = ltb m.range.begin page || leb page m.range.end

-- The loop of `vm_phys_free`: the status, and the block.
unfoldable pub free_in : List ℕ → List Bmalloc → ℕ → Bool × List ℕ
free_in block [] page = (false, block)
free_in block (m ∷ ms) page =
    let rest = free_in block ms page in
    if passes_over m page
    then rest
    else (true, unmark block m.bitmap (div_pagesize ((page + 2 ^ 32 - m.range.begin) % 2 ^ 32)))

-- The Boolean is whether the status returned is -1.
unfoldable pub vm_phys_free : Bmaset → ℕ → Bool × Bmaset
vm_phys_free s page =
    let (status, block) = free_in s.block s.maps page in (status, record s { block = block })
