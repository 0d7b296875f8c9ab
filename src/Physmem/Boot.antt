-- ===== src/Physmem/Boot.antt =====
-- system/physmem/phys_bmainit.c: the set of bitmaps that the kernel boots with, over the static
-- block of words and at most sixteen ranges.
pub mod Laws
pub mod Ranges
pub mod Success
use rkernel.Base.{
  ℕ, zero, suc, ◌+◌, ◌-◌, ◌*◌, ◌/◌, ◌%◌, ◌^◌, Bool, true, false, Option, none, some, List, [], ◌∷◌,
  ◌++◌, ltb, leb, if◌then◌else◌, ◌&&◌, set, length,
}
use rkernel.Physmem.Alloc.{Range, Bmalloc, Bmaset, div_32, mul_pagesize, div_pagesize}

-- `UNUMBER` and `NNUMBER`
abbrev pub block_words : ℕ
block_words = 0x1000

abbrev pub max_maps : ℕ
max_maps = 0x10

-- `MUL_32`
abbrev pub mul_32 : ℕ → ℕ
mul_32 x = x * 32 % 2 ^ 32

-- The pages that the code counts in a range: its difference wraps where the range ends before it begins.
abbrev pub pages_in : Range → ℕ
pages_in r = div_pagesize ((r.end + 2 ^ 32 - r.begin) % 2 ^ 32)

-- `n`: the words that a bitmap for `m` pages wants.
abbrev pub words_for : ℕ → ℕ
words_for m = div_32 ((m + 31) % 2 ^ 32)

-- The loop that zeroes the words of one bitmap, with `n` rounds left: it ends with `j`, the number
-- of words zeroed, at the end of the block at the latest.
unfoldable pub zero_words : ℕ → ℕ → ℕ → List ℕ → ℕ × List ℕ
zero_words zero j current block = (j, block)
zero_words (suc n) j current block = elim (leb block_words (current + j)) [
  | true ↦ (j, block)
  | false ↦ zero_words n (j + 1) current (set block (current + j) 0)
]

-- `k`: the pages that a bitmap of `j` words can tell of `m`.
abbrev pub pages_told : ℕ → ℕ → ℕ
pages_told j m = if ltb m (mul_32 j) then m else mul_32 j

-- What `vm_phys_bm_bootinit` leaves: whether it returned 0, the values of `*Pi` and `*Pt` where it
-- stored them, and the set.
pub record Booted : Type 0 where
  pub success : Bool
  pub stopped : Option (ℕ × ℕ)
  pub bmas : Bmaset

abbrev pub booted : Bool → Option (ℕ × ℕ) → List ℕ → List Bmalloc → Booted
booted b p block maps = record {
  success = b;
  stopped = p;
  bmas = record { block = block; maps = maps };
}

abbrev pub new_map : Range → ℕ → ℕ → Bmalloc
new_map r current j = record { range = r; bitmap = current; len = pages_told j (pages_in r) }

-- The loop over the ranges that are left, the first of them number `i` of `n`, with the words from
-- `current` on unused and the maps made so far.
unfoldable pub boot_loop : ℕ → List Range → ℕ → ℕ → List ℕ → List Bmalloc → Booted
boot_loop n [] i current block maps = booted true none block maps
boot_loop n (r ∷ rs) i current block maps = elim (leb max_maps i) [
  | true ↦ booted false (some (i, r.begin)) block maps
  | false ↦
      let (j, block') = zero_words (words_for (pages_in r)) 0 current block in
      let maps' = maps ++ (new_map r current j ∷ []) in
      let past = (r.begin + mul_pagesize (mul_32 j)) % 2 ^ 32 in
      elim (leb block_words (current + j)) [
        | true ↦ booted (leb r.end past && leb n (i + 1)) (some (i, past)) block' maps'
        | false ↦ boot_loop n rs (i + 1) (current + j) block' maps'
      ]
]

-- `block` is what the static words hold before.
unfoldable pub vm_phys_bm_bootinit : List ℕ → List Range → Booted
vm_phys_bm_bootinit block ranges = boot_loop (length ranges) ranges 0 0 block []
