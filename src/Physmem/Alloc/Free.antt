-- ===== src/Physmem/Alloc/Free.antt =====
-- What is free in a set of bitmaps, and what setting one bit changes.
use rkernel.Base.{
  ℕ, zero, suc, ◌+◌, ◌/◌, ◌%◌, ◌^◌, ◌<◌, ◌≤◌, ◌≡◌, refl, true, Option, none, some, List, [], ◌∷◌,
  ◌++◌, bit_or, ◌&&◌, ◌==◌, if◌then◌else◌, get_or, length, get_or-set_self, get_or-set_ne, arith,
  inl, inr, Bool-cases,
}
use native.Mathlib.Decide.{ℕ_discrete}
use rkernel.Base.Bits.{bit_and-bit_or-pow, pow_ne_zero}
use rkernel.Physmem.Alloc.{Bmalloc, Bmaset, busy, mark, page_of, first_clear}

-- The free pages of a map, from index `i` on, with `n` indices left, in order of their addresses.
unfoldable pub free_from : List ℕ → Bmalloc → ℕ → ℕ → List ℕ
free_from block m zero i = []
free_from block m (suc n) i =
    let rest = free_from block m n (i + 1) in
    if busy block m.bitmap i then rest else page_of m i ∷ rest

unfoldable pub free_in_maps : List ℕ → List Bmalloc → List ℕ
free_in_maps block [] = []
free_in_maps block (m ∷ ms) = free_from block m m.len 0 ++ free_in_maps block ms

-- The pages that the set has to give.
abbrev pub free_pages : Bmaset → List ℕ
free_pages s = free_in_maps s.block s.maps

-- The words that a map's bitmap takes.
abbrev pub words_of : Bmalloc → ℕ
words_of m = (m.len + 31) / 32

-- The bitmaps lie one after the other between `lo` and `hi`, and do not overlap.
abbrev pub Laid : ℕ → ℕ → List Bmalloc → Type 0
Laid lo hi [] = lo ≤ hi
Laid lo hi (m ∷ ms) = (lo ≤ m.bitmap) × Laid (m.bitmap + words_of m) hi ms

-- No bitmap reaches out of the block or into another.
pub record IsValid (s : Bmaset) : Type 0 where
  pub laid : Laid 0 (length s.block) s.maps

pub Laid-le : (lo hi : ℕ) (ms : List Bmalloc) → Laid lo hi ms → lo ≤ hi
Laid-le lo hi [] h = h
Laid-le lo hi (m ∷ ms) h = omega (arith, Laid-le (m.bitmap + words_of m) hi ms h.1)

pub Laid-mono : (lo lo' hi : ℕ) (ms : List Bmalloc) → lo' ≤ lo → Laid lo hi ms → Laid lo' hi ms
Laid-mono lo lo' hi [] le h = omega arith
Laid-mono lo lo' hi (m ∷ ms) le h = (omega arith, h.1)

-- One bit read after another is set in the same word, or in another word.
pub busy-mark :
    (block : List ℕ) (b c i j : ℕ)
    → b + i / 32 < length block
    → busy (mark block b i) c j
      ≡ (if (b + i / 32 == c + j / 32) && (i % 32 == j % 32) then true else busy block c j)
unfolding busy mark
busy-mark block b c i j inside =
    let k = b + i / 32 in
    let v = bit_or (get_or block k 0) (2 ^ (i % 32)) in
    elim (ℕ_discrete k (c + j / 32)) [
      | yes e ↦ ground (
        arith,
        get_or-set_self block k v 0 inside,
        bit_and-bit_or-pow (j % 32) (i % 32) (get_or block k 0),
        pow_ne_zero (j % 32),
      )
      | no ne ↦ ground (arith, get_or-set_ne block k (c + j / 32) v 0 ne)
    ]

busy_stays :
    (block : List ℕ) (b c i j : ℕ)
    → b + i / 32 < length block
    → busy block c j ≡ true
    → busy (mark block b i) c j ≡ true
busy_stays block b c i j inside used = ground (arith, busy-mark block b c i j inside)

-- Setting a bit leaves the free pages of a map with other words alone.
pub free_from-mark :
    (block : List ℕ) (b i : ℕ) (m : Bmalloc) (n j : ℕ)
    → b + i / 32 < length block
    → b + i / 32 < m.bitmap
    → free_from (mark block b i) m n j ≡ free_from block m n j
unfolding free_from
free_from-mark block b i m zero j inside apart = refl
free_from-mark block b i m (suc n) j inside apart = ground (
  arith,
  busy-mark block b m.bitmap i j inside,
  free_from-mark block b i m n (j + 1) inside apart,
)

-- So it does for a map whose words end before.
pub free_from-below :
    (block : List ℕ) (b i : ℕ) (m : Bmalloc) (n j : ℕ)
    → b + i / 32 < length block
    → m.bitmap + (j + n + 31) / 32 ≤ b + i / 32
    → free_from (mark block b i) m n j ≡ free_from block m n j
unfolding free_from
free_from-below block b i m zero j inside apart = refl
free_from-below block b i m (suc n) j inside apart = ground (
  arith,
  busy-mark block b m.bitmap i j inside,
  free_from-below block b i m n (j + 1) inside (omega arith),
)

pub free_in_maps-mark :
    (block : List ℕ) (b i lo hi : ℕ) (ms : List Bmalloc)
    → b + i / 32 < length block
    → b + i / 32 < lo
    → Laid lo hi ms
    → free_in_maps (mark block b i) ms ≡ free_in_maps block ms
unfolding free_in_maps
free_in_maps-mark block b i lo hi [] inside apart h = refl
free_in_maps-mark block b i lo hi (m ∷ ms) inside apart h = rw (
  free_from-mark block b i m m.len 0 inside (omega arith),
  free_in_maps-mark block b i (m.bitmap + words_of m) hi ms inside (omega arith) h.1,
)

-- The first clear bit, and what the free pages are before and after it is set.
free_from-past :
    (block : List ℕ) (m : Bmalloc) (i n j : ℕ)
    → m.bitmap + i / 32 < length block
    → i < j
    → free_from (mark block m.bitmap i) m n j ≡ free_from block m n j
unfolding free_from
free_from-past block m i zero j inside past = refl
free_from-past block m i (suc n) j inside past =
    ground (
      arith,
      busy-mark block m.bitmap m.bitmap i j inside,
      free_from-past block m i n (j + 1) inside,
    )

-- A search that finds nothing leaves nothing free; one that finds `i` has its page at the head of
-- the free ones, and the rest is what is free once the bit is set.
abbrev pub Found : List ℕ → Bmalloc → ℕ → ℕ → Option ℕ → Type 0
Found block m n j none = free_from block m n j ≡ []
Found block m n j (some i) =
    (free_from block m n j ≡ page_of m i ∷ free_from (mark block m.bitmap i) m n j)
    × (i < j + n)
    × (j ≤ i)

Found-step :
    (block : List ℕ) (m : Bmalloc) (n j : ℕ)
    → m.bitmap + (j + suc n + 31) / 32 ≤ length block
    → (rest : Option ℕ) → Found block m n (j + 1) rest
    → Found block m (suc n) j (if busy block m.bitmap j then rest else some j)
unfolding free_from
Found-step block m n j fits rest found = elim (Bool-cases (busy block m.bitmap j)) [
  | inl used ↦ rw used (after rest used found)
  | inr clear ↦ rw clear (
    ground (
      arith,
      clear,
      busy-mark block m.bitmap m.bitmap j j (omega arith),
      free_from-past block m j n (j + 1) (omega arith) (omega arith),
    ),
    omega arith,
    omega arith,
  )
]
  where
    after :
        (o : Option ℕ)
        → busy block m.bitmap j ≡ true
        → Found block m n (j + 1) o
        → Found block m (suc n) j o
    after none used f = ground arith
    after (some i) used f = (
      ground (arith, used, f.0, busy_stays block m.bitmap m.bitmap i j (omega arith) used),
      omega arith,
      omega arith,
    )

pub first_clear-Found :
    (block : List ℕ) (m : Bmalloc) (n j : ℕ)
    → m.bitmap + (j + n + 31) / 32 ≤ length block
    → Found block m n j (first_clear block m.bitmap n j)
unfolding first_clear free_from
first_clear-Found block m zero j fits = refl
first_clear-Found block m (suc n) j fits =
    Found-step block m n j fits (first_clear block m.bitmap n (j + 1))
      (first_clear-Found block m n (j + 1) (omega arith))
