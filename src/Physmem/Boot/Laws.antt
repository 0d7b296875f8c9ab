-- ===== src/Physmem/Boot/Laws.antt =====
-- The set that `vm_phys_bm_bootinit` makes: its layout, what is free in it, and what success means.
use rkernel.Base.{
  ℕ, zero, suc, ◌+◌, ◌/◌, ◌<◌, ◌≤◌, ◌≡◌, ◌⊎◌, refl, ◌∙◌, false, List, [], ◌∷◌, ◌++◌, leb, set,
  get_or, length, length-set, length-append, get_or-set_self, get_or-set_ne, arith, inl, inr,
  Bool-cases, All, All-append,
}
use native.Mathlib.Decide.{ℕ_discrete}
use rkernel.Base.Bits.{zero-bit_and}
use rkernel.Physmem.Alloc.{Range, Bmalloc, Bmaset, busy, page_of}
use rkernel.Physmem.Alloc.Free.{
  free_from, free_in_maps, free_pages, words_of, Laid, Laid-le, IsValid,
}
use rkernel.Physmem.Boot.{
  block_words, pages_in, words_for, zero_words, new_map, boot_loop, vm_phys_bm_bootinit,
}

-- Every page of a map, from index `i` on, with `n` left.
unfoldable pub pages_from : Bmalloc → ℕ → ℕ → List ℕ
pages_from m zero i = []
pages_from m (suc n) i = page_of m i ∷ pages_from m n (i + 1)

unfoldable pub all_pages : List Bmalloc → List ℕ
all_pages [] = []
all_pages (m ∷ ms) = pages_from m m.len 0 ++ all_pages ms

-- The words below `hi` are zero.
abbrev pub Zeroed : ℕ → List ℕ → Type 0
Zeroed hi block = (k : ℕ) → k < hi → get_or block k 0 ≡ 0

-- What zeroing leaves, started with the words below `current + j` zero.
pub record Cleared (n j current : ℕ) (block : List ℕ) (out : ℕ × List ℕ) : Type 0 where
  pub size : length out.1 ≡ length block
  pub room : current + out.0 ≤ block_words
  pub zeroed : Zeroed (current + out.0) out.1
  pub count : out.0 ≤ j + n
  pub enough : (out.0 ≡ j + n) ⊎ (current + out.0 ≡ block_words)

zero_words-Cleared :
    (n j current : ℕ) (block : List ℕ)
    → length block ≡ block_words
    → current + j ≤ block_words
    → Zeroed (current + j) block
    → Cleared n j current block (zero_words n j current block)
unfolding zero_words
zero_words-Cleared zero j current block size room z = record {
  size = refl;
  room = room;
  zeroed = z;
  count = omega arith;
  enough = inl (omega arith);
}
zero_words-Cleared (suc n) j current block size room z =
    elim (Bool-cases (leb block_words (current + j))) [
      | inl full ↦
          rw (full, zero_words)
            (record {
              size = refl;
              room = room;
              zeroed = z;
              count = omega arith;
              enough = inr (ground (arith, full));
            })
      | inr more ↦
          let c =
            zero_words-Cleared n (j + 1) current (set block (current + j) 0)
              (length-set block (current + j) 0 ∙ size) (ground (arith, more)) (next more) in
          rw (more, zero_words)
            (record {
              size = c.size ∙ length-set block (current + j) 0;
              room = c.room;
              zeroed = c.zeroed;
              count = omega (arith, c.count);
              enough = elim (c.enough) [ inl e ↦ inl (omega arith) | inr e ↦ inr e ];
            })
    ]
  where
    next :
        leb block_words (current + j) ≡ false
        → Zeroed (current + (j + 1)) (set block (current + j) 0)
    next more k below = elim (ℕ_discrete (current + j) k) [
      | yes e ↦ rw (← e) (get_or-set_self block (current + j) 0 0 (ground (arith, more)))
      | no ne ↦ get_or-set_ne block (current + j) k 0 0 ne ∙ z k (omega arith)
    ]

-- No bit of a map in zeroed words is set.
free_from-Zeroed :
    (block : List ℕ) (m : Bmalloc) (hi n i : ℕ)
    → Zeroed hi block
    → m.bitmap + (i + n + 31) / 32 ≤ hi
    → free_from block m n i ≡ pages_from m n i
unfolding free_from pages_from busy
free_from-Zeroed block m hi zero i z fits = refl
free_from-Zeroed block m hi (suc n) i z fits =
    ground (arith, clear, free_from-Zeroed block m hi n (i + 1) z (omega arith))
  where
    clear : busy block m.bitmap i ≡ false
    clear = rw (z (m.bitmap + i / 32) (omega arith), zero-bit_and)

free_in_maps-Zeroed :
    (block : List ℕ) (lo hi : ℕ) (ms : List Bmalloc)
    → Zeroed hi block
    → Laid lo hi ms
    → free_in_maps block ms ≡ all_pages ms
unfolding free_in_maps all_pages
free_in_maps-Zeroed block lo hi [] z h = refl
free_in_maps-Zeroed block lo hi (m ∷ ms) z h =
    let room = Laid-le (m.bitmap + words_of m) hi ms h.1 in
    rw (
      free_from-Zeroed block m hi m.len 0 z (omega arith),
      free_in_maps-Zeroed block (m.bitmap + words_of m) hi ms z h.1,
    )

Laid-snoc :
    (lo mid hi : ℕ) (ms : List Bmalloc) (m : Bmalloc)
    → Laid lo mid ms
    → mid ≤ m.bitmap
    → m.bitmap + words_of m ≤ hi
    → Laid lo hi (ms ++ (m ∷ []))
Laid-snoc lo mid hi [] m h p q = (omega arith, q)
Laid-snoc lo mid hi (x ∷ ms) m h p q = (h.0, Laid-snoc (x.bitmap + words_of x) mid hi ms m h.1 p q)

Laid-widen : (lo mid hi : ℕ) (ms : List Bmalloc) → Laid lo mid ms → mid ≤ hi → Laid lo hi ms
Laid-widen lo mid hi [] h p = omega arith
Laid-widen lo mid hi (x ∷ ms) h p = (h.0, Laid-widen (x.bitmap + words_of x) mid hi ms h.1 p)

-- The maps are no longer than their ranges.
abbrev pub Short : Bmalloc → Type 0
Short m = m.len ≤ pages_in m.range

-- What the loop keeps: the words below `current` are zero and hold the maps made so far.
pub record Booting (i current : ℕ) (block : List ℕ) (maps : List Bmalloc) : Type 0 where
  pub size : length block ≡ block_words
  pub room : current ≤ block_words
  pub zeroed : Zeroed current block
  pub laid : Laid 0 current maps
  pub short : All Short maps
  pub count : length maps ≡ i
  pub few : i ≤ 16

-- The set that the boot code leaves.
record IsBooted (s : Bmaset) : Type 0 where
  valid : IsValid s
  free : free_pages s ≡ all_pages s.maps
  short : All Short s.maps
  few : length s.maps ≤ 16

Booting-IsBooted :
    (i current : ℕ) (block : List ℕ) (maps : List Bmalloc)
    → Booting i current block maps
    → IsBooted (record { block = block; maps = maps })
Booting-IsBooted i current block maps b = record {
  valid = record {
    laid = Laid-widen 0 current (length block) maps b.laid (omega (arith, b.size, b.room));
  };
  free = free_in_maps-Zeroed block 0 current maps b.zeroed b.laid;
  short = b.short;
  few = omega (arith, b.count, b.few);
}

words_of-new_map :
    (r : Range) (current j : ℕ) → j ≤ block_words → words_of (new_map r current j) ≤ j
words_of-new_map r current j h = ground arith

pub Booting-next :
    (r : Range) (i current : ℕ) (block : List ℕ) (maps : List Bmalloc) (j : ℕ) (block' : List ℕ)
    → Booting i current block maps
    → i < 16
    → Cleared (words_for (pages_in r)) 0 current block (j, block')
    → Booting (i + 1) (current + j) block' (maps ++ (new_map r current j ∷ []))
Booting-next r i current block maps j block' b more c = record {
  size = c.size ∙ b.size;
  room = c.room;
  zeroed = c.zeroed;
  laid =
      Laid-snoc 0 current (current + j) maps (new_map r current j) b.laid (omega arith)
        (omega (arith, words_of-new_map r current j (omega (arith, c.room))));
  short = All-append Short maps (new_map r current j ∷ []) b.short (ground arith, tt);
  count = omega (arith, length-append {0} maps (new_map r current j ∷ []), b.count);
  few = omega arith;
}

pub cleared :
    (r : Range) (i current : ℕ) (block : List ℕ) (maps : List Bmalloc)
    → Booting i current block maps
    → Cleared
        (words_for (pages_in r))
        0
        current
        block
        (zero_words (words_for (pages_in r)) 0 current block)
cleared r i current block maps b =
    zero_words-Cleared (words_for (pages_in r)) 0 current block b.size (omega (arith, b.room))
      (λ k below. b.zeroed k (omega arith))

boot_loop-IsBooted :
    (n : ℕ) (rs : List Range) (i current : ℕ) (block : List ℕ) (maps : List Bmalloc)
    → Booting i current block maps
    → IsBooted (boot_loop n rs i current block maps).bmas
unfolding boot_loop
boot_loop-IsBooted n [] i current block maps b = Booting-IsBooted i current block maps b
boot_loop-IsBooted n (r ∷ rs) i current block maps b = elim (Bool-cases (leb 16 i)) [
  | inl full ↦ rw (full, boot_loop) (Booting-IsBooted i current block maps b)
  | inr more ↦
      let (j, block') = zero_words (words_for (pages_in r)) 0 current block in
      let b' : Booting (i + 1) (current + j) block' (maps ++ (new_map r current j ∷ [])) =
        Booting-next r i current block maps j block' b (ground (arith, more))
          (cleared r i current block maps b) in
      elim (Bool-cases (leb block_words (current + j))) [
        | inl last ↦
            rw (more, last, boot_loop)
              (Booting-IsBooted (i + 1) (current + j) block' (maps ++ (new_map r current j ∷ []))
                b')
        | inr on ↦
            rw (more, on, boot_loop)
              (boot_loop-IsBooted n rs (i + 1) (current + j) block'
                (maps ++ (new_map r current j ∷ [])) b')
      ]
]

-- Before the first range.
pub Booting-start : (block : List ℕ) → length block ≡ block_words → Booting 0 0 block []
Booting-start block size = record {
  size = size;
  room = omega arith;
  zeroed = λ k below. absurd (omega arith);
  laid = omega arith;
  short = tt;
  count = refl;
  few = omega arith;
}

-- Over the static block of 4096 words, `vm_phys_bm_bootinit` leaves a valid set of at most sixteen
-- maps, whose bitmaps neither overlap nor leave the block; every page of every map is free, and no
-- map tells of more pages than the code counts in its range.
pub vm_phys_bm_bootinit-Short :
    (block : List ℕ) (ranges : List Range)
    → length block ≡ block_words
    → let s = (vm_phys_bm_bootinit block ranges).bmas in
      IsValid s × (free_pages s ≡ all_pages s.maps) × All Short s.maps × (length s.maps ≤ 16)
unfolding vm_phys_bm_bootinit
vm_phys_bm_bootinit-Short block ranges size =
    let b = boot_loop-IsBooted (length ranges) ranges 0 0 block [] (Booting-start block size) in
    (b.valid, b.free, b.short, b.few)
