-- ===== src/Physmem/Alloc/Take.antt =====
-- `vm_phys_alloc` and `vm_phys_free` against the list of free pages.
use rkernel.Base.{
  ℕ, ◌+◌, ◌/◌, ◌≤◌, ◌≡◌, refl, ◌∙◌, sym, subst, false, Option, none, some, List, [], ◌∷◌, length,
  length-set, arith, All,
}
use rkernel.Physmem.Alloc.{
  Bmalloc, Bmaset, mark, page_of, first_clear, bitmap_search, alloc_in, vm_phys_alloc, passes_over,
  free_in, vm_phys_free,
}
use rkernel.Physmem.Alloc.Free.{
  free_from, free_in_maps, free_pages, words_of, Laid, Laid-le, IsValid, free_from-below,
  free_in_maps-mark, Found, first_clear-Found,
}

pub length-mark : (block : List ℕ) (b i : ℕ) → length (mark block b i) ≡ length block
unfolding mark
length-mark block b i = length-set block (b + i / 32) _

-- The maps whose words end at `lo` have the same free pages in both blocks.
abbrev Spares : ℕ → List ℕ → List ℕ → Type 0
Spares lo block block' =
    (m : Bmalloc)
    → m.bitmap + words_of m ≤ lo
    → free_from block' m m.len 0 ≡ free_from block m m.len 0

-- A result of the allocator over the maps: the first free page, and a block in which exactly that
-- page is no longer free; or nothing, where no page is free.
abbrev Taken : ℕ → List ℕ → List Bmalloc → Option (ℕ × List ℕ) → Type 0
Taken lo block ms none = free_in_maps block ms ≡ []
Taken lo block ms (some (page, block')) =
    (free_in_maps block ms ≡ page ∷ free_in_maps block' ms)
    × (length block' ≡ length block)
    × Spares lo block block'

module _ (block : List ℕ) (m : Bmalloc) (ms : List Bmalloc) (lo : ℕ)
    (h : Laid lo (length block) (m ∷ ms)) where
  Found-Taken :
      (i : ℕ)
      → Found block m m.len 0 (some i)
      → Taken lo block (m ∷ ms) (some (page_of m i, mark block m.bitmap i))
  unfolding free_in_maps
  Found-Taken i f =
      let room = Laid-le (m.bitmap + words_of m) (length block) ms h.1 in
      let same : free_in_maps (mark block m.bitmap i) ms ≡ free_in_maps block ms =
        free_in_maps-mark block m.bitmap i (m.bitmap + words_of m) (length block) ms (omega arith)
          (omega arith) h.1 in
      (
        rw (f.0, same),
        length-mark block m.bitmap i,
        λ n before. free_from-below block m.bitmap i n n.len 0 (omega arith) (omega arith),
      )

  later-Taken :
      (out : Option (ℕ × List ℕ))
      → free_from block m m.len 0 ≡ []
      → Taken (m.bitmap + words_of m) block ms out
      → Taken lo block (m ∷ ms) out
  unfolding free_in_maps
  later-Taken none e t = rw (e, t)
  later-Taken (some (page, block')) e t =
      let still : free_from block' m m.len 0 ≡ [] = t.2 m (omega arith) ∙ e in
      (rw (e, still, t.0), t.1, λ n before. t.2 n (omega arith))

alloc_in-Taken :
    (block : List ℕ) (ms : List Bmalloc) (lo : ℕ)
    → Laid lo (length block) ms
    → Taken lo block ms (alloc_in block ms)
unfolding alloc_in bitmap_search
alloc_in-Taken block [] lo h = unfold free_in_maps in refl
alloc_in-Taken block (m ∷ ms) lo h =
    let room = Laid-le (m.bitmap + words_of m) (length block) ms h.1 in
    step (first_clear block m.bitmap m.len 0) (first_clear-Found block m m.len 0 (omega arith))
      (alloc_in-Taken block ms (m.bitmap + words_of m) h.1)
  where
    step :
        (o : Option ℕ)
        → Found block m m.len 0 o
        → Taken (m.bitmap + words_of m) block ms (alloc_in block ms)
        → Taken lo block
            (m ∷ ms)
            (elim (elim o as (λ x. Option (ℕ × List ℕ)) [
              | none ↦ none
              | some i ↦ some (page_of m i, mark block m.bitmap i)
            ]) [ none ↦ alloc_in block ms | some r ↦ some r ])
    step none f rest = later-Taken block m ms lo h (alloc_in block ms) f rest
    step (some i) f rest = Found-Taken block m ms lo h i f

-- What `vm_phys_alloc` promises of a valid set.
abbrev pub Allocates : Bmaset → Option (ℕ × Bmaset) → Type 0
Allocates s none = free_pages s ≡ []
Allocates s (some (page, s')) =
    (free_pages s ≡ page ∷ free_pages s') × (s'.maps ≡ s.maps) × IsValid s'

-- On a set whose bitmaps lie in the block and do not overlap, `vm_phys_alloc` fails exactly when no
-- page is free. Otherwise it returns the first free page, after which exactly that page is no
-- longer free, and leaves the set's maps and its validity as they were.
pub vm_phys_alloc-Allocates : (s : Bmaset) → IsValid s → Allocates s (vm_phys_alloc s)
unfolding vm_phys_alloc
vm_phys_alloc-Allocates s v =
    step (alloc_in s.block s.maps) (alloc_in-Taken s.block s.maps 0 v.laid)
  where
    step :
        (o : Option (ℕ × List ℕ))
        → Taken 0 s.block s.maps o
        → Allocates s
            (elim o [ none ↦ none | some (page, block) ↦ some (page, record s { block = block }) ])
    step none t = t
    step (some (page, block)) t =
        (t.0, refl, record { laid = subst (λ n. Laid 0 n s.maps) (sym t.1) v.laid })

free_in_never :
    (block : List ℕ) (ms : List Bmalloc) (page : ℕ)
    → All (λ (m : Bmalloc). m.range.begin ≤ m.range.end) ms
    → free_in block ms page ≡ (false, block)
unfolding free_in passes_over
free_in_never block [] page h = refl
free_in_never block (m ∷ ms) page h = ground (arith, free_in_never block ms page h.1)

-- Where every range begins no later than it ends, `vm_phys_free` frees nothing: for every page it
-- returns the status of a page that belongs to no map, and leaves the set as it was.
pub vm_phys_free_never :
    (s : Bmaset) (page : ℕ)
    → All (λ (m : Bmalloc). m.range.begin ≤ m.range.end) s.maps
    → vm_phys_free s page ≡ (false, s)
unfolding vm_phys_free
vm_phys_free_never s page h = rw (free_in_never s.block s.maps page h)
