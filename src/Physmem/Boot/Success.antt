-- ===== src/Physmem/Boot/Success.antt =====
-- What a return of 0 from `vm_phys_bm_bootinit` tells its caller.
use rkernel.Base.{
  ℕ, suc, ◌+◌, ◌%◌, ◌^◌, ◌<◌, ◌≤◌, ◌≡◌, refl, ap, ◌∙◌, sym, Bool, true, false, List, [], ◌∷◌, ◌++◌,
  map, leb, ◌&&◌, length, arith, inl, inr, Bool-cases, All, All-append, append-nil, append_assoc,
}
use mathlib.Core.List.{map-append}
use rkernel.Physmem.Alloc.{Range, Bmalloc, mul_pagesize}
use rkernel.Physmem.Boot.{
  block_words, mul_32, pages_in, words_for, zero_words, Booted, new_map, boot_loop,
  vm_phys_bm_bootinit, pages_told,
}
use rkernel.Physmem.Boot.Laws.{cleared, Booting, Booting-start, Booting-next}

-- A range as the machine has one: it ends no earlier than it begins, in the 32-bit address space.
abbrev pub IsRange : Range → Type 0
IsRange r = (r.begin ≤ r.end) × (r.end < 2 ^ 32)

-- The map tells of every whole page of its range.
abbrev pub IsFull : Bmalloc → Type 0
IsFull m = m.len ≡ pages_in m.range

abbrev range_of : Bmalloc → Range
range_of m = m.range

told_all :
    (r : Range) (j : ℕ)
    → IsRange r
    → j ≡ words_for (pages_in r)
    → pages_told j (pages_in r) ≡ pages_in r
told_all r j h e = ground arith

-- The last map told all, if the address past it reaches the range's end.
told_end :
    (r : Range) (j : ℕ)
    → IsRange r
    → j ≤ block_words
    → j ≤ words_for (pages_in r)
    → leb r.end ((r.begin + mul_pagesize (mul_32 j)) % 2 ^ 32) ≡ true
    → pages_told j (pages_in r) ≡ pages_in r
told_end r j h a b e = ground arith

-- A result that is a success has a full map for every range.
abbrev Succeeds : List Range → Booted → Type 0
Succeeds ranges out =
    out.success ≡ true → (map range_of out.bmas.maps ≡ ranges) × All IsFull out.bmas.maps

snoc_range :
    (maps : List Bmalloc) (r : Range) (rs : List Range) (m : Bmalloc)
    → m.range ≡ r
    → map range_of (maps ++ (m ∷ [])) ++ rs ≡ map range_of maps ++ (r ∷ rs)
snoc_range maps r rs m e = simp (map-append, append_assoc, e)

both : (a b : Bool) → (a && b) ≡ true → (a ≡ true) × (b ≡ true)
both true b e = (refl, e)
both false b e = cc

ended : (n i : ℕ) (rs : List Range) → n ≡ i + suc (length rs) → leb n (i + 1) ≡ true → [] ≡ rs
ended n i [] e h = refl
ended n i (r ∷ rs) e h = absurd (ground (arith, e, h))

complete :
    (maps : List Bmalloc) (r : Range) (rs : List Range) (m : Bmalloc) (ranges : List Range)
    → m.range ≡ r
    → [] ≡ rs
    → map range_of maps ++ (r ∷ rs) ≡ ranges
    → map range_of (maps ++ (m ∷ [])) ≡ ranges
complete maps r rs m ranges e last all =
    sym (append-nil (map range_of (maps ++ (m ∷ []))))
    ∙ ap (λ xs. map range_of (maps ++ (m ∷ [])) ++ xs) last
    ∙ snoc_range maps r rs m e
    ∙ all

boot_loop-Succeeds :
    (n : ℕ) (rs : List Range) (i current : ℕ) (block : List ℕ) (maps : List Bmalloc)
    (ranges : List Range)
    → Booting i current block maps
    → All IsFull maps
    → All IsRange rs
    → n ≡ i + length rs
    → map range_of maps ++ rs ≡ ranges
    → Succeeds ranges (boot_loop n rs i current block maps)
unfolding boot_loop
boot_loop-Succeeds n [] i current block maps ranges b full ok size e =
    λ s. (sym (append-nil (map range_of maps)) ∙ e, full)
boot_loop-Succeeds n (r ∷ rs) i current block maps ranges b full ok size e =
    elim (Bool-cases (leb 16 i)) [
      | inl stop ↦ rw (stop, boot_loop) (λ s. absurd (no s))
      | inr more ↦
          let (j, block') = zero_words (words_for (pages_in r)) 0 current block in
          let c = cleared r i current block maps b in
          elim (Bool-cases (leb block_words (current + j))) [
            | inl last ↦
                rw (more, last, boot_loop)
                  (λ s.
                    let done =
                      both (leb r.end ((r.begin + mul_pagesize (mul_32 j)) % 2 ^ 32))
                        (leb n (i + 1)) s in
                    (
                      complete maps r rs (new_map r current j) ranges refl
                          (ended n i rs size done.1) e,
                      All-append IsFull maps (new_map r current j ∷ []) full (
                        told_end r j ok.0 (omega (arith, c.room)) (omega (arith, c.count)) done.0,
                        tt,
                      ),
                    ))
            | inr on ↦
                rw (more, on, boot_loop)
                  (boot_loop-Succeeds n rs (i + 1) (current + j) block'
                    (maps ++ (new_map r current j ∷ [])) ranges
                    (Booting-next r i current block maps j block' b (ground (arith, more)) c)
                    (All-append IsFull maps (new_map r current j ∷ []) full
                      (told_all r j ok.0 (ground (arith, on, c.enough)), tt))
                    ok.1 (omega arith) (snoc_range maps r rs (new_map r current j) refl ∙ e))
          ]
    ]
  where
    no : false ≡ true → ⊥
    no s = cc

-- Where every range ends no earlier than it begins, `vm_phys_bm_bootinit` returns 0 only after it
-- has made a map for every range, in order, that tells of all its whole pages.
pub vm_phys_bm_bootinit-success :
    (block : List ℕ) (ranges : List Range)
    → length block ≡ block_words
    → All IsRange ranges
    → (vm_phys_bm_bootinit block ranges).success ≡ true
    → let maps = (vm_phys_bm_bootinit block ranges).bmas.maps in
      (map (λ (m : Bmalloc). m.range) maps ≡ ranges) × All IsFull maps
unfolding vm_phys_bm_bootinit
vm_phys_bm_bootinit-success block ranges size ok =
    boot_loop-Succeeds (length ranges) ranges 0 0 block [] ranges (Booting-start block size) tt ok
      (omega arith) refl
