-- ===== src/Arch/Window/Fill.antt =====
-- system/arch/i686/physmem.c: pages that are filled with words, cleared pages and new page directories.
use rkernel.Base.{
  refl, arith, true, false, eq→==, inr, zero, ==→eq, ◌∙◌, ltb, inl, leb, ap, Bool-cases, ◌&&◌, suc,
  ◌≡◌, ◌==◌, ◌<◌, ◌+◌, if◌then◌else◌, ℕ,
}
use rkernel.Arch.Window.{
  store_words, pmap_zero_page, pmap_pdinit, Memory, put_entry, entry_address, pte_addr, pte_pw,
}
use rkernel.Arch.Window.Access.{with_word, Becomes, with_page-Becomes, store-mapped}

pub with_words : ℕ → ℕ → ℕ → (ℕ → ℕ) → (ℕ → ℕ → ℕ) → ℕ → ℕ → ℕ
with_words page n i word phys p j =
    if p == page && (leb i j && ltb j (i + n)) then word j else phys p j

pub later_range :
    (n i j : ℕ)
    → (j == i) ≡ false
    → (leb (i + 1) j && ltb j (i + 1 + n)) ≡ (leb i j && ltb j (i + suc n))
later_range n i j other = ground arith

pub first_range : (n i : ℕ) → (leb i i && ltb i (i + suc n)) ≡ true
first_range n i = ground arith

pub past_range : (n i : ℕ) → (leb (i + 1) i && ltb i (i + 1 + n)) ≡ false
past_range n i = ground arith

with_words-suc :
    (page n i : ℕ) (word : ℕ → ℕ) (phys : ℕ → ℕ → ℕ) (p j : ℕ)
    → with_words page n (i + 1) word (with_word page i (word i) phys) p j
      ≡ with_words page (suc n) i word phys p j
unfolding with_words
with_words-suc page n i word phys p j = elim (Bool-cases (j == i)) [
  | inl at ↦
      rw (==→eq j i at, past_range n i, first_range n i, eq→== i i refl)
        (elim (p == page)
          as (λ b.
            (if b && false then word i else if b && true then word i else phys p i)
            ≡ (if b && true then word i else phys p i)) [ true ↦ refl | false ↦ refl ])
  | inr other ↦
      rw (other, later_range n i j other)
        (elim (p == page)
          as (λ b.
            (if b && (leb i j && ltb j (i + suc n))
              then word j
              else if b && false
              then word i
              else phys p j)
            ≡ (if b && (leb i j && ltb j (i + suc n)) then word j else phys p j)) [
              | true ↦ refl
              | false ↦ refl
            ])
]

with_words-zero :
    (page i : ℕ) (word : ℕ → ℕ) (phys : ℕ → ℕ → ℕ) (p j : ℕ)
    → phys p j ≡ with_words page 0 i word phys p j
unfolding with_words
with_words-zero page i word phys p j =
    rw (empty_range)
      (elim (p == page) as (λ b. phys p j ≡ (if b && false then word j else phys p j)) [
        | true ↦ refl
        | false ↦ refl
      ])
  where
    empty_range : (leb i j && ltb j (i + 0)) ≡ false
    empty_range = ground arith

store_words-mapped :
    (n pa e i : ℕ) (word : ℕ → ℕ) (phys : ℕ → ℕ → ℕ) (m : Memory)
    → e < 4096
    → store_words
        (entry_address e)
        n
        i
        word
        (record (put_entry e (pte_addr pa + pte_pw) m) { phys = phys })
      ≡ record (put_entry e (pte_addr pa + pte_pw) m) {
        phys = with_words (pte_addr pa) n i word phys;
      }
unfolding store_words
store_words-mapped zero pa e i word phys m bound = λ k.
    record (put_entry e (pte_addr pa + pte_pw) m) {
      phys = λ p j. with_words-zero (pte_addr pa) i word phys p j k;
    }
store_words-mapped (suc n) pa e i word phys m bound =
    ap (store_words (entry_address e) n (i + 1) word) (store-mapped pa e i (word i) phys m bound)
    ∙ (store_words-mapped n pa e (i + 1) word (with_word (pte_addr pa) i (word i) phys) m bound
        ∙ (λ k. record (put_entry e (pte_addr pa + pte_pw) m) {
          phys = λ p j. with_words-suc (pte_addr pa) n i word phys p j k;
        }))

-- A cleared page holds the word 0 at every index.
pub pmap_zero_page-Becomes :
    (pa : ℕ) (m : Memory)
    → Becomes (with_words (pte_addr pa) 1024 0 (λ i. 0) m.phys) m (pmap_zero_page pa m)
unfolding pmap_zero_page
pmap_zero_page-Becomes pa m =
    with_page-Becomes pa (λ va. store_words va 1024 0 (λ i. 0))
      (with_words (pte_addr pa) 1024 0 (λ i. 0) m.phys) m
      (λ e bound. store_words-mapped 1024 pa e 0 (λ i. 0) m.phys m bound)

-- The kernel's entries from 768 on, 0 below.
abbrev pub directory_word : Memory → ℕ → ℕ
directory_word m i = if ltb i 768 then 0 else m.page_dir i

pub pmap_pdinit-Becomes :
    (pa : ℕ) (m : Memory)
    → Becomes (with_words (pte_addr pa) 1024 0 (directory_word m) m.phys) m (pmap_pdinit pa m)
unfolding pmap_pdinit
pmap_pdinit-Becomes pa m =
    with_page-Becomes pa (λ va. store_words va 1024 0 (directory_word m))
      (with_words (pte_addr pa) 1024 0 (directory_word m) m.phys) m
      (λ e bound. store_words-mapped 1024 pa e 0 (directory_word m) m.phys m bound)
