-- ===== src/Kern/Zalloc/Chunks.antt =====
-- system/kern/zalloc.c: the free buffers of a zone, and what zalloc and zfree do to them.
use rkernel.Base.{
  ne→==, refl, eq→==, ◌-◌, sym, ◌⊎◌, ◌^◌, subst, length, [], ◌≤◌, ◌∷◌, ◌<◌, ◌%◌, suc, bit_and,
  arith, All, ◌≢◌, ◌≡◌, ◌+◌, List, ℕ,
}
use rkernel.Kern.Zalloc.{zfree, Zone, Memory, Result, give, remove_top, zalloc, take_top, write}

-- Two buffers of `b` bytes that do not overlap.
abbrev pub IsApart : ℕ → ℕ → ℕ → Type 0
IsApart b c x = (c + b ≤ x) ⊎ (x + b ≤ c)

abbrev pub ArePairwiseApart : ℕ → List ℕ → Type 0
ArePairwiseApart b [] = Unit
ArePairwiseApart b (c ∷ cs) = All (IsApart b c) cs × ArePairwiseApart b cs

-- The buffers that first words link from `p` to the null pointer.
abbrev pub IsChain : (ℕ → ℕ) → ℕ → List ℕ → Type 0
IsChain word p [] = p ≡ 0
IsChain word p (c ∷ cs) = (p ≡ c) × ((c ≢ 0) × IsChain word (word c) cs)

-- `cs` are the free buffers of a zone.
pub record AreFree (word : ℕ → ℕ) (zone : Zone) (cs : List ℕ) : Type 0 where
  pub sized : 0 < zone.bufsize
  pub chain : IsChain word zone.freelist cs
  pub apart : ArePairwiseApart zone.bufsize cs
  pub counted : zone.count ≡ length cs % 2 ^ 32

abbrev pub HasFree : ℕ → Memory → List ℕ → Type 0
HasFree z s cs = AreFree s.word (s.zone z) cs

module _ {A : Type 0} (f : ℕ → A) (p : ℕ) (v : A) where
  pub write-same : write f p v p ≡ v
  write-same = ground arith

  pub write-ne : (q : ℕ) → q ≢ p → write f p v q ≡ f q
  write-ne q n = ground arith

not_null : (c : ℕ) → c + 4 ≢ 0
not_null c e = omega arith

minus_four : (c : ℕ) → c ≡ c + 4 - 4
minus_four c = omega arith

pub IsChain-write :
    (word : ℕ → ℕ) (b c v p : ℕ) (cs : List ℕ)
    → 0 < b
    → All (IsApart b c) cs
    → IsChain word p cs
    → IsChain (write word c v) p cs
IsChain-write word b c v p [] pos apart chain = chain
IsChain-write word b c v p (x ∷ xs) pos (a, apart) (e, (n, chain)) = (
  e,
  (
    n,
    subst (λ w. IsChain (write word c v) w xs) (sym (write-ne word c v x (ground (arith, a))))
        (IsChain-write word b c v (word x) xs pos apart chain),
  ),
)

pub count_more : (n k : ℕ) → n ≡ k % 2 ^ 32 → (n + 1) % 2 ^ 32 ≡ suc k % 2 ^ 32
count_more n k e = omega arith

pub count_less : (n k : ℕ) → n ≡ suc k % 2 ^ 32 → (n + 2 ^ 32 - 1) % 2 ^ 32 ≡ k % 2 ^ 32
count_less n k e = omega arith

-- A buffer that is apart from the free ones becomes the first of them.
pub give-HasFree :
    (z c : ℕ) (s : Memory) (cs : List ℕ)
    → c ≢ 0
    → All (IsApart (s.zone z).bufsize c) cs
    → HasFree z s cs
    → HasFree z (give z c s) (c ∷ cs)
unfolding give
give-HasFree z c s cs n apart h =
    subst (λ zone. AreFree (write s.word c (s.zone z).freelist) zone (c ∷ cs))
      (sym (write-same s.zone z _))
      (record {
        sized = h.sized;
        chain = (
          refl,
          (
            n,
            subst (λ w. IsChain (write s.word c (s.zone z).freelist) w cs)
                (sym (write-same s.word c (s.zone z).freelist))
                (IsChain-write s.word (s.zone z).bufsize c (s.zone z).freelist (s.zone z).freelist
                  cs h.sized apart h.chain),
          ),
        );
        apart = (apart, h.apart);
        counted = count_more (s.zone z).count (length cs) h.counted;
      })

-- What `zalloc` leaves of a zone that it does not refill, by the zone's free buffers.
abbrev pub Takes : ℕ → Memory → List ℕ → Result ℕ → Type 0
Takes z s cs Result.panicked = ⊥
Takes z s cs Result.out_of_fuel = ⊥
Takes z s [] (Result.ok p s') = (p ≡ 0) × (s' ≡ s)
Takes z s (c ∷ cs) (Result.ok p s') =
    (p ≡ c + 4) × ((s'.word c ≡ z) × (HasFree z s' cs × All (IsApart (s'.zone z).bufsize c) cs))

abbrev Popped : ℕ → Memory → List ℕ → ℕ × Memory → Type 0
Popped z s cs (p, s') = Takes z s cs (Result.ok p s')

remove_top-Popped :
    (z : ℕ) (s : Memory) (cs : List ℕ) → HasFree z s cs → Popped z s cs (remove_top z s)
unfolding remove_top
remove_top-Popped z s [] h = rw (eq→== (s.zone z).freelist 0 h.chain) (refl, refl)
remove_top-Popped z s (c ∷ cs) h =
    rw (h.chain.0, ne→== c 0 h.chain.1.0)
      (
        refl,
        (
          write-same s.word c z,
          subst (λ zone. AreFree (write s.word c z) zone cs × All (IsApart zone.bufsize c) cs)
              (sym (write-same s.zone z _))
              (
                record {
                  sized = h.sized;
                  chain =
                      IsChain-write s.word (s.zone z).bufsize c z (s.word c) cs h.sized h.apart.0
                        h.chain.1.1;
                  apart = h.apart.1;
                  counted = count_less (s.zone z).count (length cs) h.counted;
                },
                h.apart.0,
              ),
        ),
      )

-- `zalloc` on a zone that it does not refill gives null exactly when no buffer is free, and then
-- changes nothing; else it takes the first free buffer, whose first word is then the zone's pointer
-- and which overlaps none of those that stay free, and returns the place behind that word.
pub zalloc-Takes :
    (z : ℕ) (s : Memory) (cs : List ℕ)
    → z ≢ 0
    → bit_and (s.zone z).memtype 1 ≡ 0
    → HasFree z s cs
    → Takes z s cs (zalloc z s)
unfolding zalloc take_top
zalloc-Takes z s cs n plain h =
    rw (ne→== z 0 n, eq→== (bit_and (s.zone z).memtype 1) 0 plain) (remove_top-Popped z s cs h)

-- A used buffer that overlaps no free one is the first free one of its zone after `zfree`.
pub zfree-HasFree :
    (z c : ℕ) (s : Memory) (cs : List ℕ)
    → c ≢ 0
    → s.word c ≡ z
    → All (IsApart (s.zone z).bufsize c) cs
    → HasFree z s cs
    → HasFree z (zfree (c + 4) s) (c ∷ cs)
unfolding zfree
zfree-HasFree z c s cs n used apart h = rw (ne→== (c + 4) 0 (not_null c)) (
    subst (λ d. HasFree z (give (s.word d) d s) (c ∷ cs)) (minus_four c)
      (subst (λ y. HasFree z (give y c s) (c ∷ cs)) (sym used) (give-HasFree z c s cs n apart h)))

abbrev pub Restores : ℕ → List ℕ → Result ℕ → Type 0
Restores z cs Result.panicked = ⊥
Restores z cs Result.out_of_fuel = ⊥
Restores z cs (Result.ok p s) = HasFree z (zfree p s) cs

taken-Restores :
    (z : ℕ) (s : Memory) (cs : List ℕ) (out : Result ℕ)
    → HasFree z s cs
    → Takes z s cs out
    → Restores z cs out
unfolding zfree
taken-Restores z s [] (Result.ok p s') h (e, same) =
    rw (eq→== p 0 e) (subst (λ s. HasFree z s []) (sym same) h)
taken-Restores z s (c ∷ cs) (Result.ok p s') h (e, (used, (free, apart))) =
    subst (λ p. HasFree z (zfree p s') (c ∷ cs)) (sym e)
      (zfree-HasFree z c s' cs h.chain.1.0 used apart free)
taken-Restores z s [] Result.panicked h never = absurd never
taken-Restores z s (c ∷ cs) Result.panicked h never = absurd never
taken-Restores z s [] Result.out_of_fuel h never = absurd never
taken-Restores z s (c ∷ cs) Result.out_of_fuel h never = absurd never

-- In a zone that is not refilled, freeing what `zalloc` returned brings back the free buffers of
-- before, in their order, whether there was one to take or not.
pub zfree-zalloc :
    (z : ℕ) (s : Memory) (cs : List ℕ)
    → z ≢ 0
    → bit_and (s.zone z).memtype 1 ≡ 0
    → HasFree z s cs
    → Restores z cs (zalloc z s)
zfree-zalloc z s cs n plain h = taken-Restores z s cs (zalloc z s) h (zalloc-Takes z s cs n plain h)
