-- ===== src/Kern/Ring/Insert.antt =====
-- system/kern/kern_ring.c and system/include/utils/list.h: nodes put into a ring.
use rkernel.Base.{◌∙◌, All-mono, [], ◌∷◌, ◌++◌, All, ◌≢◌, ◌≡◌, List, ℕ, arith}
use rkernel.Kern.Ring.{Links, link_between}

abbrev pub IsLinked : Links → ℕ → ℕ → Type 0
IsLinked s a c = (s.next a ≡ c) × (s.prev c ≡ a)

-- The nodes `xs` are linked both ways, in their order, between `a` and `c`.
abbrev pub IsSegment : Links → ℕ → List ℕ → ℕ → Type 0
IsSegment s a [] c = IsLinked s a c
IsSegment s a (x ∷ xs) c = IsLinked s a x × IsSegment s x xs c

abbrev pub IsFresh : ℕ → List ℕ → Type 0
IsFresh a xs = All (λ x. x ≢ a) xs

-- Outside the nodes that a change writes to, a segment stays.
pub IsSegment-frame :
    (s t : Links) (a c : ℕ) (xs : List ℕ)
    → All (λ x. t.next x ≡ s.next x) (a ∷ xs)
    → All (λ x. t.prev x ≡ s.prev x) (xs ++ (c ∷ []))
    → IsSegment s a xs c
    → IsSegment t a xs c
IsSegment-frame s t a c [] (n, m) (p, q) (e, f) = (n ∙ e, p ∙ f)
IsSegment-frame s t a c (x ∷ xs) (n, m) (p, q) ((e, f), rest) =
    ((n ∙ e, p ∙ f), IsSegment-frame s t x c xs m q rest)

pub IsSegment-append :
    (s : Links) (a b c : ℕ) (xs ys : List ℕ)
    → IsSegment s a xs b
    → IsSegment s b ys c
    → IsSegment s a (xs ++ (b ∷ ys)) c
IsSegment-append s a b c [] ys h k = (h, k)
IsSegment-append s a b c (x ∷ xs) ys (h, hs) k = (h, IsSegment-append s x b c xs ys hs k)

pub IsSegment-split :
    (s : Links) (a b c : ℕ) (xs ys : List ℕ)
    → IsSegment s a (xs ++ (b ∷ ys)) c
    → IsSegment s a xs b × IsSegment s b ys c
IsSegment-split s a b c [] ys (h, k) = (h, k)
IsSegment-split s a b c (x ∷ xs) ys (h, hs) =
    let r = IsSegment-split s x b c xs ys hs in ((h, r.0), r.1)

module _ (s : Links) (a b c : ℕ) (ab : a ≢ b) (cb : c ≢ b) where
  -- The two links that the four writes make, also where `a` and `c` are one node.
  pub link_between-IsSegment : IsSegment (link_between a b c s) a (b ∷ []) c
  link_between-IsSegment = ((ground arith, ground arith), (ground arith, ground arith))

  link_between-next : (x : ℕ) → x ≢ a → x ≢ b → (link_between a b c s).next x ≡ s.next x
  link_between-next x xa xb = ground arith

  link_between-prev : (x : ℕ) → x ≢ c → x ≢ b → (link_between a b c s).prev x ≡ s.prev x
  link_between-prev x xc xb = ground arith

  -- A segment from `c` on keeps its links.
  pub link_between-later :
      (d : ℕ) (xs : List ℕ)
      → All (λ x. (x ≢ a) × (x ≢ b)) (c ∷ xs)
      → All (λ x. (x ≢ c) × (x ≢ b)) (xs ++ (d ∷ []))
      → IsSegment s c xs d
      → IsSegment (link_between a b c s) c xs d
  link_between-later d xs n p h =
      IsSegment-frame s (link_between a b c s) c d xs
        (All-mono _ _ (λ x k. link_between-next x k.0 k.1) (c ∷ xs) n)
        (All-mono _ _ (λ x k. link_between-prev x k.0 k.1) (xs ++ (d ∷ [])) p) h

  -- So does one up to `a`.
  pub link_between-earlier :
      (d : ℕ) (xs : List ℕ)
      → All (λ x. (x ≢ a) × (x ≢ b)) (d ∷ xs)
      → All (λ x. (x ≢ c) × (x ≢ b)) (xs ++ (a ∷ []))
      → IsSegment s d xs a
      → IsSegment (link_between a b c s) d xs a
  link_between-earlier d xs n p h =
      IsSegment-frame s (link_between a b c s) d a xs
        (All-mono _ _ (λ x k. link_between-next x k.0 k.1) (d ∷ xs) n)
        (All-mono _ _ (λ x k. link_between-prev x k.0 k.1) (xs ++ (a ∷ [])) p) h
