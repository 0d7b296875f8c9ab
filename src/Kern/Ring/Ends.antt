-- ===== src/Kern/Ring/Ends.antt =====
-- system/kern/kern_ring.c and system/include/utils/list.h: nodes put in at both ends of a ring.
use rkernel.Base.{
  refl, ap, inr, inl, append_assoc, Bool-cases, ◌⊎◌, ◌==◌, All-of_append, All-append, sym, subst,
  if◌then◌else◌, [], ◌≢◌, ◌≡◌, ◌∷◌, ◌++◌, All, ℕ, List,
}
use rkernel.Kern.Ring.{Links, link_between, linked_ring_insert}
use rkernel.Kern.Ring.Insert.{
  IsSegment, IsSegment-append, IsSegment-split, IsFresh, link_between-IsSegment, link_between-later,
  link_between-earlier,
}

abbrev pub IsDistinct : List ℕ → Type 0
IsDistinct [] = Unit
IsDistinct (x ∷ xs) = IsFresh x xs × IsDistinct xs

-- The ring of the node `h` holds the nodes `xs`, in their order.
abbrev pub IsRing : Links → ℕ → List ℕ → Type 0
IsRing s h xs = IsSegment s h xs h × IsDistinct (h ∷ xs)

pub both :
    (P : ℕ → Type 0) (Q : ℕ → Type 0) (xs : List ℕ) → All P xs → All Q xs → All (λ x. P x × Q x) xs
both P Q [] p q = tt
both P Q (x ∷ xs) (p, ps) (q, qs) = ((p, q), both P Q xs ps qs)

distinct_last : (us : List ℕ) (l : ℕ) → IsDistinct (us ++ (l ∷ [])) → IsFresh l us
distinct_last [] l d = tt
distinct_last (u ∷ us) l (k, d) =
    ((λ e. (All-of_append (λ x. x ≢ u) us (l ∷ []) k).1.0 (sym e)), distinct_last us l d)

IsDistinct-snoc : (us : List ℕ) (e : ℕ) → IsDistinct us → IsFresh e us → IsDistinct (us ++ (e ∷ []))
IsDistinct-snoc [] e d f = (tt, tt)
IsDistinct-snoc (u ∷ us) e (k, d) (n, f) =
    (All-append (λ x. x ≢ u) us (e ∷ []) k ((λ q. n (sym q)), tt), IsDistinct-snoc us e d f)

Snoc-cases : (xs : List ℕ) → (xs ≡ []) ⊎ ((us : List ℕ) × ((l : ℕ) × (xs ≡ us ++ (l ∷ []))))
Snoc-cases [] = inl refl
Snoc-cases (x ∷ xs) = elim (Snoc-cases xs) [
  | inl e ↦ inr ([], (x, ap (λ t. x ∷ t) e))
  | inr (us, (l, e)) ↦ inr (x ∷ us, (l, ap (λ t. x ∷ t) e))
]

pub other : (a b : ℕ) → a ≢ b → b ≢ a
other a b n e = n (sym e)

-- A fresh node linked behind the head.
head_in :
    (s : Links) (h e : ℕ) (xs : List ℕ)
    → IsRing s h xs
    → IsFresh e (h ∷ xs)
    → IsRing (link_between h e (s.next h) s) h (e ∷ xs)
head_in s h e [] (g, d) (he, f) = (
  subst (λ c. IsSegment (link_between h e c s) h (e ∷ []) h) (sym g.0)
      (link_between-IsSegment s h e h he he),
  ((other h e he, tt), (tt, tt)),
)
head_in s h e (x ∷ xs) (((n, p), g), ((xh, k), (m, d))) (he, (xe, f)) = (
  subst (λ c. IsSegment (link_between h e c s) h (e ∷ x ∷ xs) h) (sym n)
      (IsSegment-append (link_between h e x s) h x h (e ∷ []) xs
        (link_between-IsSegment s h e x he xe)
        (link_between-later s h e x he xe h xs (both _ _ (x ∷ xs) (xh, k) (xe, f))
          (both _ _ (xs ++ (h ∷ [])) (All-append (λ y. y ≢ x) xs (h ∷ []) m (other x h xh, tt))
            (All-append (λ y. y ≢ e) xs (h ∷ []) f (he, tt)))
          g)),
  ((other h e he, (xh, k)), ((xe, f), (m, d))),
)

last_in :
    (s : Links) (h e : ℕ) (us : List ℕ) (l : ℕ)
    → IsRing s h (us ++ (l ∷ []))
    → IsFresh e (h ∷ (us ++ (l ∷ [])))
    → IsSegment (link_between (s.prev h) e h s) h ((us ++ (l ∷ [])) ++ (e ∷ [])) h
last_in s h e us l (g, (k, d)) (he, f) =
    let halves = IsSegment-split s h l h us [] g in
    let ends = All-of_append (λ x. x ≢ h) us (l ∷ []) k in
    let fresh = All-of_append (λ x. x ≢ e) us (l ∷ []) f in
    subst (λ a. IsSegment (link_between a e h s) h ((us ++ (l ∷ [])) ++ (e ∷ [])) h)
      (sym halves.1.1)
      (subst (λ t. IsSegment (link_between l e h s) h t h) (sym (append_assoc us (l ∷ []) (e ∷ [])))
        (IsSegment-append (link_between l e h s) h l h us (e ∷ [])
          (link_between-earlier s l e h fresh.1.0 he h us
            (both _ _ (h ∷ us) (other l h ends.1.0, distinct_last us l d) (he, fresh.0))
            (both _ _ (us ++ (l ∷ [])) k f) halves.0)
          (link_between-IsSegment s l e h fresh.1.0 he)))

-- A fresh node linked in front of the head, which is the end of the ring.
pub tail_in :
    (s : Links) (h e : ℕ) (xs : List ℕ)
    → IsRing s h xs
    → IsFresh e (h ∷ xs)
    → IsRing (link_between (s.prev h) e h s) h (xs ++ (e ∷ []))
tail_in s h e xs (g, d) f = (segment (Snoc-cases xs), IsDistinct-snoc (h ∷ xs) e d f)
  where
    segment :
        (xs ≡ []) ⊎ ((us : List ℕ) × ((l : ℕ) × (xs ≡ us ++ (l ∷ []))))
        → IsSegment (link_between (s.prev h) e h s) h (xs ++ (e ∷ [])) h
    segment (inl none_in) =
        subst (λ t. IsSegment (link_between (s.prev h) e h s) h (t ++ (e ∷ [])) h) (sym none_in)
          (subst (λ a. IsSegment (link_between a e h s) h (e ∷ []) h)
            (sym (subst (λ t. IsSegment s h t h) none_in g).1)
            (link_between-IsSegment s h e h f.0 f.0))
    segment (inr (us, (l, same))) =
        subst (λ t. IsSegment (link_between (s.prev h) e h s) h (t ++ (e ∷ [])) h) (sym same)
          (last_in s h e us l (subst (IsRing s h) same (g, d))
            (subst (λ t. IsFresh e (h ∷ t)) same f))

-- A node that is not in the ring is put behind the head where `after` is not 0, and at the end where it
-- is 0.
pub linked_ring_insert-IsRing :
    (s : Links) (h e after : ℕ) (xs : List ℕ)
    → IsRing s h xs
    → IsFresh e (h ∷ xs)
    → IsRing (linked_ring_insert h e after s) h (if after == 0 then xs ++ (e ∷ []) else e ∷ xs)
unfolding linked_ring_insert
linked_ring_insert-IsRing s h e after xs r f = elim (Bool-cases (after == 0)) [
  | inl zero_after ↦ rw zero_after (tail_in s h e xs r f)
  | inr some_after ↦ rw some_after (head_in s h e xs r f)
]
