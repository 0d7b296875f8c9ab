-- ===== src/Kern/Ring/Pop.antt =====
-- system/kern/kern_ring.c and system/include/utils/list.h: nodes taken out of a ring.
use mathlib.Core.List.{cons≢nil}
use rkernel.Base.{
  All-append, All-mono, ==→eq, ◌≢◌, ◌∙◌, ◌↔◌, sym, refl, ◌++◌, true, subst, ne→==, ◌≡◌, ◌∷◌, eq→==,
  [], List, ℕ, arith,
}
use rkernel.Kern.Ring.{
  Links, link, linked_ring_empty, linked_ring_init, list_add_before, list_item_remove,
  list_pop_head,
}
use rkernel.Kern.Ring.Insert.{IsSegment, IsSegment-frame, IsFresh, IsLinked}
use rkernel.Kern.Ring.Ends.{IsRing, tail_in, other}

-- `linked_ring_empty` holds exactly of the ring without nodes.
pub linked_ring_empty-nil :
    (s : Links) (h : ℕ) (xs : List ℕ) → IsRing s h xs → (linked_ring_empty h s ≡ true) ↔ (xs ≡ [])
unfolding linked_ring_empty
linked_ring_empty-nil s h [] (g, d) = ((λ e. refl), (λ e. eq→== (s.next h) h g.0))
linked_ring_empty-nil s h (x ∷ xs) (((n, p), g), ((xh, k), d)) =
    ((λ e. absurd (xh (sym n ∙ ==→eq (s.next h) h e))), (λ e. absurd (cons≢nil e)))

-- A ring that is initialised holds no node.
pub linked_ring_init-IsRing : (s : Links) (h : ℕ) → IsRing (linked_ring_init h s) h []
unfolding linked_ring_init
linked_ring_init-IsRing s h = ((ground arith, ground arith), (tt, tt))

link-IsLinked : (s : Links) (a c : ℕ) → IsLinked (link a c s) a c
link-IsLinked s a c = (ground arith, ground arith)

-- The first node of a ring taken out by linking its neighbours.
first_out :
    (s : Links) (h x : ℕ) (xs : List ℕ) → IsRing s h (x ∷ xs) → IsRing (list_item_remove x s) h xs
unfolding list_item_remove
first_out s h x [] (((n, p), (m, q)), ((xh, k), d)) = (
  subst (λ a. IsSegment (link a (s.next x) s) h [] h) (sym p)
      (subst (λ c. IsSegment (link h c s) h [] h) (sym m) (link-IsLinked s h h)),
  (tt, tt),
)
first_out s h x (v ∷ vs) (((n, p), ((m, q), g)), ((xh, (vh, k)), (f, (w, d)))) = (
  subst (λ a. IsSegment (link a (s.next x) s) h (v ∷ vs) h) (sym p)
      (subst (λ c. IsSegment (link h c s) h (v ∷ vs) h) (sym m)
        (
          link-IsLinked s h v,
          IsSegment-frame s (link h v s) v h vs
              (All-mono _ _ (λ y yh. next_kept y yh) (v ∷ vs) (vh, k))
              (All-mono _ _ (λ y yv. prev_kept y yv) (vs ++ (h ∷ []))
                (All-append (λ y. y ≢ v) vs (h ∷ []) w (other v h vh, tt)))
              g,
        )),
  ((vh, k), (w, d)),
)
  where
    next_kept : (y : ℕ) → y ≢ h → (link h v s).next y ≡ s.next y
    next_kept y yh = ground arith

    prev_kept : (y : ℕ) → y ≢ v → (link h v s).prev y ≡ s.prev y
    prev_kept y yv = ground arith

abbrev pub Pops : Links → ℕ → List ℕ → ℕ × Links → Type 0
Pops s h [] (x, t) = (x ≡ 0) × (t ≡ s)
Pops s h (x ∷ xs) (y, t) = (y ≡ x) × IsRing t h xs

-- In a ring whose nodes are not null, `list_pop_head` takes the first node out and returns it, and
-- returns null and changes nothing exactly where there is none.
pub list_pop_head-Pops :
    (s : Links) (h : ℕ) (xs : List ℕ)
    → IsRing s h xs
    → IsFresh 0 xs
    → Pops s h xs (list_pop_head h s)
unfolding list_pop_head
list_pop_head-Pops s h [] (g, d) f = rw (eq→== (s.next h) h g.0) (refl, refl)
list_pop_head-Pops s h (x ∷ xs) (((n, p), g), ((xh, k), d)) (x0, f) =
    rw (n, ne→== x h xh, ne→== x 0 x0) (refl, first_out s h x xs (((n, p), g), ((xh, k), d)))

-- After `list_push_tail` of a fresh node, `list_pop_head` takes the first of the nodes that were there,
-- or the new one where there was none, and the ring keeps the others in their order, the new one last.
pub list_pop_head-push_tail :
    (s : Links) (h e : ℕ) (xs : List ℕ)
    → IsRing s h xs
    → IsFresh e (h ∷ xs)
    → IsFresh 0 (xs ++ (e ∷ []))
    → Pops (list_add_before h e s) h (xs ++ (e ∷ [])) (list_pop_head h (list_add_before h e s))
unfolding list_add_before
list_pop_head-push_tail s h e xs r f live =
    list_pop_head-Pops _ h (xs ++ (e ∷ [])) (tail_in s h e xs r f) live
