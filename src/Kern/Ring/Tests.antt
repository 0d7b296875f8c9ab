-- ===== src/Kern/Ring/Tests.antt =====
-- A ring of one node, and the theorems at it.
use rkernel.Base.{ℕ, List, refl, ◌==◌, [], ◌∷◌, if◌then◌else◌, arith}
use rkernel.Kern.Ring.{Links, linked_ring_insert}
use rkernel.Kern.Ring.Ends.{IsRing, linked_ring_insert-IsRing}

-- The ring of node 1 with node 2 in it.
abbrev links : Links
links = record { next = λ p. if p == 1 then 2 else 1; prev = λ p. if p == 1 then 2 else 1 }

abbrev one_node : List ℕ
one_node = 2 ∷ []

links-IsRing : IsRing links 1 (2 ∷ [])
links-IsRing = (((refl, refl), (refl, refl)), ((omega arith, tt), (tt, tt)))

linked_ring_insert-IsRing_example : IsRing (linked_ring_insert 1 3 0 links) 1 (2 ∷ 3 ∷ [])
linked_ring_insert-IsRing_example =
    linked_ring_insert-IsRing links 1 3 0 (2 ∷ []) links-IsRing (omega arith, (omega arith, tt))
