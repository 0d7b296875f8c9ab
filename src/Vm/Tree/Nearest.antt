-- ===== src/Vm/Tree/Nearest.antt =====
-- `bt_floor` and `bt_ceiling` of system/vm/tree.c: the nearest key at or below, at or above.
use rkernel.Base.{
  ℕ, ◌<◌, ◌≤◌, ◌≡◌, refl, ◌∙◌, sym, inl, inr, Option, none, some, List, [], ◌∷◌, ◌++◌, append_assoc,
  arith, ltb, leb, ltb→lt, ltb→ge, Bool-cases, if◌then◌else◌, All-append,
}
use rkernel.Vm.Tree.{
  Tree, leaf, node, Entry, went_left, went_right, Way, up, plug, floor_loop, bt_floor, ceiling_loop,
  bt_ceiling,
}
use rkernel.Vm.Tree.Order.{
  to_list, Below, Above, IsSearchTree, Split, Sorted-Split, left_of, right_of, to_list-plug,
}
use rkernel.Vm.Tree.Links.{Around, Around-left, Around-right, entry_at, IsLinkOf, around}

-- The last entry of a list whose key is at most `k`.
unfoldable pub floor_list : ℕ → List Entry → Option Entry
floor_list k [] = none
floor_list k (e ∷ xs) = elim (floor_list k xs) [
  | some f ↦ some f
  | none ↦ if leb e.0 k then some e else none
]

-- The first entry of a list whose key is at least `k`.
unfoldable pub ceiling_list : ℕ → List Entry → Option Entry
ceiling_list k [] = none
ceiling_list k (e ∷ xs) = if leb k e.0 then some e else ceiling_list k xs

floor_list-Above : (k : ℕ) (ys : List Entry) → Above k ys → floor_list k ys ≡ none
unfolding floor_list
floor_list-Above k [] h = refl
floor_list-Above k (y ∷ ys) h = ground (arith, floor_list-Above k ys)

floor_list-append-Above :
    (k : ℕ) (xs ys : List Entry) → Above k ys → floor_list k (xs ++ ys) ≡ floor_list k xs
unfolding floor_list
floor_list-append-Above k [] ys h = floor_list-Above k ys h
floor_list-append-Above k (x ∷ xs) ys h = ground (arith, floor_list-append-Above k xs ys)

floor_list-hit :
    (k : ℕ) (xs : List Entry) (e : Entry) (ys : List Entry)
    → e.0 ≤ k
    → Above k ys
    → floor_list k (xs ++ (e ∷ ys)) ≡ some e
unfolding floor_list
floor_list-hit k [] e ys h a = ground (arith, floor_list-Above k ys)
floor_list-hit k (x ∷ xs) e ys h a = ground (arith, floor_list-hit k xs e ys)

ceiling_list-Below :
    (k : ℕ) (xs ys : List Entry) → Below k xs → ceiling_list k (xs ++ ys) ≡ ceiling_list k ys
unfolding ceiling_list
ceiling_list-Below k [] ys h = refl
ceiling_list-Below k (x ∷ xs) ys h = ground (arith, ceiling_list-Below k xs ys)

ceiling_list-hit :
    (k : ℕ) (e : Entry) (ys : List Entry) → k ≤ e.0 → ceiling_list k (e ∷ ys) ≡ some e
unfolding ceiling_list
ceiling_list-hit k e ys h = ground arith

-- A search for the nearest link is right: it gives the entry of the specification, by a link of
-- the tree.
abbrev Nearest : (List Entry → Option Entry) → Tree → Option (Way × Tree) → Type 0
Nearest spec t out = (entry_at out ≡ spec (to_list t)) × IsLinkOf t out

module _ (k : ℕ) (l : Tree) (n v d : ℕ) (r : Tree) (w : Way) (s : Split (to_list l) n (to_list r))
    (a : Around k w) where
  floor_right : n < k → floor_list k (left_of (went_right l n v d ∷ w)) ≡ some (n, v)
  unfolding left_of
  floor_right h =
      rw (← append_assoc) (floor_list-hit k (left_of w ++ to_list l) (n, v) [] (omega arith) tt)

  ceiling_left : k < n → ceiling_list k (right_of (went_left n v d r ∷ w)) ≡ some (n, v)
  unfolding right_of
  ceiling_left h = ceiling_list-hit k (n, v) (to_list r ++ right_of w) (omega arith)

  hit_floor : n ≡ k → floor_list k (to_list (plug w (node l n v d r))) ≡ some (n, v)
  hit_floor e = rw (around w l n v d r) (
      floor_list-hit k (left_of w ++ to_list l) (n, v) (to_list r ++ right_of w) (omega arith)
        (All-append (λ (x : Entry). k < x.0) (to_list r) (right_of w) (rw (← e) s.above) a.1))

  hit_ceiling : n ≡ k → ceiling_list k (to_list (plug w (node l n v d r))) ≡ some (n, v)
  hit_ceiling e = rw (around w l n v d r) (
      ceiling_list-Below k (left_of w ++ to_list l) ((n, v) ∷ (to_list r ++ right_of w))
        (All-append (λ (x : Entry). x.0 < k) (left_of w) (to_list l) a.0 (rw (← e) s.below))
      ∙ ceiling_list-hit k (n, v) (to_list r ++ right_of w) (omega arith))

floor_loop_lem :
    (k : ℕ) (t : Tree) (w : Way) (low : Option (Way × Tree))
    → IsSearchTree t
    → Around k w
    → entry_at low ≡ floor_list k (left_of w)
    → IsLinkOf (plug w t) low
    → Nearest (floor_list k) (plug w t) (floor_loop k t w low)
unfolding floor_loop plug up left_of right_of
floor_loop_lem k leaf w low h a e i = (
  rw (to_list-plug w leaf, e)
      (unfold to_list in sym (floor_list-append-Above k (left_of w) (right_of w) a.1)),
  i,
)
floor_loop_lem k (node l n v d r) w low h a e i =
    let s : Split (to_list l) n (to_list r) =
      Sorted-Split (to_list l) (n, v) (to_list r) (unfold to_list in h) in
    elim (Bool-cases (ltb k n)) [
      | inl lo ↦
          rw (lo, floor_loop)
            (floor_loop_lem k l (went_left n v d r ∷ w) low s.front
              (Around-left k l n v d r w s a (ltb→lt k n lo)) e i)
      | inr ge ↦ elim (Bool-cases (ltb n k)) [
        | inl hi ↦
            rw (ge, hi, floor_loop)
              (floor_loop_lem k r (went_right l n v d ∷ w) (some (w, node l n v d r)) s.back
                (Around-right k l n v d r w s a (ltb→lt n k hi))
                (sym (floor_right k l n v d r w s a (ltb→lt n k hi))) refl)
        | inr le ↦
            rw (ge, le, floor_loop)
              (
                sym (hit_floor k l n v d r w s a (omega (arith, ltb→ge k n ge, ltb→ge n k le))),
                refl,
              )
      ]
    ]

-- In a search tree `bt_floor` returns a link of the tree that holds the last entry whose key is at
-- most the one asked for, and the null pointer exactly when there is no such entry.
pub bt_floor-floor_list :
    (t : Tree) (k : ℕ)
    → IsSearchTree t
    → (entry_at (bt_floor t k) ≡ floor_list k (to_list t)) × IsLinkOf t (bt_floor t k)
unfolding bt_floor
bt_floor-floor_list t k h =
    unfold plug left_of right_of floor_list in floor_loop_lem k t [] none h (tt, tt) refl tt

ceiling_loop_lem :
    (k : ℕ) (t : Tree) (w : Way) (high : Option (Way × Tree))
    → IsSearchTree t
    → Around k w
    → entry_at high ≡ ceiling_list k (right_of w)
    → IsLinkOf (plug w t) high
    → Nearest (ceiling_list k) (plug w t) (ceiling_loop k t w high)
unfolding ceiling_loop plug up left_of right_of
ceiling_loop_lem k leaf w high h a e i = (
  rw (to_list-plug w leaf, e)
      (unfold to_list in sym (ceiling_list-Below k (left_of w) (right_of w) a.0)),
  i,
)
ceiling_loop_lem k (node l n v d r) w high h a e i =
    let s : Split (to_list l) n (to_list r) =
      Sorted-Split (to_list l) (n, v) (to_list r) (unfold to_list in h) in
    elim (Bool-cases (ltb k n)) [
      | inl lo ↦
          rw (lo, ceiling_loop)
            (ceiling_loop_lem k l (went_left n v d r ∷ w) (some (w, node l n v d r)) s.front
              (Around-left k l n v d r w s a (ltb→lt k n lo))
              (sym (ceiling_left k l n v d r w s a (ltb→lt k n lo))) refl)
      | inr ge ↦ elim (Bool-cases (ltb n k)) [
        | inl hi ↦
            rw (ge, hi, ceiling_loop)
              (ceiling_loop_lem k r (went_right l n v d ∷ w) high s.back
                (Around-right k l n v d r w s a (ltb→lt n k hi)) e i)
        | inr le ↦
            rw (ge, le, ceiling_loop)
              (
                sym (hit_ceiling k l n v d r w s a (omega (arith, ltb→ge k n ge, ltb→ge n k le))),
                refl,
              )
      ]
    ]

-- In a search tree `bt_ceiling` returns a link of the tree that holds the first entry whose key is
-- at least the one asked for, and the null pointer exactly when there is no such entry.
pub bt_ceiling-ceiling_list :
    (t : Tree) (k : ℕ)
    → IsSearchTree t
    → (entry_at (bt_ceiling t k) ≡ ceiling_list k (to_list t)) × IsLinkOf t (bt_ceiling t k)
unfolding bt_ceiling
bt_ceiling-ceiling_list t k h =
    unfold plug left_of right_of ceiling_list in ceiling_loop_lem k t [] none h (tt, tt) refl tt
