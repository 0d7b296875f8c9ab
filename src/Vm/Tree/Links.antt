-- ===== src/Vm/Tree/Links.antt =====
-- What the searches of system/vm/tree.c find: `bt_lookup`, `bt_floor` and `bt_ceiling`.
use rkernel.Base.{
  ℕ, ◌<◌, ◌≡◌, refl, ◌∙◌, sym, inl, inr, Option, none, some, List, [], ◌∷◌, ◌++◌, append_assoc,
  arith, ltb, ◌==◌, ltb→lt, ltb→ge, Bool-cases, if◌then◌else◌, All-append,
}
use rkernel.Vm.Tree.{
  Tree, leaf, node, Entry, went_left, went_right, Way, up, plug, descend, found_at, bt_lookup,
}
use rkernel.Vm.Tree.Order.{
  to_list, Below, Above, IsSearchTree, Below-trans, Above-trans, Split, Sorted-Split, left_of,
  right_of, to_list-plug,
}

-- Where the search for `k` stops: at a null link, or at a node with that key.
abbrev pub Arrived : ℕ → Tree → Type 0
Arrived k leaf = Unit
Arrived k (node l n v d r) = n ≡ k

pub record Descended (k : ℕ) (whole : Tree) (out : Way × Tree) : Type 0 where
  pub same : plug out.0 out.1 ≡ whole
  pub below : Below k (left_of out.0)
  pub above : Above k (right_of out.0)
  pub arrived : Arrived k out.1
  pub sorted : IsSearchTree out.1

-- The two facts about a way that every search keeps.
abbrev pub Around : ℕ → Way → Type 0
Around k w = Below k (left_of w) × Above k (right_of w)

module _ (k : ℕ) (l : Tree) (n v d : ℕ) (r : Tree) (w : Way) (s : Split (to_list l) n (to_list r))
    (a : Around k w) where
  pub Around-left : k < n → Around k (went_left n v d r ∷ w)
  unfolding left_of right_of
  Around-left h = (
    a.0,
    All-append (λ (e : Entry). k < e.0) ((n, v) ∷ to_list r) (right_of w)
        (h, Above-trans k n (to_list r) h s.above) a.1,
  )

  pub Around-right : n < k → Around k (went_right l n v d ∷ w)
  unfolding left_of right_of
  Around-right h = (
    All-append (λ (e : Entry). e.0 < k) (left_of w) (to_list l ++ ((n, v) ∷ [])) a.0
        (All-append (λ (e : Entry). e.0 < k) (to_list l) ((n, v) ∷ [])
          (Below-trans n k (to_list l) h s.below) (h, tt)),
    a.1,
  )

pub descend_lem :
    (k : ℕ) (t : Tree) (w : Way)
    → IsSearchTree t
    → Around k w
    → Descended k (plug w t) (descend k t w)
unfolding descend plug up
descend_lem k leaf w h a = record {
  same = refl;
  below = a.0;
  above = a.1;
  arrived = tt;
  sorted = h;
}
descend_lem k (node l n v d r) w h a =
    let s : Split (to_list l) n (to_list r) =
      Sorted-Split (to_list l) (n, v) (to_list r) (unfold to_list in h) in
    elim (Bool-cases (ltb k n)) [
      | inl lo ↦
          rw (lo, descend)
            (descend_lem k l (went_left n v d r ∷ w) s.front
              (Around-left k l n v d r w s a (ltb→lt k n lo)))
      | inr ge ↦ elim (Bool-cases (ltb n k)) [
        | inl hi ↦
            rw (ge, hi, descend)
              (descend_lem k r (went_right l n v d ∷ w) s.back
                (Around-right k l n v d r w s a (ltb→lt n k hi)))
        | inr le ↦
            rw (ge, le, descend)
              (record {
                same = refl;
                below = a.0;
                above = a.1;
                arrived = omega (arith, ltb→ge k n ge, ltb→ge n k le);
                sorted = h;
              })
      ]
    ]

-- From the root.
pub descend-root : (k : ℕ) (t : Tree) → IsSearchTree t → Descended k t (descend k t [])
descend-root k t h = unfold plug left_of right_of in descend_lem k t [] h (tt, tt)

-- The dictionary that a list of entries stands for.
unfoldable pub find : ℕ → List Entry → Option ℕ
find k [] = none
find k ((n, v) ∷ xs) = if n == k then some v else find k xs

pub find-Below : (k : ℕ) (xs ys : List Entry) → Below k xs → find k (xs ++ ys) ≡ find k ys
unfolding find
find-Below k [] ys h = refl
find-Below k (x ∷ xs) ys h = ground (arith, find-Below k xs ys)

pub find-Above : (k : ℕ) (xs : List Entry) → Above k xs → find k xs ≡ none
unfolding find
find-Above k [] h = refl
find-Above k (x ∷ xs) h = ground (arith, find-Above k xs)

-- The entry that a link holds.
abbrev pub entry_of : Tree → Option Entry
entry_of leaf = none
entry_of (node l k v d r) = some (k, v)

abbrev pub entry_at : Option (Way × Tree) → Option Entry
entry_at none = none
entry_at (some (w, s)) = entry_of s

abbrev pub value_of : Option Entry → Option ℕ
value_of none = none
value_of (some (k, v)) = some v

-- The link is one of the tree's.
abbrev pub IsLinkOf : Tree → Option (Way × Tree) → Type 0
IsLinkOf t none = Unit
IsLinkOf t (some (w, s)) = plug w s ≡ t

-- The entries around a link, its own node's in the middle.
pub around :
    (w : Way) (l : Tree) (n v d : ℕ) (r : Tree)
    → to_list (plug w (node l n v d r))
      ≡ (left_of w ++ to_list l) ++ ((n, v) ∷ (to_list r ++ right_of w))
unfolding to_list
around w l n v d r = to_list-plug w (node l n v d r) ∙ simp append_assoc

find-Descended :
    (k : ℕ) (t : Tree) (w : Way) (s : Tree)
    → Descended k t (w, s)
    → (value_of (entry_at (found_at (w, s))) ≡ find k (to_list t)) × IsLinkOf t (found_at (w, s))
unfolding found_at
find-Descended k t w leaf f = (
  rw (← f.same, to_list-plug w leaf)
      (unfold to_list in
        sym (find-Below k (left_of w) (right_of w) f.below ∙ find-Above k (right_of w) f.above)),
  tt,
)
find-Descended k t w (node l n v d r) f =
    let s = Sorted-Split (to_list l) (n, v) (to_list r) (unfold to_list in f.sorted) in
    let low : Below k (left_of w ++ to_list l) =
      All-append (λ (e : Entry). e.0 < k) (left_of w) (to_list l) f.below
        (rw (← f.arrived) s.below) in
    (
      rw (← f.same, around w l n v d r)
          (sym (
            find-Below k (left_of w ++ to_list l) ((n, v) ∷ (to_list r ++ right_of w)) low
            ∙ hit n v (to_list r ++ right_of w) f.arrived)),
      f.same,
    )
  where
    hit : (n v : ℕ) (xs : List Entry) → n ≡ k → find k ((n, v) ∷ xs) ≡ some v
    hit n v xs e = unfold find in ground arith

-- In a search tree `bt_lookup` returns a link of the tree that holds the value the key has among
-- the entries, and the null pointer exactly when the key has none.
pub bt_lookup-find :
    (t : Tree) (k : ℕ)
    → IsSearchTree t
    → (value_of (entry_at (bt_lookup t k)) ≡ find k (to_list t)) × IsLinkOf t (bt_lookup t k)
unfolding bt_lookup
bt_lookup-find t k h = find-Descended k t (descend k t []).0 (descend k t []).1 (descend-root k t h)
