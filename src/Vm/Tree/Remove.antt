-- ===== src/Vm/Tree/Remove.antt =====
-- `bt_remove` of system/vm/tree.c.
use rkernel.Base.{
  ℕ, ◌≡◌, refl, ap, ◌∙◌, sym, inl, inr, Option, none, some, List, [], ◌∷◌, ◌++◌, append_assoc,
  append-nil, arith, true, false, leb, ◌==◌, Bool-cases, if◌then◌else◌, All-append, ◌<◌,
}
use rkernel.Vm.Tree.{
  Tree, leaf, node, Entry, Way, plug, descend, bt_lookup, found_at, went_left, went_right,
  calc_node, bt_calcdepth, sink, bt_remove,
}
use rkernel.Vm.Tree.Order.{
  to_list, Below, IsSearchTree, Sorted-Split, left_of, right_of, to_list-plug, to_list-backtrack,
}
use rkernel.Vm.Tree.Links.{Descended, descend-root, around}
use rkernel.Vm.Tree.Update.{entry_with, entry_with-Below, entry_with-hit}

-- The entries of the tree with `s` at the link.
abbrev plugged : Way × Tree → List Entry
plugged (w, s) = left_of w ++ (to_list s ++ right_of w)

to_list-sink :
    (l : Tree) (k v : ℕ) (r : Tree) (w : Way)
    → plugged (sink l k v r w) ≡ left_of w ++ ((to_list l ++ to_list r) ++ right_of w)
unfolding sink to_list left_of right_of
to_list-sink leaf k v r w = refl
to_list-sink (node ll lk lv ld lr) k v leaf w = simp append-nil
to_list-sink (node ll lk lv ld lr) k v (node rl rk rv rd rr) w = elim (Bool-cases (leb ld rd)) [
  | inl lo ↦
      rw (lo, sink)
        (to_list-sink (node ll lk lv ld lr) k v rl
            (went_left rk rv (bt_calcdepth (calc_node (node ll lk lv ld lr) k v rl) rr) rr ∷ w)
          ∙ (simp append_assoc))
  | inr hi ↦
      rw (hi, sink)
        (to_list-sink lr k v (node rl rk rv rd rr)
            (went_right ll lk lv (bt_calcdepth ll (calc_node lr k v (node rl rk rv rd rr))) ∷ w)
          ∙ (simp append_assoc))
]

-- Removing takes out the node's own entry and no other.
pub to_list-remove :
    (l : Tree) (k v d : ℕ) (r : Tree)
    → to_list (bt_remove (node l k v d r)).0 ≡ to_list l ++ to_list r
unfolding bt_remove
to_list-remove l k v d r =
    to_list-backtrack 64 (sink l k v r []).0 (sink l k v r []).1
    ∙ to_list-sink l k v r []
    ∙ unfold left_of right_of in append-nil (to_list l ++ to_list r)

-- The entries without the first one that has the key.
unfoldable pub erase_list : ℕ → List Entry → List Entry
erase_list k [] = []
erase_list k (x ∷ xs) = if x.0 == k then xs else x ∷ erase_list k xs

erase_list-hit :
    (k : ℕ) (xs : List Entry) (e : Entry) (ys : List Entry)
    → Below k xs
    → e.0 ≡ k
    → erase_list k (xs ++ (e ∷ ys)) ≡ xs ++ ys
unfolding erase_list
erase_list-hit k [] e ys b h = ground arith
erase_list-hit k (x ∷ xs) e ys b h = ground (arith, erase_list-hit k xs e ys)

-- The entries around a link, with what stands at it replaced.
regroup : (a b c d : List Entry) → a ++ ((b ++ c) ++ d) ≡ (a ++ b) ++ (c ++ d)
regroup a b c d = simp append_assoc

module _ (t : Tree) (k : ℕ) (w : Way) (l : Tree) (n v d : ℕ) (r : Tree)
    (f : Descended k t (w, node l n v d r)) where
  before : Below k (left_of w ++ to_list l)
  before =
      let s = Sorted-Split (to_list l) (n, v) (to_list r) (unfold to_list in f.sorted) in
      All-append (λ (x : Entry). x.0 < k) (left_of w) (to_list l) f.below (rw (← f.arrived) s.below)

  whole : to_list t ≡ (left_of w ++ to_list l) ++ ((n, v) ∷ (to_list r ++ right_of w))
  whole = rw (← f.same) (around w l n v d r)

  remove_at :
      (to_list (plug w (bt_remove (node l n v d r)).0) ≡ erase_list k (to_list t))
      × ((bt_remove (node l n v d r)).1 ≡ entry_with k (to_list t))
  remove_at = (
    to_list-plug w (bt_remove (node l n v d r)).0
        ∙ ap (λ xs. left_of w ++ (xs ++ right_of w)) (to_list-remove l n v d r)
        ∙ regroup (left_of w) (to_list l) (to_list r) (right_of w)
        ∙ sym (
            ap (erase_list k) whole
            ∙ erase_list-hit k (left_of w ++ to_list l) (n, v) (to_list r ++ right_of w) before
                f.arrived),
    unfold bt_remove in
        sym (
          ap (entry_with k) whole
          ∙ entry_with-Below k (left_of w ++ to_list l) ((n, v) ∷ (to_list r ++ right_of w)) before
          ∙ entry_with-hit k (n, v) (to_list r ++ right_of w) f.arrived),
  )

remove_found :
    (t : Tree) (k : ℕ) (w : Way) (s : Tree) (w' : Way) (s' : Tree)
    → Descended k t (w, s)
    → found_at (w, s) ≡ some (w', s')
    → (to_list (plug w' (bt_remove s').0) ≡ erase_list k (to_list t))
      × ((bt_remove s').1 ≡ entry_with k (to_list t))
unfolding found_at
remove_found t k w leaf w' s' f e = cc
remove_found t k w (node l n v d r) w' s' f e =
    let same : ◌≡◌ {A = Way × Tree} (w, node l n v d r) (w', s') = cc in
    rkernel.Base.subst
      (λ (p : Way × Tree).
        (to_list (plug p.0 (bt_remove p.1).0) ≡ erase_list k (to_list t))
        × ((bt_remove p.1).1 ≡ entry_with k (to_list t)))
      same (remove_at t k w l n v d r f)

-- In a search tree, `bt_remove` at the link that `bt_lookup` finds for a key takes exactly that
-- key's entry out of the tree, and hands it back.
pub bt_remove-erase_list :
    (t : Tree) (k : ℕ) {w : Way} {s : Tree}
    → IsSearchTree t
    → bt_lookup t k ≡ some (w, s)
    → (to_list (plug w (bt_remove s).0) ≡ erase_list k (to_list t))
      × ((bt_remove s).1 ≡ entry_with k (to_list t))
unfolding bt_lookup
bt_remove-erase_list t k {w} {s} h e =
    remove_found t k (descend k t []).0 (descend k t []).1 w s (descend-root k t h) e
