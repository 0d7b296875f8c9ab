-- ===== src/Vm/Tree/Update.antt =====
-- What the updates of system/vm/tree.c do to the entries: `bt_insert`, `bt_put`, `bt_put_ip` and
-- `bt_remove`.
use rkernel.Base.{
  ℕ, ◌<◌, ◌≡◌, refl, ap, ◌∙◌, sym, inl, inr, Option, none, some, List, [], ◌∷◌, ◌++◌, arith, ltb,
  ◌==◌, ltb→lt, ltb→ge, Bool-cases, if◌then◌else◌, All-append,
}
use rkernel.Vm.Tree.{
  Tree, leaf, node, Entry, Way, plug, fresh, descend, backtrack, insert_at, bt_insert, put_at,
  bt_put, put_ip_at, bt_put_ip, went_left, went_right, calc_node, sink, bt_remove,
}
use rkernel.Vm.Tree.Order.{
  to_list, Below, Above, Sorted, IsSearchTree, Split, Sorted-Split, Sorted-join, left_of, right_of,
  to_list-plug, to_list-backtrack,
}
use rkernel.Vm.Tree.Links.{Descended, descend-root, around}

-- The entries with `e` put in its place by key, over an entry with the same key.
unfoldable pub put_list : Entry → List Entry → List Entry
put_list e [] = e ∷ []
put_list e (x ∷ xs) =
    if ltb e.0 x.0 then e ∷ (x ∷ xs) else if ltb x.0 e.0 then x ∷ put_list e xs else e ∷ xs

put_list-between :
    (e : Entry) (xs ys : List Entry)
    → Below e.0 xs
    → Above e.0 ys
    → put_list e (xs ++ ys) ≡ xs ++ (e ∷ ys)
unfolding put_list
put_list-between e [] [] h a = refl
put_list-between e [] (y ∷ ys) h a = ground arith
put_list-between e (x ∷ xs) ys h a = ground (arith, put_list-between e xs ys)

put_list-over :
    (e : Entry) (xs : List Entry) (x : Entry) (ys : List Entry)
    → Below e.0 xs
    → x.0 ≡ e.0
    → put_list e (xs ++ (x ∷ ys)) ≡ xs ++ (e ∷ ys)
unfolding put_list
put_list-over e [] x ys h a = ground arith
put_list-over e (z ∷ xs) x ys h a = ground (arith, put_list-over e xs x ys)

pub Above-put_list :
    (k : ℕ) (e : Entry) (xs : List Entry) → k < e.0 → Above k xs → Above k (put_list e xs)
unfolding put_list
Above-put_list k e [] h a = (h, tt)
Above-put_list k e (x ∷ xs) h a = ground (arith, Above-put_list k e xs)

-- Putting keeps the order.
pub put_list-Sorted : (e : Entry) (xs : List Entry) → Sorted xs → Sorted (put_list e xs)
unfolding put_list
put_list-Sorted e [] h = (tt, tt)
put_list-Sorted e (x ∷ xs) h = elim (Bool-cases (ltb e.0 x.0)) [
  | inl lo ↦ rw lo ((ltb→lt e.0 x.0 lo, above-trans e x xs (ltb→lt e.0 x.0 lo) h.0), h)
  | inr ge ↦ rw ge (elim (Bool-cases (ltb x.0 e.0)) [
    | inl hi ↦ rw hi (Above-put_list x.0 e xs (ltb→lt x.0 e.0 hi) h.0, put_list-Sorted e xs h.1)
    | inr le ↦ rw le (
        let same : x.0 ≡ e.0 = omega (arith, ltb→ge e.0 x.0 ge, ltb→ge x.0 e.0 le) in
        (rw (← same) h.0, h.1))
  ])
]
  where
    above-trans : (a b : Entry) (ys : List Entry) → a.0 < b.0 → Above b.0 ys → Above a.0 ys
    above-trans a b ys lt all = rkernel.Vm.Tree.Order.Above-trans a.0 b.0 ys lt all

-- The entry that a key has, as the caller of `bt_put` gets it back.
unfoldable pub entry_with : ℕ → List Entry → Option Entry
entry_with k [] = none
entry_with k (x ∷ xs) = if x.0 == k then some x else entry_with k xs

pub entry_with-Below :
    (k : ℕ) (xs ys : List Entry) → Below k xs → entry_with k (xs ++ ys) ≡ entry_with k ys
unfolding entry_with
entry_with-Below k [] ys h = refl
entry_with-Below k (x ∷ xs) ys h = ground (arith, entry_with-Below k xs ys)

entry_with-Above : (k : ℕ) (xs : List Entry) → Above k xs → entry_with k xs ≡ none
unfolding entry_with
entry_with-Above k [] h = refl
entry_with-Above k (x ∷ xs) h = ground (arith, entry_with-Above k xs)

pub entry_with-hit :
    (k : ℕ) (e : Entry) (ys : List Entry) → e.0 ≡ k → entry_with k (e ∷ ys) ≡ some e
unfolding entry_with
entry_with-hit k e ys h = ground arith

-- At a null link reached by the search, the key is new, and belongs there.
module _ (e : Entry) (t : Tree) (w : Way) (f : Descended e.0 t (w, leaf)) where
  at_leaf : to_list t ≡ left_of w ++ right_of w
  at_leaf = rw (← f.same) (to_list-plug w leaf ∙ unfold to_list in refl)

  put-new : (d : ℕ) → to_list (backtrack 64 w (fresh e d)) ≡ put_list e (to_list t)
  put-new d =
      to_list-backtrack 64 w (fresh e d)
      ∙ unfold to_list in
        sym (ap (put_list e) at_leaf ∙ put_list-between e (left_of w) (right_of w) f.below f.above)

  new-key : entry_with e.0 (to_list t) ≡ none
  new-key = rw at_leaf (
      entry_with-Below e.0 (left_of w) (right_of w) f.below
      ∙ entry_with-Above e.0 (right_of w) f.above)

-- At a node reached by the search, the key is that node's.
module _ (e : Entry) (t : Tree) (w : Way) (l : Tree) (n u d : ℕ) (r : Tree)
    (f : Descended e.0 t (w, node l n u d r)) where
  before : Below e.0 (left_of w ++ to_list l)
  before =
      let s = Sorted-Split (to_list l) (n, u) (to_list r) (unfold to_list in f.sorted) in
      All-append (λ (x : Entry). x.0 < e.0) (left_of w) (to_list l) f.below
        (rw (← f.arrived) s.below)

  at_node : to_list t ≡ (left_of w ++ to_list l) ++ ((n, u) ∷ (to_list r ++ right_of w))
  at_node = rw (← f.same) (around w l n u d r)

  put-over : to_list (backtrack 64 w (node l e.0 e.1 d r)) ≡ put_list e (to_list t)
  put-over =
      to_list-backtrack 64 w (node l e.0 e.1 d r)
      ∙ sym (to_list-plug w (node l e.0 e.1 d r))
      ∙ around w l e.0 e.1 d r
      ∙ sym (
          put_list-over e (left_of w ++ to_list l) (n, u) (to_list r ++ right_of w) before
            f.arrived)
      ∙ ap (put_list e) (sym at_node)

  old-key : entry_with e.0 (to_list t) ≡ some (n, u)
  old-key = rw at_node (
      entry_with-Below e.0 (left_of w ++ to_list l) ((n, u) ∷ (to_list r ++ right_of w)) before
      ∙ entry_with-hit e.0 (n, u) (to_list r ++ right_of w) f.arrived)

-- What `bt_put` promises of its two results.
abbrev Put : Entry → Tree → Tree × Option Entry → Type 0
Put e t out = (to_list out.0 ≡ put_list e (to_list t)) × (out.1 ≡ entry_with e.0 (to_list t))

put_at_lem :
    (e : Entry) (t : Tree) (d : ℕ) (w : Way) (s : Tree)
    → Descended e.0 t (w, s)
    → Put e t (put_at e d (w, s))
unfolding put_at
put_at_lem e t d w leaf f = (put-new e t w f d, sym (new-key e t w f))
put_at_lem e t d w (node l n u c r) f =
    (put-over e t w l n u c r f, sym (old-key e t w l n u c r f))

-- In a search tree `bt_put` leaves the entries with the new one put in its place, in key order, and
-- hands back the entry that the key had before, or null if it had none.
pub bt_put-put_list :
    (t : Tree) (e : Entry) (d : ℕ)
    → IsSearchTree t
    → (to_list (bt_put t e d).0 ≡ put_list e (to_list t))
      × ((bt_put t e d).1 ≡ entry_with e.0 (to_list t))
unfolding bt_put
bt_put-put_list t e d h =
    put_at_lem e t d (descend e.0 t []).0 (descend e.0 t []).1 (descend-root e.0 t h)

-- What is left to the caller where the key stood already: its own node.
abbrev pub kept_if : Entry → Option Entry → Option Entry
kept_if e none = none
kept_if e (some x) = some e

put_ip_at_lem :
    (e : Entry) (t : Tree) (d : ℕ) (w : Way) (s : Tree)
    → Descended e.0 t (w, s)
    → (to_list (put_ip_at e d (w, s)).0 ≡ put_list e (to_list t))
      × ((put_ip_at e d (w, s)).1 ≡ kept_if e (entry_with e.0 (to_list t)))
unfolding put_ip_at
put_ip_at_lem e t d w leaf f = (put-new e t w f d, rw (new-key e t w f))
put_ip_at_lem e t d w (node l n u c r) f =
    (rw f.arrived (put-over e t w l n u c r f), rw (old-key e t w l n u c r f))

-- `bt_put_ip` leaves the same entries as `bt_put`, and the caller keeps its own node exactly if the
-- key stood in the tree already.
pub bt_put_ip-put_list :
    (t : Tree) (e : Entry) (d : ℕ)
    → IsSearchTree t
    → (to_list (bt_put_ip t e d).0 ≡ put_list e (to_list t))
      × ((bt_put_ip t e d).1 ≡ kept_if e (entry_with e.0 (to_list t)))
unfolding bt_put_ip
bt_put_ip-put_list t e d h =
    put_ip_at_lem e t d (descend e.0 t []).0 (descend e.0 t []).1 (descend-root e.0 t h)

-- The entries after an insertion that gives up on a key that is there.
abbrev pub insert_list : Entry → List Entry → List Entry
insert_list e xs = elim (entry_with e.0 xs) [ none ↦ put_list e xs | some x ↦ xs ]

insert_at_lem :
    (e : Entry) (t : Tree) (d : ℕ) (w : Way) (s : Tree)
    → Descended e.0 t (w, s)
    → (to_list (insert_at t e d (w, s)).0 ≡ insert_list e (to_list t))
      × ((insert_at t e d (w, s)).1 ≡ kept_if e (entry_with e.0 (to_list t)))
unfolding insert_at
insert_at_lem e t d w leaf f =
    (rw (new-key e t w f, insert_list) (put-new e t w f d), rw (new-key e t w f))
insert_at_lem e t d w (node l n u c r) f =
    (rw (old-key e t w l n u c r f, insert_list), rw (old-key e t w l n u c r f))

-- `bt_insert` adds an entry with a new key in its place and takes over the caller's node; at a key
-- that stands in the tree it leaves the entries and the caller's node alone.
pub bt_insert-insert_list :
    (t : Tree) (e : Entry) (d : ℕ)
    → IsSearchTree t
    → (to_list (bt_insert t e d).0 ≡ insert_list e (to_list t))
      × ((bt_insert t e d).1 ≡ kept_if e (entry_with e.0 (to_list t)))
unfolding bt_insert
bt_insert-insert_list t e d h =
    insert_at_lem e t d (descend e.0 t []).0 (descend e.0 t []).1 (descend-root e.0 t h)
