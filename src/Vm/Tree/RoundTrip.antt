-- ===== src/Vm/Tree/RoundTrip.antt =====
-- system/vm/tree.c as a dictionary: what a search finds after an update.
use rkernel.Base.{
  ℕ, ◌≡◌, ◌∙◌, ap, sym, refl, Option, none, some, List, [], ◌∷◌, arith, ◌==◌, if◌then◌else◌,
}
use rkernel.Vm.Tree.{Tree, Entry, Way, plug, bt_lookup, bt_put, bt_remove}
use rkernel.Vm.Tree.Order.{to_list, Above, Sorted, IsSearchTree}
use rkernel.Vm.Tree.Links.{find, find-Above, value_of, entry_at, bt_lookup-find}
use rkernel.Vm.Tree.Update.{put_list, put_list-Sorted, bt_put-put_list}
use rkernel.Vm.Tree.Remove.{erase_list, bt_remove-erase_list}

-- The value that a search for `k` finds.
abbrev pub lookup_value : Tree → ℕ → Option ℕ
lookup_value t k = value_of (entry_at (bt_lookup t k))

find-put_list :
    (j : ℕ) (e : Entry) (xs : List Entry)
    → find j (put_list e xs) ≡ (if e.0 == j then some e.1 else find j xs)
unfolding find put_list
find-put_list j e [] = refl
find-put_list j e (x ∷ xs) = ground (arith, find-put_list j e xs)

Above-erase_list : (n k : ℕ) (xs : List Entry) → Above n xs → Above n (erase_list k xs)
unfolding erase_list
Above-erase_list n k [] h = h
Above-erase_list n k (x ∷ xs) h = ground (arith, Above-erase_list n k xs)

erase_list-Sorted : (k : ℕ) (xs : List Entry) → Sorted xs → Sorted (erase_list k xs)
unfolding erase_list
erase_list-Sorted k [] h = h
erase_list-Sorted k (x ∷ xs) h = ground (arith, erase_list-Sorted k xs, Above-erase_list x.0 k xs)

find-erase_list :
    (j k : ℕ) (xs : List Entry)
    → Sorted xs
    → find j (erase_list k xs) ≡ (if k == j then none else find j xs)
unfolding find erase_list
find-erase_list j k [] h = ground arith
find-erase_list j k (x ∷ xs) h = ground (arith, find-erase_list j k xs, find-Above x.0 xs)

-- `bt_put` keeps the search order.
pub bt_put-IsSearchTree :
    (t : Tree) (e : Entry) (d : ℕ) → IsSearchTree t → IsSearchTree (bt_put t e d).0
bt_put-IsSearchTree t e d h = rw ((bt_put-put_list t e d h).0) (put_list-Sorted e (to_list t) h)

-- After `bt_put`, `bt_lookup` finds the new value under the key that was put, and under every other
-- key what it found before.
pub bt_lookup-put :
    (t : Tree) (e : Entry) (d j : ℕ)
    → IsSearchTree t
    → lookup_value (bt_put t e d).0 j ≡ (if e.0 == j then some e.1 else lookup_value t j)
bt_lookup-put t e d j h =
    (bt_lookup-find (bt_put t e d).0 j (bt_put-IsSearchTree t e d h)).0
    ∙ ap (find j) (bt_put-put_list t e d h).0
    ∙ find-put_list j e (to_list t)
    ∙ ap (λ o. if e.0 == j then some e.1 else o) (sym (bt_lookup-find t j h).0)

-- After `bt_remove` at the link that `bt_lookup` finds for a key, the tree is still a search tree,
-- in which no search finds that key, and every other search finds what it found before.
pub bt_lookup-remove :
    (t : Tree) (k j : ℕ) {w : Way} {s : Tree}
    → IsSearchTree t
    → bt_lookup t k ≡ some (w, s)
    → IsSearchTree (plug w (bt_remove s).0)
      × (lookup_value (plug w (bt_remove s).0) j ≡ (if k == j then none else lookup_value t j))
bt_lookup-remove t k j {w} {s} h e =
    let gone = (bt_remove-erase_list t k h e).0 in
    let sorted : IsSearchTree (plug w (bt_remove s).0) =
      rw gone (erase_list-Sorted k (to_list t) h) in
    (
      sorted,
      (bt_lookup-find (plug w (bt_remove s).0) j sorted).0
          ∙ ap (find j) gone
          ∙ find-erase_list j k (to_list t) h
          ∙ ap (λ o. if k == j then none else o) (sym (bt_lookup-find t j h).0),
    )
