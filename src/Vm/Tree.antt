-- ===== src/Vm/Tree.antt =====
-- system/vm/tree.c: the depth-balanced search tree of `struct bintree_node`. A `struct
-- bintree_node **`, the link that holds a node, is the way from the root to that link (`Way`) with
-- the subtree that it holds; a null link holds `leaf`.
pub mod Order
pub mod Links
pub mod Nearest
pub mod Update
pub mod Remove
pub mod Depth
pub mod RoundTrip
mod Tests
use rkernel.Base.{
  ℕ, zero, suc, ◌+◌, ◌-◌, ◌%◌, ◌^◌, true, false, Option, none, some, List, [], ◌∷◌, ltb, leb,
  if◌then◌else◌, ◌&&◌,
}

-- `struct bintree_node`, by its fields left, K, V, depth, right.
pub data Tree : Type 0 where
  leaf : Tree
  node : Tree → ℕ → ℕ → ℕ → Tree → Tree

-- What a caller hands over as `*it`, and gets back: the node's `K` and `V`.
abbrev pub Entry : Type 0
Entry = ℕ × ℕ

unfoldable pub bt_max : ℕ → ℕ → ℕ
bt_max a b = if ltb b a then a else b

unfoldable pub bt_depth : Tree → ℕ
bt_depth leaf = 0
bt_depth (node l k v d r) = d

-- The depth that `bt_calcdepth` stores into a node with these children.
unfoldable pub bt_calcdepth : Tree → Tree → ℕ
bt_calcdepth l r = (bt_max (bt_depth l) (bt_depth r) + 1) % 2 ^ 32

-- A node with its depth calculated.
unfoldable pub calc_node : Tree → ℕ → ℕ → Tree → Tree
calc_node l k v r = node l k v (bt_calcdepth l r) r

-- Every caller rotates left only at a node with a right child.
unfoldable pub bt_rotleft : Tree → Tree
bt_rotleft (node l k v d (node xl xk xv xd xr)) = calc_node (calc_node l k v xl) xk xv xr
bt_rotleft t = t

unfoldable pub bt_rotright : Tree → Tree
bt_rotright (node (node xl xk xv xd xr) k v d r) = calc_node xl xk xv (calc_node xr k v r)
bt_rotright t = t

-- Balances a node, and calculates its depth.
unfoldable pub bt_balance : Tree → Tree
bt_balance leaf = leaf
bt_balance (node l k v d r) =
    if ltb (bt_depth r) (bt_depth l) && ltb 1 (bt_depth l - bt_depth r)
    then bt_rotright (node l k v d r)
    else if ltb (bt_depth l) (bt_depth r) && ltb 1 (bt_depth r - bt_depth l)
    then bt_rotleft (node l k v d r)
    else calc_node l k v r

-- One step down from a node: the side taken, and the rest of the node.
pub data Turn : Type 0 where
  went_left : ℕ → ℕ → ℕ → Tree → Turn
  went_right : Tree → ℕ → ℕ → ℕ → Turn

-- The turns from the root to a link, the last one first.
abbrev pub Way : Type 0
Way = List Turn

unfoldable pub up : Turn → Tree → Tree
up (went_left k v d r) s = node s k v d r
up (went_right l k v d) s = node l k v d s

-- The whole tree, with `s` at the link that the way leads to.
unfoldable pub plug : Way → Tree → Tree
plug [] s = s
plug (t ∷ w) s = plug w (up t s)

-- The backtracking loops: `narr` keeps the last 64 links, and the loop balances the subtree at
-- each of them, the deepest first. The number is how many links are left in `narr`.
unfoldable pub backtrack : ℕ → Way → Tree → Tree
backtrack zero w s = plug w s
backtrack (suc n) [] s = bt_balance s
backtrack (suc n) (t ∷ w) s = backtrack n w (up t (bt_balance s))

-- The search loop that `bt_insert`, `bt_put`, `bt_put_ip` and `bt_lookup` share: down to the link
-- that holds the key, or to the null link where it belongs.
unfoldable pub descend : ℕ → Tree → Way → Way × Tree
descend k leaf w = (w, leaf)
descend k (node l n v d r) w = elim (ltb k n) [
  | true ↦ descend k l (went_left n v d r ∷ w)
  | false ↦ elim (ltb n k) [
    | true ↦ descend k r (went_right l n v d ∷ w)
    | false ↦ (w, node l n v d r)
  ]
]

-- A node just linked in: its depth field is still the caller's, and `bt_balance` calculates it.
abbrev pub fresh : Entry → ℕ → Tree
fresh (k, v) d = node leaf k v d leaf

-- The results are the tree and what `*it` is left with. `d` is the depth field of the new node as
-- the caller left it.
insert_at : Tree → Entry → ℕ → Way × Tree → Tree × Option Entry
insert_at t it d (w, leaf) = (backtrack 64 w (fresh it d), none)
insert_at t it d (w, node l n v e r) = (t, some it)

unfoldable pub bt_insert : Tree → Entry → ℕ → Tree × Option Entry
unfolding insert_at
bt_insert t it d = insert_at t it d (descend it.0 t [])

put_at : Entry → ℕ → Way × Tree → Tree × Option Entry
put_at it d (w, leaf) = (backtrack 64 w (fresh it d), none)
put_at (k, v) d (w, node l n u e r) = (backtrack 64 w (node l k v e r), some (n, u))

unfoldable pub bt_put : Tree → Entry → ℕ → Tree × Option Entry
unfolding put_at
bt_put t it d = put_at it d (descend it.0 t [])

put_ip_at : Entry → ℕ → Way × Tree → Tree × Option Entry
put_ip_at it d (w, leaf) = (backtrack 64 w (fresh it d), none)
put_ip_at (k, v) d (w, node l n u e r) = (backtrack 64 w (node l n v e r), some (k, v))

unfoldable pub bt_put_ip : Tree → Entry → ℕ → Tree × Option Entry
unfolding put_ip_at
bt_put_ip t it d = put_ip_at it d (descend it.0 t [])

-- The loop of `bt_remove` at a node with children `l` and `r`: the node sinks by rotations to the
-- side that is not deeper, until one of its children is null and the other takes its place.
unfoldable pub sink : Tree → ℕ → ℕ → Tree → Way → Way × Tree
sink leaf k v r w = (w, r)
sink (node ll lk lv ld lr) k v leaf w = (w, node ll lk lv ld lr)
sink (node ll lk lv ld lr) k v (node rl rk rv rd rr) w = elim (leb ld rd) [
  | true ↦
      sink (node ll lk lv ld lr) k v rl
        (went_left rk rv (bt_calcdepth (calc_node (node ll lk lv ld lr) k v rl) rr) rr ∷ w)
  | false ↦
      sink lr k v (node rl rk rv rd rr)
        (went_right ll lk lv (bt_calcdepth ll (calc_node lr k v (node rl rk rv rd rr))) ∷ w)
]

-- `bt_remove` takes a link; this is its effect on the subtree that the link holds. `*it` is left
-- alone (`none`) at a null link.
unfoldable pub bt_remove : Tree → Tree × Option Entry
bt_remove leaf = (leaf, none)
bt_remove (node l k v d r) = let (w, s) = sink l k v r [] in (backtrack 64 w s, some (k, v))

found_at : Way × Tree → Option (Way × Tree)
found_at (w, leaf) = none
found_at (w, node l n v d r) = some (w, node l n v d r)

unfoldable pub bt_lookup : Tree → ℕ → Option (Way × Tree)
unfolding found_at
bt_lookup t k = found_at (descend k t [])

unfoldable pub floor_loop : ℕ → Tree → Way → Option (Way × Tree) → Option (Way × Tree)
floor_loop k leaf w lowermost = lowermost
floor_loop k (node l n v d r) w lowermost = elim (ltb k n) [
  | true ↦ floor_loop k l (went_left n v d r ∷ w) lowermost
  | false ↦ elim (ltb n k) [
    | true ↦ floor_loop k r (went_right l n v d ∷ w) (some (w, node l n v d r))
    | false ↦ some (w, node l n v d r)
  ]
]

unfoldable pub bt_floor : Tree → ℕ → Option (Way × Tree)
unfolding floor_loop
bt_floor t k = floor_loop k t [] none

unfoldable pub ceiling_loop : ℕ → Tree → Way → Option (Way × Tree) → Option (Way × Tree)
ceiling_loop k leaf w uppermost = uppermost
ceiling_loop k (node l n v d r) w uppermost = elim (ltb k n) [
  | true ↦ ceiling_loop k l (went_left n v d r ∷ w) (some (w, node l n v d r))
  | false ↦ elim (ltb n k) [
    | true ↦ ceiling_loop k r (went_right l n v d ∷ w) uppermost
    | false ↦ some (w, node l n v d r)
  ]
]

unfoldable pub bt_ceiling : Tree → ℕ → Option (Way × Tree)
unfolding ceiling_loop
bt_ceiling t k = ceiling_loop k t [] none
