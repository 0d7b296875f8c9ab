-- ===== src/Vm/Tree/Depth.antt =====
-- The depth fields of system/vm/tree.c: after an update they are the heights of the subtrees.
use rkernel.Base.{
  ℕ, zero, suc, ◌+◌, ◌^◌, ◌<◌, ◌≤◌, ◌≡◌, refl, ◌⊎◌, inl, inr, [], ◌∷◌, arith, ltb, Bool-cases, max,
  length,
}
use rkernel.Vm.Tree.{
  Tree, leaf, node, Entry, went_left, went_right, Way, bt_max, bt_depth, bt_calcdepth, calc_node,
  bt_rotleft, bt_rotright, bt_balance, up, backtrack, fresh, descend, insert_at, bt_insert, put_at,
  bt_put,
}

unfoldable pub height : Tree → ℕ
height leaf = 0
height (node l k v d r) = suc (max (height l) (height r))

-- Every node's depth field is its height.
abbrev pub IsExact : Tree → Type 0
IsExact leaf = Unit
IsExact (node l k v d r) = (d ≡ suc (max (height l) (height r))) × IsExact l × IsExact r

depth-height : (t : Tree) → IsExact t → bt_depth t ≡ height t
unfolding bt_depth height
depth-height leaf h = refl
depth-height (node l k v d r) h = h.0

-- A node whose children are exact, made by calculating its depth.
calc_node-IsExact :
    (l : Tree) (k v : ℕ) (r : Tree)
    → IsExact l
    → IsExact r
    → height l + 1 < 2 ^ 32
    → height r + 1 < 2 ^ 32
    → IsExact (calc_node l k v r) × (height (calc_node l k v r) ≡ suc (max (height l) (height r)))
unfolding calc_node bt_calcdepth bt_max height
calc_node-IsExact l k v r hl hr bl br =
    ((ground (arith, depth-height l hl, depth-height r hr), hl, hr), refl)

abbrev Balanced : ℕ → ℕ → Tree → Type 0
Balanced a b t = IsExact t × (height t ≤ suc (max a b))

rotright-IsExact :
    (l : Tree) (k v d : ℕ) (r : Tree)
    → IsExact l
    → IsExact r
    → height r + 1 < height l
    → height l + 2 < 2 ^ 32
    → Balanced (height l) (height r) (bt_rotright (node l k v d r))
unfolding bt_rotright height
rotright-IsExact leaf k v d r hl hr deep small = absurd (omega arith)
rotright-IsExact (node xl xk xv xd xr) k v d r hl hr deep small =
    let low = calc_node-IsExact xr k v r hl.2 hr (omega arith) (omega arith) in
    let top =
      calc_node-IsExact xl xk xv (calc_node xr k v r) hl.1 low.0 (omega arith)
        (omega (arith, low.1)) in
    (top.0, omega (arith, low.1, top.1))

rotleft-IsExact :
    (l : Tree) (k v d : ℕ) (r : Tree)
    → IsExact l
    → IsExact r
    → height l + 1 < height r
    → height r + 2 < 2 ^ 32
    → Balanced (height l) (height r) (bt_rotleft (node l k v d r))
unfolding bt_rotleft height
rotleft-IsExact l k v d leaf hl hr deep small = absurd (omega arith)
rotleft-IsExact l k v d (node xl xk xv xd xr) hl hr deep small =
    let low = calc_node-IsExact l k v xl hl hr.1 (omega arith) (omega arith) in
    let top =
      calc_node-IsExact (calc_node l k v xl) xk xv xr low.0 hr.2 (omega (arith, low.1))
        (omega arith) in
    (top.0, omega (arith, low.1, top.1))

-- What `bt_balance` chooses at a node, and on what grounds.
balance-cases :
    (l : Tree) (k v d : ℕ) (r : Tree)
    → ((bt_balance (node l k v d r) ≡ bt_rotright (node l k v d r)) × (bt_depth r + 1 < bt_depth l))
      ⊎ ((bt_balance (node l k v d r) ≡ bt_rotleft (node l k v d r))
          × (bt_depth l + 1 < bt_depth r))
      ⊎ (bt_balance (node l k v d r) ≡ calc_node l k v r)
unfolding bt_balance
balance-cases l k v d r = ground arith

-- Balancing a node whose children are exact makes it exact, and never higher than calculating its
-- depth would.
pub balance-IsExact :
    (l : Tree) (k v d : ℕ) (r : Tree)
    → IsExact l
    → IsExact r
    → height l + 2 < 2 ^ 32
    → height r + 2 < 2 ^ 32
    → Balanced (height l) (height r) (bt_balance (node l k v d r))
balance-IsExact l k v d r hl hr bl br = elim (balance-cases l k v d r) [
  | inl (e, deep) ↦
      rw e
        (rotright-IsExact l k v d r hl hr (omega (arith, depth-height l hl, depth-height r hr)) bl)
  | inr (inl (e, deep)) ↦
      rw e
        (rotleft-IsExact l k v d r hl hr (omega (arith, depth-height l hl, depth-height r hr)) br)
  | inr (inr e) ↦
      let c = calc_node-IsExact l k v r hl hr (omega arith) (omega arith) in
      rw e (c.0, omega (arith, c.1))
]

-- The subtrees beside a way are exact, and no higher than `b`.
abbrev Beside : ℕ → Way → Type 0
Beside b [] = Unit
Beside b (went_left k v d r ∷ w) = (IsExact r × (height r ≤ b)) × Beside b w
Beside b (went_right l k v d ∷ w) = (IsExact l × (height l ≤ b)) × Beside b w

-- A node that may have a wrong depth itself, over exact children no higher than `b`.
abbrev Ready : ℕ → Tree → Type 0
Ready b leaf = Unit
Ready b (node l k v d r) = (IsExact l × (height l ≤ b)) × IsExact r × (height r ≤ b)

Beside-mono : (b c : ℕ) (w : Way) → b ≤ c → Beside b w → Beside c w
Beside-mono b c [] h s = tt
Beside-mono b c (went_left k v d r ∷ w) h s = ((s.0.0, omega arith), Beside-mono b c w h s.1)
Beside-mono b c (went_right l k v d ∷ w) h s = ((s.0.0, omega arith), Beside-mono b c w h s.1)

Ready-balance :
    (b : ℕ) (s : Tree)
    → Ready b s
    → b + 2 < 2 ^ 32
    → IsExact (bt_balance s) × (height (bt_balance s) ≤ suc b)
Ready-balance b leaf h small = unfold bt_balance height in (tt, omega arith)
Ready-balance b (node l k v d r) h small =
    let out = balance-IsExact l k v d r h.0.0 h.1 (omega arith) (omega arith) in
    (out.0, omega (arith, out.1))

-- Backtracking over a way that `narr` can hold leaves every depth exact.
backtrack-IsExact :
    (n b : ℕ) (w : Way) (s : Tree)
    → length w < n
    → Ready b s
    → Beside b w
    → b + length w + 2 < 2 ^ 32
    → IsExact (backtrack n w s)
unfolding backtrack
backtrack-IsExact zero b w s fits h side small = absurd (omega arith)
backtrack-IsExact (suc n) b [] s fits h side small = (Ready-balance b s h (omega arith)).0
backtrack-IsExact (suc n) b (went_left k v d r ∷ w) s fits h side small =
    let low = Ready-balance b s h (omega arith) in
    backtrack-IsExact n (suc b) w (up (went_left k v d r) (bt_balance s)) (omega arith)
      (unfold up in (low, side.0.0, omega arith)) (Beside-mono b (suc b) w (omega arith) side.1)
      (omega arith)
backtrack-IsExact (suc n) b (went_right l k v d ∷ w) s fits h side small =
    let low = Ready-balance b s h (omega arith) in
    backtrack-IsExact n (suc b) w (up (went_right l k v d) (bt_balance s)) (omega arith)
      (unfold up in ((side.0.0, omega arith), low.0, low.1))
      (Beside-mono b (suc b) w (omega arith) side.1) (omega arith)

-- What the search keeps on its way down an exact tree of height at most `b`.
record Going (b : ℕ) (room : ℕ) (out : Way × Tree) : Type 0 where
  side : Beside b out.0
  exact : IsExact out.1
  low : height out.1 ≤ b
  depth : length out.0 + height out.1 ≤ room

module _ (b room : ℕ) (l : Tree) (n v d : ℕ) (r : Tree) (w : Way)
    (g : Going b room (w, node l n v d r)) where
  turn_left : Going b room (went_left n v d r ∷ w, l)
  unfolding height
  turn_left = record {
    side = ((g.exact.2, omega (arith, g.low)), g.side);
    exact = g.exact.1;
    low = omega (arith, g.low);
    depth = omega (arith, g.depth);
  }

  turn_right : Going b room (went_right l n v d ∷ w, r)
  unfolding height
  turn_right = record {
    side = ((g.exact.1, omega (arith, g.low)), g.side);
    exact = g.exact.2;
    low = omega (arith, g.low);
    depth = omega (arith, g.depth);
  }

descend-Going :
    (b room k : ℕ) (t : Tree) (w : Way) → Going b room (w, t) → Going b room (descend k t w)
unfolding descend
descend-Going b room k leaf w g = g
descend-Going b room k (node l n v d r) w g = elim (Bool-cases (ltb k n)) [
  | inl lo ↦
      rw (lo, descend)
        (descend-Going b room k l (went_left n v d r ∷ w) (turn_left b room l n v d r w g))
  | inr ge ↦ elim (Bool-cases (ltb n k)) [
    | inl hi ↦
        rw (ge, hi, descend)
          (descend-Going b room k r (went_right l n v d ∷ w) (turn_right b room l n v d r w g))
    | inr le ↦ rw (ge, le, descend) g
  ]
]

started : (t : Tree) → IsExact t → height t < 64 → Going 63 63 ([], t)
started t h small = record { side = tt; exact = h; low = omega arith; depth = omega arith }

put_at-IsExact :
    (e : Entry) (d : ℕ) (w : Way) (s : Tree) → Going 63 63 (w, s) → IsExact (put_at e d (w, s)).0
unfolding put_at height
put_at-IsExact e d w leaf g =
    backtrack-IsExact 64 63 w (fresh e d) (omega (arith, g.depth))
      ((tt, omega arith), tt, omega arith) g.side (omega (arith, g.depth))
put_at-IsExact e d w (node l n u c r) g =
    backtrack-IsExact 64 63 w (node l e.0 e.1 c r) (omega (arith, g.depth))
      ((g.exact.1, omega (arith, g.low)), g.exact.2, omega (arith, g.low)) g.side
      (omega (arith, g.depth))

-- `bt_put` keeps every depth field equal to the height of its subtree, in trees whose height is
-- below the 64 links that the backtracking remembers.
pub bt_put-IsExact :
    (t : Tree) (e : Entry) (d : ℕ) → IsExact t → height t < 64 → IsExact (bt_put t e d).0
unfolding bt_put
bt_put-IsExact t e d h small =
    put_at-IsExact e d (descend e.0 t []).0 (descend e.0 t []).1
      (descend-Going 63 63 e.0 t [] (started t h small))

insert_at-IsExact :
    (t : Tree) (e : Entry) (d : ℕ) (w : Way) (s : Tree)
    → IsExact t
    → Going 63 63 (w, s)
    → IsExact (insert_at t e d (w, s)).0
unfolding insert_at height
insert_at-IsExact t e d w leaf h g =
    backtrack-IsExact 64 63 w (fresh e d) (omega (arith, g.depth))
      ((tt, omega arith), tt, omega arith) g.side (omega (arith, g.depth))
insert_at-IsExact t e d w (node l n u c r) h g = h

-- `bt_insert` keeps every depth field equal to the height of its subtree, in trees whose height is
-- below the 64 links that the backtracking remembers.
pub bt_insert-IsExact :
    (t : Tree) (e : Entry) (d : ℕ) → IsExact t → height t < 64 → IsExact (bt_insert t e d).0
unfolding bt_insert
bt_insert-IsExact t e d h small =
    insert_at-IsExact t e d (descend e.0 t []).0 (descend e.0 t []).1 h
      (descend-Going 63 63 e.0 t [] (started t h small))
