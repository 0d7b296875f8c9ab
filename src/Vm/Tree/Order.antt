-- ===== src/Vm/Tree/Order.antt =====
-- The entries of a tree in key order, and the search order as a property of that list.
use rkernel.Base.{
  ℕ, zero, suc, ◌<◌, ◌≡◌, refl, ap, ◌∙◌, List, [], ◌∷◌, ◌++◌, append_assoc, append-nil, arith, All,
  All-append, All-of_append, All-mono,
}
use rkernel.Vm.Tree.{
  Tree, leaf, node, Entry, Turn, went_left, went_right, Way, calc_node, bt_rotleft, bt_rotright,
  bt_balance, up, plug, backtrack,
}

unfoldable pub to_list : Tree → List Entry
to_list leaf = []
to_list (node l k v d r) = to_list l ++ ((k, v) ∷ to_list r)

abbrev pub Below : ℕ → List Entry → Type 0
Below k = All (λ (e : Entry). e.0 < k)

abbrev pub Above : ℕ → List Entry → Type 0
Above k = All (λ (e : Entry). k < e.0)

-- Keys strictly increase.
abbrev pub Sorted : List Entry → Type 0
Sorted [] = Unit
Sorted (e ∷ xs) = Above e.0 xs × Sorted xs

-- The search order of the tree.
abbrev pub IsSearchTree : Tree → Type 0
IsSearchTree t = Sorted (to_list t)

pub Below-trans : (k n : ℕ) (xs : List Entry) → k < n → Below k xs → Below n xs
Below-trans k n xs h =
    All-mono (λ (e : Entry). e.0 < k) (λ (e : Entry). e.0 < n) (λ e p. omega arith) xs

pub Above-trans : (k n : ℕ) (xs : List Entry) → k < n → Above n xs → Above k xs
Above-trans k n xs h =
    All-mono (λ (e : Entry). n < e.0) (λ (e : Entry). k < e.0) (λ e p. omega arith) xs

-- A sorted list, split at one of its entries.
pub record Split (xs : List Entry) (k : ℕ) (ys : List Entry) : Type 0 where
  pub below : Below k xs
  pub above : Above k ys
  pub front : Sorted xs
  pub back : Sorted ys

pub Sorted-Split :
    (xs : List Entry) (e : Entry) (ys : List Entry) → Sorted (xs ++ (e ∷ ys)) → Split xs e.0 ys
Sorted-Split [] e ys h = record { below = tt; above = h.0; front = tt; back = h.1 }
Sorted-Split (x ∷ xs) e ys h =
    let rest = Sorted-Split xs e ys h.1 in
    let high = All-of_append (λ (a : Entry). x.0 < a.0) xs (e ∷ ys) h.0 in
    record {
      below = (high.1.0, rest.below);
      above = rest.above;
      front = (high.0, rest.front);
      back = rest.back;
    }

pub Sorted-join :
    (xs : List Entry) (e : Entry) (ys : List Entry) → Split xs e.0 ys → Sorted (xs ++ (e ∷ ys))
Sorted-join [] e ys s = (s.above, s.back)
Sorted-join (x ∷ xs) e ys s = (
  All-append (λ (a : Entry). x.0 < a.0) xs (e ∷ ys) s.front.0
      (s.below.0, Above-trans x.0 e.0 ys s.below.0 s.above),
  Sorted-join xs e ys
      (record { below = s.below.1; above = s.above; front = s.front.1; back = s.back }),
)

-- The entries to the left and to the right of a link.
unfoldable pub left_of : Way → List Entry
left_of [] = []
left_of (went_left k v d r ∷ w) = left_of w
left_of (went_right l k v d ∷ w) = left_of w ++ (to_list l ++ ((k, v) ∷ []))

unfoldable pub right_of : Way → List Entry
right_of [] = []
right_of (went_left k v d r ∷ w) = ((k, v) ∷ to_list r) ++ right_of w
right_of (went_right l k v d ∷ w) = right_of w

to_list-up :
    (t : Turn) (w : Way) (s : Tree)
    → left_of w ++ (to_list (up t s) ++ right_of w)
      ≡ left_of (t ∷ w) ++ (to_list s ++ right_of (t ∷ w))
unfolding to_list up left_of right_of
to_list-up (went_left k v d r) w s = simp append_assoc
to_list-up (went_right l k v d) w s = simp append_assoc

pub to_list-plug :
    (w : Way) (s : Tree) → to_list (plug w s) ≡ left_of w ++ (to_list s ++ right_of w)
unfolding plug
to_list-plug [] s = unfold left_of right_of in rw append-nil
to_list-plug (t ∷ w) s = to_list-plug w (up t s) ∙ to_list-up t w s

to_list-rotleft : (t : Tree) → to_list (bt_rotleft t) ≡ to_list t
unfolding to_list bt_rotleft calc_node
to_list-rotleft leaf = refl
to_list-rotleft (node l k v d leaf) = refl
to_list-rotleft (node l k v d (node xl xk xv xd xr)) = simp append_assoc

to_list-rotright : (t : Tree) → to_list (bt_rotright t) ≡ to_list t
unfolding to_list bt_rotright calc_node
to_list-rotright leaf = refl
to_list-rotright (node leaf k v d r) = refl
to_list-rotright (node (node xl xk xv xd xr) k v d r) = simp append_assoc

-- Balancing moves no entry.
pub to_list-balance : (t : Tree) → to_list (bt_balance t) ≡ to_list t
unfolding bt_balance
to_list-balance leaf = refl
to_list-balance (node l k v d r) =
    ground (arith, to_list-rotright (node l k v d r), to_list-rotleft (node l k v d r), calculated)
  where
    calculated : to_list (calc_node l k v r) ≡ to_list (node l k v d r)
    calculated = unfold to_list calc_node in refl

pub to_list-backtrack :
    (n : ℕ) (w : Way) (s : Tree)
    → to_list (backtrack n w s) ≡ left_of w ++ (to_list s ++ right_of w)
unfolding backtrack
to_list-backtrack zero w s = to_list-plug w s
to_list-backtrack (suc n) [] s = unfold left_of right_of in (to_list-balance s ∙ rw append-nil)
to_list-backtrack (suc n) (t ∷ w) s =
    to_list-backtrack n w (up t (bt_balance s))
    ∙ to_list-up t w (bt_balance s)
    ∙ ap (λ xs. left_of (t ∷ w) ++ (xs ++ right_of (t ∷ w))) (to_list-balance s)
