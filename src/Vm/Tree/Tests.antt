-- ===== src/Vm/Tree/Tests.antt =====
-- Small trees, and the theorems at them.
use rkernel.Base.{◌≡◌, refl, none, some, [], ◌∷◌, arith}
use rkernel.Vm.Tree.{
  Tree, leaf, node, Way, plug, bt_insert, bt_put, bt_remove, bt_lookup, descend, backtrack,
  bt_balance, bt_rotleft, bt_max, bt_depth, bt_calcdepth, calc_node, up, went_right,
}
use rkernel.Vm.Tree.Order.{to_list, IsSearchTree}
use rkernel.Vm.Tree.Depth.{height, IsExact, bt_put-IsExact}
use rkernel.Vm.Tree.RoundTrip.{lookup_value, bt_lookup-put, bt_lookup-remove}

-- Keys 10, 20 and 30.
abbrev three : Tree
three = node (node leaf 10 1 1 leaf) 20 2 2 (node leaf 30 3 1 leaf)

three-IsSearchTree : IsSearchTree three
unfolding to_list
three-IsSearchTree = omega arith

three-IsExact : IsExact three
unfolding height
three-IsExact = omega arith

-- Ascending insertions rotate the tree to the left.
ascending_rotates :
    (bt_insert (bt_insert (bt_insert leaf (10, 1) 0).0 (20, 2) 0).0 (30, 3) 0).0 ≡ three
unfolding bt_insert descend backtrack bt_balance bt_rotleft bt_max bt_depth bt_calcdepth calc_node
    up
ascending_rotates = refl

abbrev right_link : Way
right_link = went_right (node leaf 10 1 1 leaf) 20 2 2 ∷ []

bt_put-IsExact_example : IsExact (bt_put three (40, 4) 9).0
unfolding height
bt_put-IsExact_example = bt_put-IsExact three (40, 4) 9 three-IsExact (omega arith)

bt_lookup-put_example : lookup_value (bt_put three (25, 7) 0).0 25 ≡ some 7
bt_lookup-put_example = bt_lookup-put three (25, 7) 0 25 three-IsSearchTree

bt_lookup-remove_example :
    IsSearchTree (plug right_link (bt_remove (node leaf 30 3 1 leaf)).0)
    × (lookup_value (plug right_link (bt_remove (node leaf 30 3 1 leaf)).0) 30 ≡ none)
unfolding bt_lookup descend
bt_lookup-remove_example = bt_lookup-remove three 30 30 three-IsSearchTree refl
