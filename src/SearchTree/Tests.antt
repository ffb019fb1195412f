-- ===== src/SearchTree/Tests.antt =====
-- Runs of BST.cpp, and each theorem about it at a concrete tree.
use funcodes.Prelude.{◌≡◌, refl, [], ◌∷◌, some, arith, pos, negsuc, Yields}
use funcodes.SearchTree.{
  TreeNode, null, node, bst_insert, bst_insert2, bst_create, in_order_traverse, bst_delete,
}
use funcodes.SearchTree.Order.{IsSearchTree, occurs, values}
use funcodes.SearchTree.Lookup.{IsAscending, in_order_traverse-IsAscending}
use funcodes.SearchTree.Insertion.{Inserted, bst_insert-eq, bst_insert2-Inserted}
use funcodes.SearchTree.Deletion.{IsBroken, bst_delete-IsBroken, has_two_children}

-- The tree that `main` creates.
abbrev sample : TreeNode
sample =
    node (pos 3) (node (pos 1) (node (pos 0) null null) (node (pos 2) null null))
      (node (pos 5) null (node (pos 9) null null))

sample-IsSearchTree : IsSearchTree sample
sample-IsSearchTree = omega arith

create_sample : bst_create null (pos 3 ∷ pos 1 ∷ pos 5 ∷ pos 0 ∷ pos 2 ∷ pos 9 ∷ []) ≡ some sample
unfolding bst_create bst_insert2
create_sample = refl

in_order_traverse-IsAscending_example :
    (in_order_traverse sample ≡ some (values sample)) × IsAscending (values sample)
in_order_traverse-IsAscending_example = in_order_traverse-IsAscending sample sample-IsSearchTree

bst_insert-eq_example : bst_insert sample (negsuc 4) ≡ bst_insert2 sample (negsuc 4)
bst_insert-eq_example = bst_insert-eq sample (negsuc 4)

bst_insert2-Inserted_example : Yields (Inserted (pos 4) sample) (bst_insert2 sample (pos 4))
bst_insert2-Inserted_example = bst_insert2-Inserted sample (pos 4) sample-IsSearchTree

bst_delete-IsBroken_example : Yields IsBroken (bst_delete sample (pos 5))
unfolding occurs has_two_children
bst_delete-IsBroken_example = bst_delete-IsBroken sample (pos 5) sample-IsSearchTree refl refl
