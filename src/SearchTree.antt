-- ===== src/SearchTree.antt =====
-- c++/algos/BST.cpp: a binary search tree of `int`s without repeats. A pointer to a node is the
-- tree below it. `dangling` is a pointer to a node that was deleted: it is not NULL, and a
-- call that reads through it fails. No tree of the program shares a node, so a change through a
-- pointer is a change of the one place that holds it.
pub mod Order
pub mod Lookup
pub mod Insertion
pub mod Deletion
mod Tests
use funcodes.Prelude.{
  Bool, true, false, List, [], ◌∷◌, ◌++◌, Option, none, some, ◌>>=◌, if◌then◌else◌, ℤ, lt, eq,
}

pub data TreeNode : Type 0 where
  null : TreeNode
  node : ℤ → TreeNode → TreeNode → TreeNode
  dangling : TreeNode

-- A node that the `while` of BSTInsert passes, with the child that it does not enter.
pub data Passed : Type 0 where
  left_of : ℤ → TreeNode → Passed
  right_of : ℤ → TreeNode → Passed

-- The tree whose pointer `x` stands below the nodes passed, the last of them first.
unfoldable pub rebuild : TreeNode → List Passed → TreeNode
rebuild x [] = x
rebuild x (left_of v r ∷ up) = rebuild (node v x r) up
rebuild x (right_of v l ∷ up) = rebuild (node v l x) up

-- The `while` of BSTInsert from `x` on; at NULL the new node is hung below the last node passed.
unfoldable pub insert_walk : ℤ → TreeNode → List Passed → Option (TreeNode × Bool)
insert_walk val null up = some (rebuild (node val null null) up, true)
insert_walk val (node v l r) up =
    let below = insert_walk val l (left_of v r ∷ up) in
    let above = insert_walk val r (right_of v l ∷ up) in
    if eq val v then some (rebuild (node v l r) up, false) else if lt val v then below else above
insert_walk val dangling up = none

-- BSTInsert: the root afterwards and the result.
pub bst_insert : TreeNode → ℤ → Option (TreeNode × Bool)
bst_insert root val = insert_walk val root []

unfoldable pub bst_insert2 : TreeNode → ℤ → Option (TreeNode × Bool)
bst_insert2 null val = some (node val null null, true)
bst_insert2 (node v l r) val =
    let below = bst_insert2 l val >>= λ (t, done). some (node v t r, done) in
    let above = bst_insert2 r val >>= λ (t, done). some (node v l t, done) in
    if eq val v then some (node v l r, false) else if lt val v then below else above
bst_insert2 dangling val = none

unfoldable pub bst_create : TreeNode → List ℤ → Option TreeNode
bst_create root [] = some root
bst_create root (val ∷ a) = bst_insert2 root val >>= λ (t, done). bst_create t a

-- `helper`, with `res` before and after.
unfoldable pub in_order_helper : List ℤ → TreeNode → Option (List ℤ)
in_order_helper res null = some res
in_order_helper res (node v l r) =
    in_order_helper res l >>= λ done. in_order_helper (done ++ v ∷ []) r
in_order_helper res dangling = none

pub in_order_traverse : TreeNode → Option (List ℤ)
in_order_traverse root = in_order_helper [] root

-- The `while` of BSTSearch.
unfoldable pub bst_search : TreeNode → ℤ → Option Bool
bst_search null val = some false
bst_search (node v l r) val =
    let below = bst_search l val in
    let above = bst_search r val in
    if eq v val then some true else if lt val v then below else above
bst_search dangling val = none

unfoldable pub bst_search2 : TreeNode → ℤ → Option Bool
bst_search2 null val = some false
bst_search2 (node v l r) val =
    let below = bst_search2 l val in
    let above = bst_search2 r val in
    if eq v val then some true else if lt val v then below else above
bst_search2 dangling val = none

-- The `while (l->right != NULL)` of deleteHelper: the value found, and what the pointer to `l` holds
-- once the last node of the chain is cut out of it.
unfoldable pub cut_last : TreeNode → Option (ℤ × TreeNode)
cut_last null = none
cut_last (node v l null) = some (v, l)
cut_last (node v l r) = cut_last r >>= λ (m, t). some (m, node v l t)
cut_last dangling = none

-- deleteHelper: what the caller's pointer holds afterwards. With a child missing the node is deleted
-- and the caller's pointer stays as it was: only the local `node` is moved on.
unfoldable pub delete_helper : TreeNode → Option TreeNode
delete_helper null = none
delete_helper dangling = none
delete_helper (node v null r) = some dangling
delete_helper (node v l null) = some dangling
delete_helper (node v l r) = cut_last l >>= λ (m, t). some (node m t r)

unfoldable pub bst_delete : TreeNode → ℤ → Option (TreeNode × Bool)
bst_delete null val = some (null, false)
bst_delete (node v l r) val =
    let below = bst_delete l val >>= λ (t, done). some (node v t r, done) in
    let above = bst_delete r val >>= λ (t, done). some (node v l t, done) in
    let here = delete_helper (node v l r) >>= λ t. some (t, true) in
    if lt val v then below else if lt v val then above else here
bst_delete dangling val = none

-- deleteAllTree: the values of the nodes deleted, in turn.
unfoldable pub delete_all_tree : TreeNode → Option (List ℤ)
delete_all_tree null = some []
delete_all_tree (node v l r) = do
  before ← delete_all_tree l
  after ← delete_all_tree r
  some (before ++ after ++ v ∷ [])
delete_all_tree dangling = none
