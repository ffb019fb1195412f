-- ===== src/SearchTree/Deletion.antt =====
-- BSTDelete, and deleteAllTree after it.
use funcodes.Prelude.{
  ◌≡◌, refl, Bool, false, true, not, ◌||◌, ◌&&◌, none, some, arith, ℤ, ◌<ℤ◌, eq, lt, if◌then◌else◌,
  Yields, yields, Yields-bind, Yields-if, Option-cases, inl, inr,
}
use funcodes.SearchTree.{TreeNode, null, node, dangling, delete_helper, bst_delete, delete_all_tree}
use funcodes.SearchTree.Order.{AllIn, IsSearchTree, occurs, occurs_below, occurs_above}

-- What cutting the last node out of `t` owes: its value, the greatest, and the rest.
record Cut (t : TreeNode) (s : ℤ × TreeNode) : Type 0 where
  search : IsSearchTree s.1
  greatest : AllIn (λ y. y <ℤ s.0) s.1
  there : occurs s.0 t ≡ true
  holds : (x : ℤ) → occurs x s.1 ≡ (occurs x t && not (eq x s.0))
  below : (v : ℤ) → AllIn (λ y. y <ℤ v) t → (s.0 <ℤ v) × AllIn (λ y. y <ℤ v) s.1
  above : (v : ℤ) → AllIn (λ y. v <ℤ y) t → (v <ℤ s.0) × AllIn (λ y. v <ℤ y) s.1

unfoldable pub is_null : TreeNode → Bool
is_null null = true
is_null t = false

-- The node with value `x` has two children.
unfoldable pub has_two_children : ℤ → TreeNode → Bool
unfolding is_null
has_two_children x null = false
has_two_children x (node v l r) =
    if eq x v
    then not (is_null l) && not (is_null r)
    else has_two_children x l || has_two_children x r
has_two_children x dangling = false

-- What the removal of `val` from `t` owes.
pub record Removed (val : ℤ) (t : TreeNode) (s : TreeNode × Bool) : Type 0 where
  pub search : IsSearchTree s.0
  pub done : s.1 ≡ true
  pub holds : (x : ℤ) → occurs x s.0 ≡ (occurs x t && not (eq x val))
  pub below : (v : ℤ) → AllIn (λ y. y <ℤ v) t → AllIn (λ y. y <ℤ v) s.0
  pub above : (v : ℤ) → AllIn (λ y. v <ℤ y) t → AllIn (λ y. v <ℤ y) s.0

-- BSTDelete of a value that is not in the search tree returns false and changes nothing.
bst_delete_absent :
    (t : TreeNode) (val : ℤ)
    → IsSearchTree t
    → occurs val t ≡ false
    → bst_delete t val ≡ some (t, false)
unfolding bst_delete occurs
bst_delete_absent null val h a = refl
bst_delete_absent dangling val h a = absurd h
bst_delete_absent (node v l r) val (hl, hr, sl, sr) a =
    ground (arith, bst_delete_absent l val sl, bst_delete_absent r val sr)

-- The tree has a pointer to a deleted node, which deleteAllTree would delete once more.
abbrev pub IsBroken : TreeNode × Bool → Type 0
IsBroken s = (s.1 ≡ true) × (delete_all_tree s.0 ≡ none)

delete_all_left :
    (v : ℤ) (l r : TreeNode) → delete_all_tree l ≡ none → delete_all_tree (node v l r) ≡ none
unfolding delete_all_tree
delete_all_left v l r h = rw h

delete_all_right :
    (v : ℤ) (l r : TreeNode) → delete_all_tree r ≡ none → delete_all_tree (node v l r) ≡ none
unfolding delete_all_tree
delete_all_right v l r h = elim (Option-cases (delete_all_tree l)) [
  | inl e ↦ rw e
  | inr s ↦ rw (s.1, h)
]

delete_helper-IsBroken :
    (v : ℤ) (l r : TreeNode)
    → (not (is_null l) && not (is_null r)) ≡ false
    → Yields (λ t. delete_all_tree t ≡ none) (delete_helper (node v l r))
unfolding delete_helper is_null delete_all_tree
delete_helper-IsBroken v null r c = yields refl
delete_helper-IsBroken v (node w a b) null c = yields refl
delete_helper-IsBroken v dangling null c = yields refl
delete_helper-IsBroken v l r c = absurd (ground arith)

-- BSTDelete on a search tree, of a value whose node lacks a child, returns true and leaves a pointer
-- to the deleted node in the tree: deleteAllTree then fails.
pub bst_delete-IsBroken :
    (t : TreeNode) (val : ℤ)
    → IsSearchTree t
    → occurs val t ≡ true
    → has_two_children val t ≡ false
    → Yields IsBroken (bst_delete t val)
unfolding bst_delete has_two_children occurs
bst_delete-IsBroken null val h o c = absurd (ground arith)
bst_delete-IsBroken dangling val h o c = absurd h
bst_delete-IsBroken (node v l r) val (hl, hr, sl, sr) o c =
    Yields-if (lt val v)
      (λ e.
        Yields-bind
          (bst_delete-IsBroken l val sl (ground (arith, occurs_above val v r hr)) (ground arith))
          λ s i. yields (i.0, delete_all_left v s.0 r i.1))
      (λ e.
        Yields-if (lt v val)
          (λ m.
            Yields-bind
              (bst_delete-IsBroken r val sr (ground (arith, occurs_below val v l hl))
                (ground arith))
              λ s i. yields (i.0, delete_all_right v l s.0 i.1))
          (λ m. Yields-bind (delete_helper-IsBroken v l r (ground arith)) λ t i. yields (refl, i)))
