-- ===== src/SearchTree/Lookup.antt =====
-- BSTSearch, BSTSearch2 and InOrderTraverse.
use mathlib.Core.List.{append_assoc, append-nil, perm_append_singleton, perm_middle}
use mathlib.Core.List.Perm
use funcodes.Prelude.{
  ◌≡◌, Perm, Yields, yields, Yields-bind, List, [], ◌∷◌, ◌++◌, some, arith, ℤ, ◌<ℤ◌,
}
use funcodes.SearchTree.{
  TreeNode, null, node, dangling, in_order_helper, in_order_traverse, delete_all_tree,
}
use funcodes.SearchTree.Order.{AllIn, IsSearchTree, values}

abbrev All : (ℤ → Type 0) → List ℤ → Type 0
All P [] = Unit
All P (x ∷ l) = P x × All P l

-- Each entry is below all later ones.
abbrev pub IsAscending : List ℤ → Type 0
IsAscending [] = Unit
IsAscending (x ∷ l) = All (λ y. x <ℤ y) l × IsAscending l

All-append : (P : ℤ → Type 0) (a b : List ℤ) → All P a → All P b → All P (a ++ b)
All-append P [] b ha hb = hb
All-append P (x ∷ a) b ha hb = (ha.0, All-append P a b ha.1 hb)

All-map : (P Q : ℤ → Type 0) → ((x : ℤ) → P x → Q x) → (a : List ℤ) → All P a → All Q a
All-map P Q f [] h = tt
All-map P Q f (x ∷ a) h = (f x h.0, All-map P Q f a h.1)

All-values : (P : ℤ → Type 0) (t : TreeNode) → AllIn P t → All P (values t)
unfolding values
All-values P null h = tt
All-values P (node v l r) h =
    All-append P (values l) _ (All-values P l h.1) (h.0, All-values P r h.2)
All-values P dangling h = tt

IsAscending-join :
    (a b : List ℤ) (v : ℤ)
    → All (λ x. x <ℤ v) a
    → All (λ x. v <ℤ x) b
    → IsAscending a
    → IsAscending b
    → IsAscending (a ++ v ∷ b)
IsAscending-join [] b v ha hb sa sb = (hb, sb)
IsAscending-join (x ∷ a) b v ha hb sa sb = (
  All-append _ a (v ∷ b) sa.0 (ha.0, All-map _ _ (λ y h. omega (arith, ha.0)) b hb),
  IsAscending-join a b v ha.1 hb sa.1 sb,
)

values-IsAscending : (t : TreeNode) → IsSearchTree t → IsAscending (values t)
unfolding values
values-IsAscending null h = tt
values-IsAscending (node v l r) (hl, hr, sl, sr) =
    IsAscending-join (values l) (values r) v (All-values _ l hl) (All-values _ r hr)
      (values-IsAscending l sl) (values-IsAscending r sr)
values-IsAscending dangling h = absurd h

in_order_helper-values :
    (res : List ℤ) (t : TreeNode) → IsSearchTree t → in_order_helper res t ≡ some (res ++ values t)
unfolding in_order_helper values
in_order_helper-values res null h = rw (append-nil res)
in_order_helper-values res (node v l r) (hl, hr, sl, sr) =
    rw (in_order_helper-values res l sl, in_order_helper-values ((res ++ values l) ++ v ∷ []) r sr)
      (simp append_assoc)
in_order_helper-values res dangling h = absurd h

-- On a search tree InOrderTraverse returns the values from left to right, strictly ascending.
pub in_order_traverse-IsAscending :
    (t : TreeNode)
    → IsSearchTree t
    → (in_order_traverse t ≡ some (values t)) × IsAscending (values t)
unfolding in_order_traverse
in_order_traverse-IsAscending t h = (in_order_helper-values [] t h, values-IsAscending t h)

-- On a search tree that nothing was deleted from, deleteAllTree deletes every node once.
delete_all_tree-perm :
    (t : TreeNode) → IsSearchTree t → Yields (λ d. Perm d (values t)) (delete_all_tree t)
unfolding delete_all_tree values
delete_all_tree-perm null h = yields Perm.rfl
delete_all_tree-perm dangling h = absurd h
delete_all_tree-perm (node v l r) (hl, hr, sl, sr) =
    Yields-bind (delete_all_tree-perm l sl) λ before p.
      Yields-bind (delete_all_tree-perm r sr) λ after q. yields (
        Perm.trans (perm_append_singleton v (before ++ after)) (
          Perm.trans (Perm.cons v (Perm.append p q))
            (Perm.symm (perm_middle (values l) (values r)))))
