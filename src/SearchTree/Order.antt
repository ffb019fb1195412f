-- ===== src/SearchTree/Order.antt =====
-- Search trees, and what is in them.
use funcodes.Prelude.{◌≡◌, Bool, false, ◌||◌, List, [], ◌∷◌, ◌++◌, arith, ℤ, ◌<ℤ◌, ◌≤ℤ◌, eq}
use funcodes.SearchTree.{TreeNode, null, node, dangling}

-- Every value satisfies `P`, and no pointer dangles.
abbrev pub AllIn : (ℤ → Type 0) → TreeNode → Type 0
AllIn P null = Unit
AllIn P (node v l r) = P v × AllIn P l × AllIn P r
AllIn P dangling = ⊥

abbrev pub IsSearchTree : TreeNode → Type 0
IsSearchTree null = Unit
IsSearchTree (node v l r) =
    AllIn (λ x. x <ℤ v) l × AllIn (λ x. v <ℤ x) r × IsSearchTree l × IsSearchTree r
IsSearchTree dangling = ⊥

-- `x` is the value of some node.
unfoldable pub occurs : ℤ → TreeNode → Bool
occurs x null = false
occurs x (node v l r) = eq x v || (occurs x l || occurs x r)
occurs x dangling = false

-- The values from left to right.
unfoldable pub values : TreeNode → List ℤ
values null = []
values (node v l r) = values l ++ v ∷ values r
values dangling = []

pub occurs_below : (x v : ℤ) (t : TreeNode) → AllIn (λ y. y <ℤ v) t → v ≤ℤ x → occurs x t ≡ false
unfolding occurs
occurs_below x v null h l = ground arith
occurs_below x v (node w a b) h l =
    ground (arith, occurs_below x v a h.1 l, occurs_below x v b h.2 l)
occurs_below x v dangling h l = ground arith

pub occurs_above : (x v : ℤ) (t : TreeNode) → AllIn (λ y. v <ℤ y) t → x ≤ℤ v → occurs x t ≡ false
unfolding occurs
occurs_above x v null h l = ground arith
occurs_above x v (node w a b) h l =
    ground (arith, occurs_above x v a h.1 l, occurs_above x v b h.2 l)
occurs_above x v dangling h l = ground arith

pub AllIn-below : (v w : ℤ) (t : TreeNode) → v ≤ℤ w → AllIn (λ y. y <ℤ v) t → AllIn (λ y. y <ℤ w) t
AllIn-below v w null l h = tt
AllIn-below v w (node u a b) l h =
    (omega (arith, h.0), AllIn-below v w a l h.1, AllIn-below v w b l h.2)
AllIn-below v w dangling l h = h

pub AllIn-above : (v w : ℤ) (t : TreeNode) → v ≤ℤ w → AllIn (λ y. w <ℤ y) t → AllIn (λ y. v <ℤ y) t
AllIn-above v w null l h = tt
AllIn-above v w (node u a b) l h =
    (omega (arith, h.0), AllIn-above v w a l h.1, AllIn-above v w b l h.2)
AllIn-above v w dangling l h = h
