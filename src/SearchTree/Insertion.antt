-- ===== src/SearchTree/Insertion.antt =====
-- BSTInsert, BSTInsert2 and BSTCreate.
use funcodes.Prelude.{
  ◌≡◌, ◌∙◌, refl, Bool, false, not, ◌||◌, List, [], ◌∷◌, Option, none, some, ◌>>=◌, arith, ℤ, ◌<ℤ◌,
  eq, lt, Yields, yields, Yields-bind, Yields-map, Yields-if, Bool-cases, inl, inr,
}
use funcodes.SearchTree.{
  TreeNode, null, node, dangling, Passed, left_of, right_of, rebuild, insert_walk, bst_insert,
  bst_insert2, bst_create,
}
use funcodes.SearchTree.Order.{AllIn, IsSearchTree, occurs, occurs_below, occurs_above}

abbrev hung : List Passed → TreeNode × Bool → Option (TreeNode × Bool)
hung up (t, done) = some (rebuild t up, done)

insert_walk-insert2 :
    (val : ℤ) (x : TreeNode) (up : List Passed)
    → insert_walk val x up ≡ (bst_insert2 x val >>= hung up)
unfolding insert_walk bst_insert2 rebuild
insert_walk-insert2 val null up = refl
insert_walk-insert2 val dangling up = refl
insert_walk-insert2 val (node v l r) up = elim (Bool-cases (eq val v)) [
  | inl same ↦ rw same
  | inr other ↦ elim (Bool-cases (lt val v)) [
    | inl lower ↦
        rw (other, lower) (insert_walk-insert2 val l (left_of v r ∷ up) ∙ below (bst_insert2 l val))
    | inr higher ↦
        rw (other, higher)
          (insert_walk-insert2 val r (right_of v l ∷ up) ∙ above (bst_insert2 r val))
  ]
]
  where
    below :
        (m : Option (TreeNode × Bool))
        → (m >>= hung (left_of v r ∷ up))
          ≡ ((m >>= λ (t, done). some (node v t r, done)) >>= hung up)
    below none = refl
    below (some m) = refl

    above :
        (m : Option (TreeNode × Bool))
        → (m >>= hung (right_of v l ∷ up))
          ≡ ((m >>= λ (t, done). some (node v l t, done)) >>= hung up)
    above none = refl
    above (some m) = refl

-- BSTInsert and BSTInsert2 leave the same tree and return the same on every tree, whether it is a
-- search tree or not.
pub bst_insert-eq : (t : TreeNode) (val : ℤ) → bst_insert t val ≡ bst_insert2 t val
unfolding bst_insert rebuild
bst_insert-eq t val = insert_walk-insert2 val t [] ∙ id (bst_insert2 t val)
  where
    id : (m : Option (TreeNode × Bool)) → (m >>= hung []) ≡ m
    id none = refl
    id (some m) = refl

-- What an insertion of `val` into `t` owes.
pub record Inserted (val : ℤ) (t : TreeNode) (s : TreeNode × Bool) : Type 0 where
  pub search : IsSearchTree s.0
  pub done : s.1 ≡ not (occurs val t)
  pub holds : (x : ℤ) → occurs x s.0 ≡ (eq x val || occurs x t)
  pub below : (v : ℤ) → AllIn (λ y. y <ℤ v) t → val <ℤ v → AllIn (λ y. y <ℤ v) s.0
  pub above : (v : ℤ) → AllIn (λ y. v <ℤ y) t → v <ℤ val → AllIn (λ y. v <ℤ y) s.0

-- BSTInsert2 on a search tree returns true exactly when the value was not there, and leaves a
-- search tree with the values of before and the new one.
pub bst_insert2-Inserted :
    (t : TreeNode) (val : ℤ) → IsSearchTree t → Yields (Inserted val t) (bst_insert2 t val)
unfolding bst_insert2 occurs
bst_insert2-Inserted null val h = yields (record {
  search = (tt, tt, tt, tt);
  done = refl;
  holds = λ x. ground arith;
  below = λ v a l. (l, tt, tt);
  above = λ v a l. (l, tt, tt);
})
bst_insert2-Inserted dangling val h = absurd h
bst_insert2-Inserted (node v l r) val (hl, hr, sl, sr) =
    Yields-if (eq val v)
      (λ e. yields (record {
        search = (hl, hr, sl, sr);
        done = ground arith;
        holds = λ x. ground arith;
        below = λ w a m. a;
        above = λ w a m. a;
      }))
      (λ e.
        Yields-if (lt val v)
          (λ m. Yields-bind (bst_insert2-Inserted l val sl) λ s i. yields (record {
            search = (i.below v hl (ground arith), hr, i.search, sr);
            done = ground (arith, i.done, occurs_above val v r hr);
            holds = λ x. ground (arith, i.holds x);
            below = λ w a n. (a.0, i.below w a.1 n, a.2);
            above = λ w a n. (a.0, i.above w a.1 n, a.2);
          }))
          (λ m. Yields-bind (bst_insert2-Inserted r val sr) λ s i. yields (record {
            search = (hl, i.above v hr (ground arith), sl, i.search);
            done = ground (arith, i.done, occurs_below val v l hl);
            holds = λ x. ground (arith, i.holds x);
            below = λ w a n. (a.0, a.1, i.below w a.2 n);
            above = λ w a n. (a.0, a.1, i.above w a.2 n);
          })))

-- `x` is in the list.
unfoldable pub contains : ℤ → List ℤ → Bool
contains x [] = false
contains x (y ∷ a) = eq x y || contains x a

-- What BSTCreate owes.
pub record Created (t : TreeNode) (a : List ℤ) (u : TreeNode) : Type 0 where
  pub search : IsSearchTree u
  pub holds : (x : ℤ) → occurs x u ≡ (contains x a || occurs x t)

-- BSTCreate on a search tree leaves a search tree that holds the values of before and those of the
-- vector, and no other.
bst_create-Created :
    (t : TreeNode) (a : List ℤ) → IsSearchTree t → Yields (Created t a) (bst_create t a)
unfolding bst_create contains
bst_create-Created t [] h = yields (record { search = h; holds = λ x. refl })
bst_create-Created t (val ∷ a) h = Yields-bind (bst_insert2-Inserted t val h) λ s i.
    Yields-map (bst_create-Created s.0 a i.search)
      λ u c. record { search = c.search; holds = λ x. ground (arith, c.holds x, i.holds x) }
