-- ===== src/LruCache/Tail.antt =====
-- PutTail on a list of nodes: a new node, and one that the list has.
use mathlib.Core.List.{append_assoc}
use funcodes.Prelude.{
  ℕ, ◌≡◌, refl, ap, ◌∙◌, true, false, List, [], ◌∷◌, ◌++◌, some, arith, ◌==◌, Yields, yields,
}
use funcodes.Links.{
  Links, null, write, get_pred, get_next, set_pred, set_next, has, Distinct, Distinct-insert,
  Distinct-remove, Chain, has-append, Chain-has, Chain-frame, Chain-pred, Chain-next, Chain-unlink,
  Chain-insert, relink, insert_between,
}
use funcodes.LruCache.{head, tail, unlink, link_tail, relink_tail}

module _ (l : Links) (node : ℕ) where
  link_tail-eq :
      (l.live node ≡ true)
      → (l.live tail ≡ true)
      → (l.live (l.pred tail) ≡ true)
      → (node == tail) ≡ false
      → link_tail l node
        ≡ some (record l {
          pred = write (write l.pred node (l.pred tail)) tail node;
          next = write (write l.next node tail) (l.pred tail) node;
        })
  unfolding link_tail get_pred get_next set_pred set_next
  link_tail-eq u v w e = ground arith

  unlink-eq :
      (l.live node ≡ true)
      → (l.live (l.pred node) ≡ true)
      → (l.live (l.next node) ≡ true)
      → (l.pred node == node) ≡ false
      → unlink l node ≡ some (relink l (l.pred node) (l.next node))
  unfolding unlink get_pred get_next set_pred set_next
  unlink-eq u v w e = ground arith

  relink_tail-unlinked :
      {l' : Links}
      → (l.live node ≡ true)
      → (l.pred node == null) ≡ false
      → unlink l node ≡ some l'
      → l'.live tail ≡ true
      → (node == l'.pred tail) ≡ false
      → relink_tail l node ≡ link_tail l' node
  unfolding relink_tail get_pred
  relink_tail-unlinked live linked e live' other = rw (live, linked, e, live', other) refl

  pub relink_tail-new :
      (l.live node ≡ true)
      → (l.pred node == null) ≡ true
      → l.live tail ≡ true
      → (node == l.pred tail) ≡ false
      → relink_tail l node ≡ link_tail l node
  unfolding relink_tail get_pred
  relink_tail-new live new live' other = rw (live, new, live', other) refl

  pub link_tail-Chain :
      (order : List ℕ)
      → Chain l head (order ++ tail ∷ []) tail
      → Distinct (head ∷ order ++ tail ∷ [])
      → has node (head ∷ order ++ tail ∷ []) ≡ false
      → l.live node ≡ true
      → Yields
          (λ l'. Chain l' head (order ++ node ∷ tail ∷ []) tail × (l'.live ≡ l.live))
          (link_tail l node)
  link_tail-Chain order c d out live =
      let back = Chain-pred l head order tail [] tail c in
      let all = Chain-has l head (order ++ tail ∷ []) tail c in
      let h = has-append node order (tail ∷ []) in
      let m = has-append (l.pred tail) order (tail ∷ []) in
      let live_last : l.live (l.pred tail) ≡ true = all (l.pred tail) (ground arith) in
      let live_tail : l.live tail ≡ true =
        all tail (ground (arith, has-append tail order (tail ∷ []))) in
      rw (link_tail-eq live live_tail live_last (ground arith)) (
        yields (
          Chain-frame (insert_between l (l.pred tail) node tail) _ head (order ++ node ∷ tail ∷ [])
              tail (Chain-insert l head order node tail [] tail c d out live)
              (Distinct-insert (head ∷ order) (tail ∷ []) node d out) (λ k _. refl)
              (λ k _ _. ground arith) (λ k _. refl),
          refl,
        ))

-- A node of the list, with the others around it
pub relink_tail-old :
    (l : Links) (node : ℕ) (xs : List ℕ) (y : ℕ) (ys order : List ℕ)
    → ys ++ tail ∷ [] ≡ y ∷ order
    → l.live 0 ≡ false
    → Chain l head (xs ++ node ∷ y ∷ order) tail
    → Distinct (head ∷ xs ++ node ∷ y ∷ order)
    → Yields
        (λ l'. Chain l' head ((xs ++ ys) ++ node ∷ tail ∷ []) tail × (l'.live ≡ l.live))
        (relink_tail l node)
unfolding relink_tail get_pred
relink_tail-old l node xs y ys order e dead c d =
    let back = Chain-pred l head xs node (y ∷ order) tail c in
    let next = Chain-next l head xs node y order tail c in
    let all = Chain-has l head (xs ++ node ∷ y ∷ order) tail c in
    let apart = Distinct-remove (head ∷ xs) (y ∷ order) node d in
    let h = has-append node xs (y ∷ order) in
    let m = has-append (l.pred node) xs (node ∷ y ∷ order) in
    let n = has-append node xs (node ∷ y ∷ order) in
    let o = has-append y xs (node ∷ y ∷ order) in
    let live : l.live node ≡ true = all node (ground arith) in
    let live_pred : l.live (l.pred node) ≡ true = all (l.pred node) (ground arith) in
    let live_next : l.live (l.next node) ≡ true = rw next (all y (ground arith)) in
    let split : (xs ++ ys) ++ tail ∷ [] ≡ xs ++ y ∷ order =
      append_assoc xs ys (tail ∷ []) ∙ ap (λ (t : List ℕ). xs ++ t) e in
    let c' : Chain (relink l (l.pred node) (l.next node)) head ((xs ++ ys) ++ tail ∷ []) tail =
      rw (split, next) (Chain-unlink l head xs node y order tail c d) in
    let d' : Distinct (head ∷ (xs ++ ys) ++ tail ∷ []) = rw split apart.0 in
    let back' = Chain-pred (relink l (l.pred node) (l.next node)) head (xs ++ ys) tail [] tail c' in
    let live_tail : l.live tail ≡ true =
      Chain-has (relink l (l.pred node) (l.next node)) head ((xs ++ ys) ++ tail ∷ []) tail c' tail
        (ground (arith, has-append tail (xs ++ ys) (tail ∷ []))) in
    let r =
      link_tail-Chain (relink l (l.pred node) (l.next node)) node (xs ++ ys) c' d'
        (rw split apart.1) live in
    rw
      (relink_tail-unlinked l node live (ground arith)
        (unlink-eq l node live live_pred live_next (ground arith)) live_tail
        (ground (arith, has-append node (xs ++ ys) (tail ∷ []))))
      r
