-- ===== src/HashMap/Ends.antt =====
-- The lists of c++/utils/cache/concurrent_hashmap.h: the nodes behind the sentinel, the last of which
-- is `end`.
use mathlib.Core.List.{append-nil}
use funcodes.Prelude.{
  ℕ, ◌≡◌, refl, true, false, List, [], ◌∷◌, ◌++◌, some, arith, ◌==◌, Yields, yields, Yields-bind,
  Yields-some, ◌>>=◌,
}
use funcodes.Links.{
  Links, null, write, get_pred, get_next, set_pred, set_next, has, Distinct, Distinct-snoc,
  Distinct-prefix, Distinct-remove, Distinct-apart, Distinct-remove, Chain, has-append, Chain-live,
  Chain-has, Chain-last, Chain-frame, Chain-pred, Chain-next, Chain-unlink, Chain-suffix,
  Chain-snoc, relink, SameOutside,
}
use funcodes.HashMap.{Bucket, push_back, drop_last, drop_inner, pop_head, detach_node}

pub record Ends (l : Links) (b : Bucket) (xs : List ℕ) : Type 0 where
  pub chain : Chain l b.begin xs b.end
  pub stops : l.next b.end ≡ null
  pub distinct : Distinct (b.begin ∷ xs)

pub Ends-SameOutside :
    (l l' : Links) (b : Bucket) (xs nodes : List ℕ)
    → Ends l b xs
    → SameOutside nodes l l'
    → ((k : ℕ) → has k (b.begin ∷ xs) ≡ true → has k nodes ≡ false)
    → Ends l' b xs
Ends-SameOutside l l' b xs nodes ends same apart = record {
  chain =
      Chain-frame l l' b.begin xs b.end ends.chain ends.distinct (λ k h. rw same.live refl)
        (λ k h other. same.next k (apart k h)) (λ k h. same.pred k (apart k (ground arith)));
  stops = rw (same.next b.end (apart b.end (Chain-last l b.begin xs b.end ends.chain))) ends.stops;
  distinct = ends.distinct;
}

Chain-init :
    (l : Links) (a : ℕ) (xs : List ℕ) (x b : ℕ)
    → Chain l a (xs ++ x ∷ []) b
    → (x ≡ b) × Chain l a xs (l.pred b)
Chain-init l a [] x b (u, e, f, (v, g)) = (g, (u, ground arith))
Chain-init l a (z ∷ xs) x b (u, e, f, c) = let (g, d) = Chain-init l z xs x b c in (g, (u, e, f, d))

Chain-suffix2 :
    (l : Links) (a : ℕ) (xs : List ℕ) (x y : ℕ) (ys : List ℕ) (b : ℕ)
    → Chain l a (xs ++ x ∷ y ∷ ys) b
    → Chain l y ys b
Chain-suffix2 l a xs x y ys b c = (Chain-suffix l a xs x (y ∷ ys) b c).3

module _ (l : Links) (b : Bucket) where
  -- The links and the list after a node has been put at the end
  abbrev pub appended : ℕ → Links
  appended node = record (relink l b.end node) { next = write (relink l b.end node).next node null }

  pub appended-Ends :
      (xs : List ℕ) (node : ℕ)
      → Ends l b xs
      → has node (b.begin ∷ xs) ≡ false
      → l.live node ≡ true
      → Ends (appended node) (record b { end = node }) (xs ++ node ∷ [])
        × SameOutside (node ∷ b.begin ∷ xs) l (appended node)
  appended-Ends xs node ends out live =
      let last = Chain-last l b.begin xs b.end ends.chain in
      let d : Distinct (b.begin ∷ xs ++ node ∷ []) =
        Distinct-snoc (b.begin ∷ xs) node ends.distinct out in
      (
        record {
          chain =
              Chain-frame (relink l b.end node) (appended node) b.begin (xs ++ node ∷ []) node
                (Chain-snoc l b.begin xs b.end node ends.chain ends.distinct out live) d
                (λ k h. refl) (λ k h other. ground arith) (λ k h. refl);
          stops = ground arith;
          distinct = d;
        },
        record { live = refl; next = λ k h. ground arith; pred = λ k h. ground arith },
      )

  pub push_back-eq :
      (node : ℕ)
      → (b.end == node) ≡ false
      → l.live b.end ≡ true
      → l.live node ≡ true
      → push_back b node l ≡ some (record b { end = node }, appended node)
  unfolding push_back set_next set_pred
  push_back-eq node e u v = ground arith

  -- The list without a node between two parts of it
  abbrev pub Leaves : List ℕ → ℕ → List ℕ → Bucket × Links → Type 0
  Leaves xs x ys (b', l') =
      (b'.begin ≡ b.begin) × Ends l' b' (xs ++ ys) × SameOutside (b.begin ∷ xs ++ x ∷ ys) l l'

  drop_last-Leaves :
      (xs : List ℕ) (x : ℕ)
      → Ends l b (xs ++ x ∷ [])
      → (x ≡ b.end) × Yields (Leaves xs x []) (drop_last b l)
  unfolding drop_last get_pred set_next
  drop_last-Leaves xs x ends =
      let (e, c) = Chain-init l b.begin xs x b.end ends.chain in
      let back = Chain-last l b.begin xs (l.pred b.end) c in
      let all = Chain-has l b.begin (xs ++ x ∷ []) b.end ends.chain in
      let h = has-append (l.pred b.end) xs (x ∷ []) in
      let d : Distinct (b.begin ∷ xs) = Distinct-prefix (b.begin ∷ xs) (x ∷ []) ends.distinct in
      let live = all b.end (Chain-last l b.begin (xs ++ x ∷ []) b.end ends.chain) in
      let live' = all (l.pred b.end) (ground arith) in
      (
        e,
        rw (live, live')
            (yields (
              refl,
              rw (append-nil xs) (record {
                chain =
                    Chain-frame l (record l { next = write l.next (l.pred b.end) null }) b.begin xs
                      (l.pred b.end) c d (λ k h. refl) (λ k h other. ground arith) (λ k h. refl);
                stops = ground arith;
                distinct = d;
              }),
              record {
                live = refl;
                next = λ k o. ground (arith, has-append k xs (x ∷ []));
                pred = λ k o. refl;
              },
            )),
      )

  drop_inner-eq :
      (x : ℕ)
      → l.live x ≡ true
      → l.live (l.pred x) ≡ true
      → l.live (l.next x) ≡ true
      → (l.pred x == x) ≡ false
      → drop_inner b x l ≡ some (b, relink l (l.pred x) (l.next x))
  unfolding drop_inner get_pred get_next set_pred set_next
  drop_inner-eq x u v w e = ground arith

  drop_inner-Leaves :
      (xs : List ℕ) (x y : ℕ) (ys : List ℕ)
      → Ends l b (xs ++ x ∷ y ∷ ys)
      → (x == b.end) ≡ false × Yields (Leaves xs x (y ∷ ys)) (drop_inner b x l)
  drop_inner-Leaves xs x y ys ends =
      let next = Chain-next l b.begin xs x y ys b.end ends.chain in
      let back = Chain-pred l b.begin xs x (y ∷ ys) b.end ends.chain in
      let all = Chain-has l b.begin (xs ++ x ∷ y ∷ ys) b.end ends.chain in
      let last = Chain-last l y ys b.end (Chain-suffix2 l b.begin xs x y ys b.end ends.chain) in
      let h = has-append x xs (x ∷ y ∷ ys) in
      let h' = has-append (l.pred x) xs (x ∷ y ∷ ys) in
      let h'' = has-append y xs (x ∷ y ∷ ys) in
      let d = Distinct-remove (b.begin ∷ xs) (y ∷ ys) x ends.distinct in
      let o = has-append b.end xs (y ∷ ys) in
      let p = Distinct-apart (b.begin ∷ xs) (y ∷ ys) d.0 (l.pred x) back in
      let u = all x (ground arith) in
      let v = all (l.pred x) (ground arith) in
      let w = all y (ground arith) in
      let out : (x == b.end) ≡ false = ground (arith, d.1, has-append x xs (y ∷ ys)) in
      let w' : l.live (l.next x) ≡ true = rw next w in
      (
        out,
        rw (drop_inner-eq x u v w' (ground (arith, d.1, has-append x xs (y ∷ ys)))) (
            yields (
              refl,
              record {
                chain = rw next (Chain-unlink l b.begin xs x y ys b.end ends.chain ends.distinct);
                stops = ground (arith, ends.stops);
                distinct = d.0;
              },
              record {
                live = refl;
                next = λ k o. ground (arith, has-append k xs (x ∷ y ∷ ys));
                pred = λ k o. ground (arith, has-append k xs (x ∷ y ∷ ys));
              },
            )),
      )

  -- DetachNode takes any node out of its list, the last as well.
  pub detach_node-Leaves :
      (xs : List ℕ) (x : ℕ) (ys : List ℕ)
      → Ends l b (xs ++ x ∷ ys)
      → Yields (Leaves xs x ys) (detach_node b x l)
  unfolding detach_node
  detach_node-Leaves xs x [] ends =
      let (e, r) = drop_last-Leaves xs x ends in
      let here : (x == b.end) ≡ true = ground arith in rw here r
  detach_node-Leaves xs x (y ∷ ys) ends = let (e, r) = drop_inner-Leaves xs x y ys ends in rw e r

  abbrev pub Pops : List ℕ → Bucket × Links × ℕ → Type 0
  Pops [] r = r ≡ (b, l, null)
  Pops (x ∷ xs) (b', l', ret) = (ret ≡ x) × Leaves [] x xs (b', l')

  pop_head-one :
      (x : ℕ)
      → (b.end == b.begin) ≡ false
      → l.live b.begin ≡ true
      → l.next b.begin ≡ x
      → (x == b.end) ≡ true
      → pop_head b l ≡ (do (b', l') ← drop_last b l; some (b', l', x))
  unfolding pop_head get_next
  pop_head-one x e u n here = rw (e, u, n, here) refl

  pop_head-more :
      (x : ℕ)
      → (b.end == b.begin) ≡ false
      → l.live b.begin ≡ true
      → l.next b.begin ≡ x
      → (x == b.end) ≡ false
      → (x == b.begin) ≡ false
      → l.live x ≡ true
      → l.live (l.next x) ≡ true
      → pop_head b l ≡ some (b, relink l b.begin (l.next x), x)
  unfolding pop_head get_next set_next set_pred
  pop_head-more x e u n out o v w = ground arith

  -- PopHead takes the first node and returns it; of an empty list it returns null.
  pub pop_head-Pops : (xs : List ℕ) → Ends l b xs → Yields (Pops xs) (pop_head b l)
  unfolding pop_head
  pop_head-Pops [] ends =
      let (u, e) = ends.chain in
      let stop : (b.end == b.begin) ≡ true = ground arith in rw stop (yields refl)
  pop_head-Pops (x ∷ []) ends =
      let (u, n, p, (v, e)) = ends.chain in
      let (here, r) = drop_last-Leaves [] x ends in
      let go_on : (b.end == b.begin) ≡ false = ground (arith, ends.distinct.0) in
      let stop : (x == b.end) ≡ true = ground arith in
      rw (pop_head-one x go_on u n stop) (Yields-bind r λ (b', l') left. yields (refl, left))
  pop_head-Pops (x ∷ y ∷ ys) ends =
      let (u, n, p, c) = ends.chain in
      let (v, n', p', c') = c in
      let last = Chain-last l y ys b.end c' in
      let (out, r) = drop_inner-Leaves [] x y ys ends in
      let go_on : (b.end == b.begin) ≡ false = ground (arith, ends.distinct.0) in
      let o : (x == b.begin) ≡ false = ground (arith, ends.distinct.0) in
      let w : l.live (l.next x) ≡ true = rw n' (Chain-live l y ys b.end c') in
      let e = drop_inner-eq x v (rw p u) w (ground arith) in
      let r' : Yields (Leaves [] x (y ∷ ys)) (some (b, relink l b.begin (l.next x))) =
        rw (e, p) at r in
      rw (pop_head-more x go_on u n out o v w) (yields (refl, Yields-some r'))
