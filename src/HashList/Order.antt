-- ===== src/HashList/Order.antt =====
-- The order of the nodes in a list of c++/utils/cache/concurrent_hashlist.h.
use mathlib.Core.List.{append_assoc, append-nil}
use funcodes.Prelude.{
  ℕ, ◌≡◌, refl, Bool, true, false, List, [], ◌∷◌, ◌++◌, some, arith, ◌==◌, Yields, yields,
  Yields-bind, Yields-map, if◌then◌else◌,
}
use funcodes.Links.{
  Links, write, create, get_pred, get_next, set_pred, set_next, has, Distinct, Distinct-insert,
  Distinct-remove, Chain, has-append, Chain-has, Chain-frame, Chain-pred, Chain-insert, Neighbours,
  Chain-Neighbours, relink, insert_between, SameOutside,
}
use funcodes.HashList.{HashList, Nodes, fill, push_back, pop_head}

-- The list `s` is `order`, first to last.
pub record Linked (l : Links) (s : HashList) (order : List ℕ) : Type 0 where
  pub chain : Chain l s.begin (order ++ s.end ∷ []) s.end
  pub distinct : Distinct (s.begin ∷ order ++ s.end ∷ [])

abbrev pub span : HashList → List ℕ → List ℕ
span s order = s.begin ∷ order ++ s.end ∷ []

-- A list with nodes of its own keeps its order.
pub Linked-SameOutside :
    (s : HashList) (order nodes : List ℕ) (l l' : Links)
    → Linked l s order
    → SameOutside nodes l l'
    → ((k : ℕ) → has k (span s order) ≡ true → has k nodes ≡ false)
    → Linked l' s order
Linked-SameOutside s order nodes l l' linked same apart = record {
  chain =
      Chain-frame l l' s.begin (order ++ s.end ∷ []) s.end linked.chain linked.distinct
        (λ k h. rw same.live refl) (λ k h _. same.next k (apart k h))
        (λ k h. same.pred k (apart k (ground arith)));
  distinct = linked.distinct;
}

module _ (m : Nodes) (s : HashList) where
  -- The memory after PushBack
  abbrev pub pushed : ℕ → Links
  pushed node = record m.links {
    next = write (write m.links.next (m.links.pred s.end) node) node s.end;
    pred = write (write m.links.pred node (m.links.pred s.end)) s.end node;
  }

  push_back-eq :
      (node : ℕ)
      → m.links.live node ≡ true
      → m.links.live s.end ≡ true
      → m.links.live (m.links.pred s.end) ≡ true
      → push_back s node m
        ≡ some (record m { links = pushed node; available = write m.available node true })
  unfolding push_back get_pred set_pred set_next
  push_back-eq node u v w = ground arith

  -- PushBack of a node that the list does not have puts it at the end, available, and changes no
  -- field of a node outside the list, nor what stands behind the sentinel at the end.
  pub push_back-Linked :
      (order : List ℕ) (node : ℕ)
      → Linked m.links s order
      → has node (span s order) ≡ false
      → m.links.live node ≡ true
      → Yields
          (λ m'.
            Linked m'.links s (order ++ node ∷ [])
            × SameOutside (node ∷ span s order) m.links m'.links
            × (m'.available ≡ write m.available node true)
            × (m'.timeout ≡ m.timeout)
            × (m'.links.next s.end ≡ m.links.next s.end))
          (push_back s node m)
  push_back-Linked order node linked out live =
      let back = Chain-pred m.links s.begin order s.end [] s.end linked.chain in
      let all = Chain-has m.links s.begin (order ++ s.end ∷ []) s.end linked.chain in
      let h = has-append node order (s.end ∷ []) in
      let p = has-append (m.links.pred s.end) order (s.end ∷ []) in
      let live_last = all (m.links.pred s.end) (ground arith) in
      let e = has-append s.end order (s.end ∷ []) in
      let live_end = all s.end (ground arith) in
      let d = Distinct-insert (s.begin ∷ order) (s.end ∷ []) node linked.distinct out in
      let off = (Distinct-remove (s.begin ∷ order) [] s.end linked.distinct).1 in
      let close = append_assoc order (node ∷ []) (s.end ∷ []) in
      rw (push_back-eq node live live_end live_last) (
        yields (
          record {
            chain = rw close (
                Chain-frame (insert_between m.links (m.links.pred s.end) node s.end) (pushed node)
                  s.begin (order ++ node ∷ s.end ∷ []) s.end
                  (Chain-insert m.links s.begin order node s.end [] s.end linked.chain
                    linked.distinct out live)
                  d (λ k _. refl) (λ k _ _. refl) (λ k _. refl));
            distinct = rw close d;
          },
          record {
            live = refl;
            next = λ k o. ground (arith, has-append k order (s.end ∷ []));
            pred = λ k o. ground (arith, has-append k order (s.end ∷ []));
          },
          refl,
          refl,
          ground (arith, has-append s.end order []),
        ))

  -- The list without a node `x` between two parts of it
  Taken :
      (xs : List ℕ) (x : ℕ) (ys : List ℕ)
      → Linked m.links s (xs ++ x ∷ ys)
      → Neighbours m.links s.begin xs x ys s.end
        × Linked (relink m.links (m.links.pred x) (m.links.next x)) s (xs ++ ys)
        × SameOutside
            (span s (xs ++ x ∷ ys))
            m.links
            (relink m.links (m.links.pred x) (m.links.next x))
  Taken xs x ys linked =
      let gap = append_assoc xs (x ∷ ys) (s.end ∷ []) in
      let close = append_assoc xs ys (s.end ∷ []) in
      let c : Chain m.links s.begin (xs ++ x ∷ (ys ++ s.end ∷ [])) s.end = rw gap at linked.chain in
      let d : Distinct (s.begin ∷ xs ++ x ∷ (ys ++ s.end ∷ [])) = rw gap at linked.distinct in
      let n = Chain-Neighbours m.links s.begin xs x ys s.end c d in
      (
        n,
        record {
          chain = rw close n.without;
          distinct = rw close (Distinct-remove (s.begin ∷ xs) (ys ++ s.end ∷ []) x d).0;
        },
        rw gap (record {
          live = refl;
          next = λ k o. ground (arith, n.before, has-append k xs (x ∷ (ys ++ s.end ∷ [])));
          pred = λ k o. ground (arith, n.behind, has-append k xs (x ∷ (ys ++ s.end ∷ [])));
        }),
      )

  -- What PopHead leaves of a list, with its result
  abbrev pub Pops : List ℕ → Nodes × ℕ → Type 0
  Pops [] (m', ret) = (m' ≡ m) × (ret ≡ s.end)
  Pops (x ∷ order) (m', ret) =
      (ret ≡ x)
      × Linked m'.links s order
      × SameOutside (span s (x ∷ order)) m.links m'.links
      × (m'.available ≡ write m.available x false)
      × (m'.timeout ≡ m.timeout)

  -- PopHead takes the first node out of the list, no longer available, and returns it; of an empty
  -- list it returns the sentinel `end_` and changes nothing.
  pub pop_head-Pops : (order : List ℕ) → Linked m.links s order → Yields (Pops order) (pop_head s m)
  unfolding pop_head get_next set_next set_pred
  pop_head-Pops [] linked =
      let (u, n, p, c) = linked.chain in
      let stop : (s.end == s.end) ≡ true = ground arith in rw (u, n, stop) (yields (refl, refl))
  pop_head-Pops (x ∷ order) linked =
      let (u, n, p, c) = linked.chain in
      let go_on : (x == s.end) ≡ false =
        ground (arith, linked.distinct.1.0, has-append x order (s.end ∷ [])) in
      let (around, left, same) = Taken [] x order linked in
      rw (u, n, go_on, around.live, around.live_behind)
        (yields (refl, rw p at left, rw p at same, refl, refl))

  -- What DetachNode does to a node between two parts of the list
  abbrev pub Detaches : List ℕ → ℕ → List ℕ → Nodes × Bool → Type 0
  Detaches xs x ys (m', b) =
      if m.available x
      then ((b ≡ true)
          × Linked m'.links s (xs ++ ys)
          × SameOutside (span s (xs ++ x ∷ ys)) m.links m'.links
          × (m'.available ≡ write m.available x false)
          × (m'.timeout ≡ m.timeout))
      else ((b ≡ false) × (m' ≡ m))

create-Linked :
    (l : Links) (s : HashList) (order : List ℕ) (a : ℕ)
    → Linked l s order
    → has a (span s order) ≡ false
    → Linked (create l a) s order
unfolding create
create-Linked l s order a linked out = record {
  chain =
      Chain-frame l (create l a) s.begin (order ++ s.end ∷ []) s.end linked.chain linked.distinct
        (λ k h. ground arith) (λ k h other. ground arith) (λ k h. ground arith);
  distinct = linked.distinct;
}

-- The constructor of NodeManager puts the nodes that it makes into the list, in turn.
fill-Linked :
    (s : HashList) (nodes order : List ℕ) (m : Nodes)
    → Linked m.links s order
    → Distinct (span s order ++ nodes)
    → Yields (λ m'. Linked m'.links s (order ++ nodes)) (fill s nodes m)
unfolding fill
fill-Linked s [] order m linked d = rw (append-nil order) (yields linked)
fill-Linked s (node ∷ nodes) order m linked d =
    let out = Distinct-remove (span s order) nodes node d in
    let fresh : has node (span s order) ≡ false =
      ground (arith, out.1, has-append node (span s order) nodes) in
    let a = append_assoc order (s.end ∷ []) nodes in
    let d' : Distinct (span s (order ++ node ∷ []) ++ nodes) =
      rw
        (
          append_assoc (order ++ node ∷ []) (s.end ∷ []) nodes,
          append_assoc order (node ∷ []) (s.end ∷ nodes),
        )
        (Distinct-insert (s.begin ∷ order) (s.end ∷ nodes) node (rw a at out.0) (rw a at out.1)) in
    let m1 = record m { links = create m.links node; available = write m.available node true } in
    let live : (create m.links node).live node ≡ true = unfold create in ground arith in
    Yields-bind
      (push_back-Linked m1 s order node (create-Linked m.links s order node linked fresh) fresh
        live)
      λ m' (added, same, mode, timeout, stays).
        Yields-map (fill-Linked s nodes (order ++ node ∷ []) m' added d')
          λ m'' h. rw (append_assoc order (node ∷ []) nodes) at h
