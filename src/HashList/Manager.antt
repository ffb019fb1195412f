-- ===== src/HashList/Manager.antt =====
-- NodeManager of c++/utils/cache/concurrent_hashlist.h: the nodes of its two lists.
use funcodes.Prelude.{
  ℕ, zero, suc, ◌+◌, ◌%◌, ◌^◌, ◌<◌, ◌≡◌, refl, Bool, true, false, List, [], ◌∷◌, ◌++◌, some, arith,
  ◌==◌, ltb, Yields, yields, Yields-bind, Yields-inv, Bool-cases, inl, inr, length, if◌then◌else◌,
}
use funcodes.Links.{
  Links, null, write, get_next, set_next, has, Distinct, Chain, has-append, Chain-has, Chain-frame,
  last_of, SameOutside,
}
use funcodes.HashList.{HashList, Nodes, NodeManager, pop_head, get_one, reclaim, walk}
use funcodes.HashList.Order.{Linked, span, Linked-SameOutside, push_back-Linked, pop_head-Pops}

-- The two lists have nodes and sentinels of their own.
pub record Managed (l : Links) (g : NodeManager) (xs ys : List ℕ) : Type 0 where
  pub resting : Linked l g.resource xs
  pub reclaimed : Linked l g.reclaimer ys
  pub apart : (k : ℕ) → has k (span g.resource xs) ≡ true → has k (span g.reclaimer ys) ≡ false
  pub dead : l.live null ≡ false

pub Linked-live :
    (l : Links) (s : HashList) (order : List ℕ) (k : ℕ)
    → Linked l s order
    → has k (span s order) ≡ true
    → l.live k ≡ true
Linked-live l s order k linked h = Chain-has l s.begin (order ++ s.end ∷ []) s.end linked.chain k h

pub has-end : (s : HashList) (order : List ℕ) → has s.end (span s order) ≡ true
has-end s order = ground (arith, has-append s.end order (s.end ∷ []))

-- The field `next` of a node outside a list
Linked-next :
    (l : Links) (s : HashList) (order : List ℕ) (a v : ℕ)
    → Linked l s order
    → (has a (s.begin ∷ order) ≡ false)
    → Linked (record l { next = write l.next a v }) s order
Linked-next l s order a v linked out = record {
  chain =
      Chain-frame l (record l { next = write l.next a v }) s.begin (order ++ s.end ∷ []) s.end
        linked.chain linked.distinct (λ k h. refl)
        (λ k h other. ground (arith, has-append k order (s.end ∷ []))) (λ k h. refl);
  distinct = linked.distinct;
}

pub apart_sym :
    {l : Links} {g : NodeManager} {xs ys : List ℕ}
    → Managed l g xs ys
    → (k : ℕ) → has k (span g.reclaimer ys) ≡ true
    → has k (span g.resource xs) ≡ false
apart_sym {g} {xs} all k h = elim (Bool-cases (has k (span g.resource xs))) [
  | inl e ↦ ground (arith, all.apart k e)
  | inr e ↦ e
]

module _ (m : Nodes) (g : NodeManager) where
  abbrev pub Hands : List ℕ → List ℕ → Nodes × ℕ → Type 0
  Hands [] ys (m', ret) =
      (ret ≡ g.resource.end)
      × Managed m'.links g [] ys
      × SameOutside (span g.resource []) m.links m'.links
  Hands (x ∷ xs) ys (m', ret) =
      (ret ≡ x)
      × Managed m'.links g xs ys
      × (m'.links.next x ≡ null)
      × (m'.available ≡ write m.available x false)
      × SameOutside (span g.resource (x ∷ xs)) m.links m'.links

  get_one-eq :
      (fresh ret : ℕ) (m' : Nodes)
      → pop_head g.resource m ≡ some (m', ret)
      → (ret == null) ≡ false
      → m'.links.live ret ≡ true
      → get_one fresh g m
        ≡ some (record m' { links = record m'.links { next = write m'.links.next ret null } }, ret)
  unfolding get_one set_next
  get_one-eq fresh ret m' e some_node live = rw (e, some_node, live) refl

  -- With the nodes of the manager in its two lists, GetOne hands out the node that has rested
  -- longest, with no node behind it, and the two lists keep their other nodes; the links of the
  -- nodes outside the list of rested ones do not change. When none rests it hands out the sentinel
  -- of that list; it never makes a node.
  pub get_one-Hands :
      (fresh : ℕ) (xs ys : List ℕ)
      → Managed m.links g xs ys
      → Yields (Hands xs ys) (get_one fresh g m)
  get_one-Hands fresh [] ys all =
      let ((m', ret), e, (same, at_end)) = Yields-inv (pop_head-Pops m g.resource [] all.resting) in
      let in_span = has-end g.resource [] in
      let live = Linked-live m.links g.resource [] g.resource.end all.resting in_span in
      let out = all.apart g.resource.end in_span in
      let some_node : (ret == null) ≡ false = ground (arith, all.dead) in
      let live' : m'.links.live ret ≡ true = rw (same, at_end) live in
      rw (get_one-eq fresh ret m' e some_node live') (
        yields (
          at_end,
          rw (same, at_end)
              (record {
                resting =
                    Linked-next m.links g.resource [] g.resource.end null all.resting
                      (ground (arith, all.resting.distinct.0));
                reclaimed =
                    Linked-next m.links g.reclaimer ys g.resource.end null all.reclaimed
                      (ground (arith, has-append g.resource.end ys (g.reclaimer.end ∷ [])));
                apart = all.apart;
                dead = all.dead;
              }),
          rw (same, at_end)
              (record { live = refl; next = λ k o. ground arith; pred = λ k o. refl }),
        ))
  get_one-Hands fresh (x ∷ xs) ys all =
      let ((m', ret), e, (at_front, left, same, mode, timeout)) =
        Yields-inv (pop_head-Pops m g.resource (x ∷ xs) all.resting) in
      let in_span : has x (span g.resource (x ∷ xs)) ≡ true = ground arith in
      let live = Linked-live m.links g.resource (x ∷ xs) x all.resting in_span in
      let out = all.apart x in_span in
      let d = all.resting.distinct in
      let some_node : (ret == null) ≡ false = ground (arith, all.dead) in
      let live' : m'.links.live ret ≡ true = rw (same.live, at_front) live in
      let kept =
        Linked-SameOutside g.reclaimer ys (span g.resource (x ∷ xs)) m.links m'.links all.reclaimed
          same (apart_sym all) in
      rw (get_one-eq fresh ret m' e some_node live') (
        yields (
          at_front,
          rw at_front (record {
            resting =
                Linked-next m'.links g.resource xs x null left
                  (ground (arith, has-append x xs (g.resource.end ∷ [])));
            reclaimed =
                Linked-next m'.links g.reclaimer ys x null kept
                  (ground (arith, has-append x ys (g.reclaimer.end ∷ [])));
            apart = λ k h. all.apart k (ground arith);
            dead = rw same.live all.dead;
          }),
          ground arith,
          mode,
          record {
            live = same.live;
            next = λ k o. ground (arith, same.next k);
            pred = λ k o. same.pred k o;
          },
        ))

  -- The memory after the writes that Reclaim makes before PushBack
  abbrev pub retired : ℕ → ℕ → Nodes
  retired now node = record m {
    available = write m.available node false;
    timeout = write m.timeout node ((now + g.window_in_seconds) % 2 ^ 64);
  }

  abbrev pub Reclaims : ℕ → ℕ → List ℕ → List ℕ → Nodes × Bool → Type 0
  Reclaims now node xs ys (m', b) =
      if g.running
      then ((b ≡ true)
          × Managed m'.links g xs (ys ++ node ∷ [])
          × (m'.available ≡ write (retired now node).available node true)
          × (m'.timeout ≡ (retired now node).timeout))
      else ((b ≡ false) × (m' ≡ retired now node))

  -- With the nodes of the manager in its two lists, and a node in use that is in neither: while
  -- the manager runs, Reclaim puts the node behind the others that wait, to rest from `now` plus
  -- the window; after its end it says false and links nothing.
  pub reclaim-Reclaims :
      (now node : ℕ) (xs ys : List ℕ)
      → Managed m.links g xs ys
      → has node (span g.resource xs) ≡ false
      → has node (span g.reclaimer ys) ≡ false
      → m.links.live node ≡ true
      → Yields (Reclaims now node xs ys) (reclaim now node g m)
  unfolding reclaim
  reclaim-Reclaims now node xs ys all out out' live = elim (Bool-cases g.running) [
    | inl e ↦ simp e (
        Yields-bind
          (push_back-Linked (retired now node) g.reclaimer ys node all.reclaimed out' live)
          λ m' (added, same, mode, timeout, stays). yields (
            simp e (
              refl,
              record {
                resting =
                    Linked-SameOutside g.resource xs (node ∷ span g.reclaimer ys) m.links m'.links
                      all.resting same (λ k h. ground (arith, all.apart k h));
                reclaimed = added;
                apart = λ k h.
                    let a = all.apart k h in
                    ground (
                      arith,
                      has-append k (ys ++ node ∷ []) (g.reclaimer.end ∷ []),
                      has-append k ys (node ∷ []),
                      has-append k ys (g.reclaimer.end ∷ []),
                    );
                dead = rw same.live all.dead;
              },
              mode,
              timeout,
            )))
    | inr e ↦ simp e (yields (simp e (refl, refl)))
  ]

-- The nodes at the front whose time has come, and those behind them
unfoldable pub rested : (ℕ → ℕ) → ℕ → List ℕ → List ℕ
rested timeout now [] = []
rested timeout now (x ∷ xs) = if ltb now (timeout x) then [] else x ∷ rested timeout now xs

unfoldable pub waiting : (ℕ → ℕ) → ℕ → List ℕ → List ℕ
waiting timeout now [] = []
waiting timeout now (x ∷ xs) = if ltb now (timeout x) then x ∷ xs else waiting timeout now xs

pub append-rested :
    (timeout : ℕ → ℕ) (now : ℕ) (xs : List ℕ) → rested timeout now xs ++ waiting timeout now xs ≡ xs
unfolding rested waiting
append-rested timeout now [] = refl
append-rested timeout now (x ∷ xs) = ground (arith, append-rested timeout now xs)

pub walk-rested :
    (rounds now : ℕ) (s : HashList) (last : ℕ) (xs : List ℕ) (m : Nodes)
    → Chain m.links last (xs ++ s.end ∷ []) s.end
    → Distinct (last ∷ xs ++ s.end ∷ [])
    → length xs < rounds
    → Yields
        (λ (m', a).
          (a ≡ last_of last (rested m.timeout now xs))
          × (m'.links ≡ m.links)
          × (m'.timeout ≡ m.timeout))
        (walk rounds now s last m)
unfolding walk rested get_next
walk-rested zero now s last xs m c d fuel = absurd (omega arith)
walk-rested (suc rounds) now s last [] m (u, n, p, c) d fuel =
    let stop : (s.end == s.end) ≡ true = ground arith in rw (u, n, stop) (yields (refl, refl, refl))
walk-rested (suc rounds) now s last (x ∷ xs) m (u, n, p, c) d fuel =
    let on : (x == s.end) ≡ false = ground (arith, d.1.0, has-append x xs (s.end ∷ [])) in
    elim (Bool-cases (ltb now (m.timeout x))) [
      | inl e ↦ rw (u, n, on, e) (yields (refl, refl, refl))
      | inr e ↦
          rw (u, n, on, e)
            (walk-rested rounds now s x xs (record m { available = write m.available x true }) c d.1
              (omega arith))
    ]
