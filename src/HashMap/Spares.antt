-- ===== src/HashMap/Spares.antt =====
-- The manager's lists of c++/utils/cache/concurrent_hashmap.h, and what GetOne and Reclaim do to them.
use funcodes.Prelude.{
  ℕ, ◌+◌, ◌%◌, ◌^◌, ◌≤◌, ◌≡◌, refl, sym, ◌∙◌, ap, Bool, true, false, List, [], ◌∷◌, ◌++◌, none,
  some, arith, ◌==◌, Yields, yields, Yields-inv, Bool-cases, inl, inr, if◌then◌else◌,
}
use funcodes.Links.{Links, null, write, set_next, create, Chain-has, Chain-last}
use funcodes.HashMap.{
  Bucket, HashMap, resource, reclaimer, push_back, pop_head, put_list, get_one, reclaim,
}
use funcodes.HashMap.Ends.{Ends, appended, appended-Ends, push_back-eq, pop_head-Pops}
use funcodes.HashMap.Family.{
  Family, IsOutside, Family-outside, Family-update, Family-less, Family-more,
}

abbrev pub rest : List ℕ → List ℕ
rest [] = []
rest (x ∷ xs) = xs

module _ {ℓ} {V : Type ℓ} (s : HashMap V) (n : ℕ) (xs : ℕ → List ℕ)
    (all : Family n s.links s.lists xs) (room : 2 ≤ n) where
  -- The fields that an operation of the manager leaves alone
  abbrev Kept : HashMap V → Type 0
  Kept s' = (s'.bucket_count ≡ s.bucket_count) × (s'.running ≡ s.running)

  -- GetOne: a node outside the lists, with none behind it
  pub record Got (got : HashMap V × ℕ) : Type ℓ where
    pub family : Family n got.0.links got.0.lists (write xs resource (rest (xs resource)))
    pub out : IsOutside n got.0.lists (write xs resource (rest (xs resource))) got.1
    pub live : got.0.links.live got.1 ≡ true
    pub alone : got.0.links.next got.1 ≡ null
    pub entry : (k : ℕ) → (k == got.1) ≡ false → got.0.entry k ≡ s.entry k
    pub lists : (i : ℕ) → (resource == i) ≡ false → got.0.lists i ≡ s.lists i
    pub kept : Kept got.0

  get_one-new :
      (fresh : ℕ) (b : Bucket) (l : Links)
      → pop_head (s.lists resource) s.links ≡ some (b, l, null)
      → get_one fresh s
        ≡ some (
          put_list (record s { entry = write s.entry fresh none }) resource b (create l fresh),
          fresh,
        )
  unfolding get_one
  get_one-new fresh b l e = rw e refl

  get_one-old :
      (fresh : ℕ) (b : Bucket) (l : Links) (ret : ℕ)
      → pop_head (s.lists resource) s.links ≡ some (b, l, ret)
      → (ret == null) ≡ false
      → l.live ret ≡ true
      → get_one fresh s
        ≡ some (put_list s resource b (record l { next = write l.next ret null }), ret)
  unfolding get_one set_next
  get_one-old fresh b l ret e some_node live = rw (e, some_node, live) refl

  -- No node rests: a new one
  get_one-empty :
      (fresh : ℕ)
      → xs resource ≡ []
      → IsOutside n s.lists xs fresh
      → (fresh == null) ≡ false
      → Yields Got (get_one fresh s)
  get_one-empty fresh e out nonnull =
      let ends : Ends s.links (s.lists resource) [] = rw e at (all.ends resource (omega arith)) in
      let same = Yields-inv (pop_head-Pops s.links (s.lists resource) [] ends) in
      let q : pop_head (s.lists resource) s.links ≡ some (s.lists resource, s.links, null) =
        same.1 ∙ ap (λ (z : Bucket × Links × ℕ). some z) same.2 in
      let f =
        Family-update n s.links s.lists xs all resource s.links (s.lists resource) [] []
          (omega arith) ends (record { live = refl; next = λ k h. refl; pred = λ k h. refl })
          (λ j k b other h.
            (refl, ground (arith, all.apart j resource k b (omega arith) (ground arith) h))) in
      let o : IsOutside n (write s.lists resource (s.lists resource)) (write xs resource []) fresh =
        λ i b. elim (Bool-cases (resource == i)) [
          | inl h ↦ rw h (ground (arith, out resource (omega arith)))
          | inr h ↦ rw h (out i b)
        ] in
      let g =
        Family-outside n s.links (write s.lists resource (s.lists resource)) (write xs resource [])
          f (create s.links fresh) fresh o nonnull (unfold create in λ k h. ground arith)
          (unfold create in λ k h. ground arith) (unfold create in λ k h. ground arith) in
      let live : (create s.links fresh).live fresh ≡ true = unfold create in ground arith in
      let alone : (create s.links fresh).next fresh ≡ null = unfold create in ground arith in
      rw (get_one-new fresh (s.lists resource) s.links q) (
        yields (record {
          family = rw e g;
          out = rw e o;
          live = live;
          alone = alone;
          entry = λ k h. ground arith;
          lists = λ i h. rw h refl;
          kept = (refl, refl);
        }))

  get_one-some : (fresh x : ℕ) (r : List ℕ) → xs resource ≡ x ∷ r → Yields Got (get_one fresh s)
  get_one-some fresh x r e =
      let ends : Ends s.links (s.lists resource) (x ∷ r) =
        rw e at (all.ends resource (omega arith)) in
      let ((b, l, ret), q, (at, (begin, left, same))) =
        Yields-inv (pop_head-Pops s.links (s.lists resource) (x ∷ r) ends) in
      let (f, o) =
        Family-less n s.links s.lists xs all resource l b [] x r (omega arith) e begin left same in
      let live' : s.links.live x ≡ true =
        Chain-has s.links (s.lists resource).begin (x ∷ r) (s.lists resource).end ends.chain x
          (ground arith) in
      let some_node : (x == null) ≡ false = ground (arith, all.dead) in
      let q' : pop_head (s.lists resource) s.links ≡ some (b, l, x) =
        q ∙ ap (λ (z : ℕ). some (b, l, z)) at in
      let live : l.live x ≡ true = rw same.live live' in
      let g =
        Family-outside n l (write s.lists resource b) (write xs resource r) f
          (record l { next = write l.next x null }) x o some_node (λ k h. refl)
          (λ k h. ground arith) (λ k h. refl) in
      rw (get_one-old fresh b l x q' some_node live) (
        yields (record {
          family = rw e g;
          out = rw e o;
          live = live;
          alone = ground arith;
          entry = λ k h. refl;
          lists = λ i h. rw h refl;
          kept = (refl, refl);
        }))

  pub get_one-Got :
      (fresh : ℕ)
      → IsOutside n s.lists xs fresh
      → (fresh == null) ≡ false
      → Yields Got (get_one fresh s)
  get_one-Got fresh out nonnull =
      (elim (xs resource) as (λ r. xs resource ≡ r → Yields Got (get_one fresh s)) [
        | [] ↦ λ e. get_one-empty fresh e out nonnull
        | x ∷ r ↦ λ e. get_one-some fresh x r e
      ])
        refl

  -- Reclaim: the node waits behind the others, or the manager no longer runs.
  pub record Reclaimed (node : ℕ) (r : HashMap V × Bool) : Type ℓ where
    pub said : r.1 ≡ s.running
    pub family :
        Family n r.0.links r.0.lists
          (if s.running then write xs reclaimer (xs reclaimer ++ node ∷ []) else xs)
    pub entry : r.0.entry ≡ s.entry
    pub ended : s.running ≡ false → (r.0.links ≡ s.links) × (r.0.lists ≡ s.lists)
    pub lists : (i : ℕ) → (reclaimer == i) ≡ false → r.0.lists i ≡ s.lists i
    pub kept : Kept r.0

  reclaim-on :
      (now node : ℕ) (b : Bucket) (l : Links)
      → s.running ≡ true
      → push_back (s.lists reclaimer) node s.links ≡ some (b, l)
      → reclaim now node s
        ≡ some (
          put_list
              (record s { timeout = write s.timeout node ((now + s.window_in_seconds) % 2 ^ 64) })
              reclaimer
              b
              l,
          true,
        )
  unfolding reclaim
  reclaim-on now node b l on e = simp (on, e) refl

  reclaim-off :
      (now node : ℕ)
      → s.running ≡ false
      → reclaim now node s
        ≡ some (
          record s { timeout = write s.timeout node ((now + s.window_in_seconds) % 2 ^ 64) },
          false,
        )
  unfolding reclaim
  reclaim-off now node off = simp off refl

  pub reclaim-Reclaimed :
      (now node : ℕ)
      → IsOutside n s.lists xs node
      → s.links.live node ≡ true
      → Yields (Reclaimed node) (reclaim now node s)
  reclaim-Reclaimed now node out live = elim (Bool-cases s.running) [
    | inl on ↦
        let b = s.lists reclaimer in
        let e = all.ends reclaimer (omega arith) in
        let o = out reclaimer (omega arith) in
        let last = Chain-last s.links b.begin (xs reclaimer) b.end e.chain in
        let live_last = Chain-has s.links b.begin (xs reclaimer) b.end e.chain b.end last in
        let q = push_back-eq s.links b node (ground arith) live_last live in
        let (ends, same) = appended-Ends s.links b (xs reclaimer) node e o live in
        let f =
          Family-more n s.links s.lists xs all reclaimer (appended s.links b node)
            (record b { end = node }) node (omega arith) refl ends same out in
        rw (reclaim-on now node (record b { end = node }) (appended s.links b node) on q) (
          yields (record {
            said = sym on;
            family = simp on f;
            entry = refl;
            ended = λ off. absurd (cc (on, off));
            lists = λ i h. simp h refl;
            kept = (refl, refl);
          }))
    | inr off ↦ rw (reclaim-off now node off) (
        yields (record {
          said = sym off;
          family = simp off all;
          entry = refl;
          ended = λ off. (refl, refl);
          lists = λ i h. refl;
          kept = (refl, refl);
        }))
  ]
