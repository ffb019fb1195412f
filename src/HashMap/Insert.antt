-- ===== src/HashMap/Insert.antt =====
-- insert and emplace of c++/utils/cache/concurrent_hashmap.h.
use mathlib.Core.Path.{fun_ext}
use funcodes.Prelude.{
  ℕ, ◌+◌, ◌<◌, ◌≡◌, refl, ◌∙◌, ap, Bool, true, false, List, [], ◌∷◌, ◌++◌, Option, none, some,
  arith, ◌==◌, Yields, yields, Yields-bind, Bool-cases, Option-cases, inl, inr, length,
  if◌then◌else◌, ◌>>=◌,
}
use funcodes.Links.{relink, null, write, set_next, set_pred, has, Chain-has, Chain-last}
use funcodes.HashMap.{HashMap, resource, bucket, find_in, get_one, insert_node, insert, put_list}
use funcodes.HashMap.Ends.{appended-Ends, appended}
use funcodes.HashMap.Family.{IsOutside, Family-more}
use funcodes.HashMap.Spares.{Got, get_one-Got, rest}
use funcodes.HashMap.Contents.{
  Keyed, Keyed-frame, look, value_of, value_of-frame, value_of-snoc, Keyed-snoc,
}
use funcodes.HashMap.Access.{
  WellFormed, home, node_at, home_lt, hash_result-home, find_in-node_at, node_at-node, contents,
}

-- What insert_node leaves, when the node has no other behind it
insert_node-eq {ℓ} :
    {V : Type ℓ} (s : HashMap V) (node idx : ℕ)
    → s.links.live (s.lists (bucket idx)).end ≡ true
    → s.links.live node ≡ true
    → s.links.next node ≡ null
    → ((s.lists (bucket idx)).end == node) ≡ false
    → insert_node node idx s
      ≡ some (
          put_list s
            (bucket idx)
            (record (s.lists (bucket idx)) { end = node })
            (appended s.links (s.lists (bucket idx)) node))
unfolding insert_node set_next set_pred
insert_node-eq s node idx u v alone other =
    let same : write s.links.next (s.lists (bucket idx)).end node
        ≡ write (write s.links.next (s.lists (bucket idx)).end node) node null =
      fun_ext λ k. ground arith in
    rw (u, v)
      (ap
        (λ (next : ℕ → ℕ). some (
          put_list s (bucket idx) (record (s.lists (bucket idx)) { end = node })
            (record (relink s.links (s.lists (bucket idx)).end node) { next = next })))
        same)

module _ {ℓ} {V : Type ℓ} (hash : ℕ → ℕ) (s : HashMap V) (xs : ℕ → List ℕ) (key : ℕ) (v : V)
    (well : WellFormed hash s xs) where
  -- The lists after a new node
  abbrev grown : ℕ → ℕ → List ℕ
  grown q =
      let ys = write xs resource (rest (xs resource)) in
      write ys (bucket (home hash s key)) (ys (bucket (home hash s key)) ++ q ∷ [])

  bucket_kept : (ys : List ℕ) (i : ℕ) → write xs resource ys (bucket i) ≡ xs (bucket i)
  bucket_kept ys i = ground arith

  grown-here : (q j : ℕ) → home hash s key ≡ j → grown q (bucket j) ≡ xs (bucket j) ++ q ∷ []
  grown-here q j at =
      let same : (bucket (home hash s key) == bucket j) ≡ true = ground arith in
      rw same (
        ap (λ (t : List ℕ). t ++ q ∷ []) (bucket_kept (rest (xs resource)) (home hash s key))
        ∙ ap (λ (i : ℕ). xs (bucket i) ++ q ∷ []) at)

  grown-there : (q i : ℕ) → (home hash s key == i) ≡ false → grown q (bucket i) ≡ xs (bucket i)
  grown-there q i other =
      let differ : (bucket (home hash s key) == bucket i) ≡ false = ground arith in
      rw differ (bucket_kept (rest (xs resource)) i)

  module _ (s1 : HashMap V) (q : ℕ)
      (got : Got s (s.bucket_count + 2) xs well.family (omega arith) (s1, q)) where
    out_of_bucket : (j : ℕ) → j < s.bucket_count → has q (xs (bucket j)) ≡ false
    out_of_bucket j below =
        let o = got.out (bucket j) (omega arith) in
        ground (arith, bucket_kept (rest (xs resource)) j)

    same_entry :
        (j k : ℕ)
        → j < s.bucket_count
        → has k (xs (bucket j)) ≡ true
        → write s1.entry q (some (key, v)) k ≡ s.entry k
    same_entry j k below h =
        let o = out_of_bucket j below in
        let other : (q == k) ≡ false = ground arith in rw other (got.entry k (ground arith))

    new_entry : write s1.entry q (some (key, v)) q ≡ some (key, v)
    new_entry = let here : (q == q) ≡ true = ground arith in rw here refl

    grown-Keyed :
        (j : ℕ)
        → j < s.bucket_count
        → node_at hash s xs key ≡ none
        → Keyed hash s.bucket_count (write s1.entry q (some (key, v))) j (grown q (bucket j))
    grown-Keyed j below absent = elim (Bool-cases (home hash s key == j)) [
      | inl here ↦
          let at : home hash s key ≡ j = ground arith in
          let g : grown q (bucket j) ≡ xs (bucket j) ++ q ∷ [] = grown-here q j at in
          rw g (
            Keyed-snoc hash s.bucket_count s.entry (write s1.entry q (some (key, v))) j
              (xs (bucket j)) q key v (well.keyed j below) (λ k h. same_entry j k below h) new_entry
              at (rw at at absent))
      | inr there ↦ rw (grown-there q j there) (
          Keyed-frame hash s.bucket_count s.entry (write s1.entry q (some (key, v))) j
            (xs (bucket j)) (well.keyed j below) (λ k h. same_entry j k below h))
    ]

    grown-contents :
        (j : ℕ)
        → node_at hash s xs key ≡ none
        → value_of
            (write s1.entry q (some (key, v)))
            (look (write s1.entry q (some (key, v))) j (grown q (bucket (home hash s j))))
          ≡ (if j == key then some v else contents hash s xs j)
    grown-contents j absent = elim (Bool-cases (home hash s key == home hash s j)) [
      | inl here ↦
          let at : home hash s key ≡ home hash s j = ground arith in
          let g : grown q (bucket (home hash s j)) ≡ xs (bucket (home hash s j)) ++ q ∷ [] =
            grown-here q (home hash s j) at in
          rw g (
            value_of-snoc s.entry (write s1.entry q (some (key, v))) j (xs (bucket (home hash s j)))
              q key v (λ k h. same_entry (home hash s j) k (home_lt hash s xs j well) h) new_entry
              (rw at at absent))
      | inr there ↦
          let other : (j == key) ≡ false = ground arith in
          rw (other, grown-there q (home hash s j) there)
            (value_of-frame s.entry (write s1.entry q (some (key, v))) j
              (xs (bucket (home hash s j)))
              (λ k h. same_entry (home hash s j) k (home_lt hash s xs j well) h))
    ]

  -- The node that GetOne gave, with its entry, at the end of its bucket
  insert_node-WellFormed :
      (s1 : HashMap V) (q : ℕ)
      → Got s (s.bucket_count + 2) xs well.family (omega arith) (s1, q)
      → node_at hash s xs key ≡ none
      → Yields
          (λ s'.
            WellFormed hash s' (grown q)
            × (s'.entry ≡ write s1.entry q (some (key, v)))
            × (s'.bucket_count ≡ s.bucket_count))
          (insert_node q (home hash s key) (record s1 { entry = write s1.entry q (some (key, v)) }))
  insert_node-WellFormed s1 q got absent =
      let i = home hash s key in
      let b = s1.lists (bucket i) in
      let bound : bucket i < s.bucket_count + 2 = omega (arith, home_lt hash s xs key well) in
      let e = got.family.ends (bucket i) bound in
      let o = got.out (bucket i) bound in
      let ys = write xs resource (rest (xs resource)) in
      let last = Chain-last s1.links b.begin (ys (bucket i)) b.end e.chain in
      let live = Chain-has s1.links b.begin (ys (bucket i)) b.end e.chain b.end last in
      let s2 = record s1 { entry = write s1.entry q (some (key, v)) } in
      let eq = insert_node-eq s2 q i live got.live got.alone (ground arith) in
      let (ends, same) = appended-Ends s1.links b (ys (bucket i)) q e o got.live in
      let f =
        Family-more (s.bucket_count + 2) s1.links s1.lists ys got.family (bucket i)
          (appended s1.links b q) (record b { end = q }) q bound refl ends same got.out in
      rw eq (
        yields (
          record {
            family = rw got.kept.0 f;
            some_bucket = rw got.kept.0 well.some_bucket;
            keyed = rw got.kept.0 λ j below. grown-Keyed s1 q got j below absent;
          },
          refl,
          got.kept.0,
        ))

  -- What insert does, on the map: nothing where the key is there; else the key gets the value.
  abbrev pub Inserts : Option ℕ → HashMap V × ℕ × Bool → Type ℓ
  Inserts (some p) (s', q, b) = (s' ≡ s) × (q ≡ p) × (b ≡ false)
  Inserts none (s', q, b) =
      (b ≡ true)
      × (s'.entry q ≡ some (key, v))
      × ((ys : ℕ → List ℕ) × WellFormed hash s' ys
          × ((j : ℕ) → contents hash s' ys j ≡ (if j == key then some v else contents hash s xs j)))

  insert-found :
      (rounds fresh p : ℕ)
      → find_in rounds key (home hash s key) s ≡ some p
      → (p == null) ≡ false
      → insert hash rounds fresh key v s ≡ some (s, p, false)
  unfolding insert
  insert-found rounds fresh p e there = rw (hash_result-home hash s xs key well, e, there) refl

  insert-absent :
      (rounds fresh : ℕ)
      → find_in rounds key (home hash s key) s ≡ some null
      → insert hash rounds fresh key v s ≡ (do
        (s1, node) ← get_one fresh s
        s' ←
            insert_node node
              (home hash s key)
              (record s1 { entry = write s1.entry node (some (key, v)) })
        some (s', node, true))
  unfolding insert
  insert-absent rounds fresh e = rw (hash_result-home hash s xs key well, e) refl

  -- On a well-formed map, with an address for a new node that no list has, and more rounds than the
  -- bucket has nodes: insert of a key that the map does not have says true, gives the new node the
  -- pair, and leaves a map that has the value under the key and all else as before. Of a key that the
  -- map has it says false, gives the node that has it and changes nothing.
  pub insert-Inserts :
      (rounds fresh : ℕ)
      → IsOutside (s.bucket_count + 2) s.lists xs fresh
      → (fresh == null) ≡ false
      → length (xs (bucket (home hash s key))) < rounds
      → Yields (Inserts (node_at hash s xs key)) (insert hash rounds fresh key v s)
  insert-Inserts rounds fresh out nonnull fuel =
      let e = find_in-node_at hash s xs key well rounds fuel in
      elim (Option-cases (node_at hash s xs key)) [
        | inl absent ↦
            let e' : find_in rounds key (home hash s key) s ≡ some null = rw absent at e in
            rw (absent, insert-absent rounds fresh e')
              (Yields-bind
                (get_one-Got s (s.bucket_count + 2) xs well.family (omega arith) fresh out nonnull)
                λ (s1, q) got.
                  Yields-bind (insert_node-WellFormed s1 q got absent) λ s' (well', entry, count).
                    yields (
                      refl,
                      rw entry (new_entry s1 q got),
                      (grown q, well', λ j. rw (entry, count) (grown-contents s1 q got j absent)),
                    ))
        | inr (p, there) ↦
            let e' : find_in rounds key (home hash s key) s ≡ some p = rw there at e in
            rw (there, insert-found rounds fresh p e' (node_at-node hash s xs key well p there))
              (yields (refl, refl, refl))
      ]
