-- ===== src/HashMap/Erase.antt =====
-- erase of c++/utils/cache/concurrent_hashmap.h.
use funcodes.Prelude.{
  ℕ, ◌+◌, ◌≤◌, ◌<◌, ◌≡◌, refl, sym, subst, ◌∙◌, ap, Bool, true, false, List, [], ◌∷◌, ◌++◌, Option,
  none, some, arith, ◌==◌, Yields, yields, Yields-bind, Yields-map, Bool-cases, Option-cases, inl,
  inr, length, if◌then◌else◌, ◌>>=◌,
}
use funcodes.Links.{null, write, free, has-append, Chain-has}
use funcodes.HashMap.{
  HashMap, reclaimer, bucket, find_in, detach_node, put_list, reclaim_or_delete, erase_in, erase,
}
use funcodes.HashMap.Ends.{Ends, detach_node-Leaves}
use funcodes.HashMap.Family.{Family, IsOutside, Family-less, Family-outside}
use funcodes.HashMap.Spares.{reclaim-Reclaimed}
use funcodes.HashMap.Contents.{Keyed, Keyed-without, look, look-split, look-without, value_of}
use funcodes.HashMap.Access.{
  WellFormed, home, node_at, home_lt, hash_result-home, find_in-node_at, node_at-node, contents,
}

-- The lists after a node has gone to the manager, or has been deleted
abbrev handed : Bool → (ℕ → List ℕ) → ℕ → ℕ → List ℕ
handed running xs node = if running then write xs reclaimer (xs reclaimer ++ node ∷ []) else xs

handed-bucket :
    (running : Bool) (xs : ℕ → List ℕ) (node i : ℕ)
    → handed running xs node (bucket i) ≡ xs (bucket i)
handed-bucket true xs node i = ground arith
handed-bucket false xs node i = refl

module _ {ℓ} {V : Type ℓ} (s : HashMap V) (n : ℕ) (xs : ℕ → List ℕ)
    (all : Family n s.links s.lists xs) (room : 2 ≤ n) (now node : ℕ)
    (out : IsOutside n s.lists xs node) (live : s.links.live node ≡ true) where
  reclaim_or_delete-Family :
      Yields
        (λ s'.
          Family n s'.links s'.lists (handed s.running xs node)
          × (s'.entry ≡ s.entry)
          × (s'.bucket_count ≡ s.bucket_count))
        (reclaim_or_delete now node s)
  unfolding reclaim_or_delete
  reclaim_or_delete-Family =
      Yields-bind (reclaim-Reclaimed s n xs all room now node out live) λ (s', b) r.
        elim (Bool-cases b) [
          | inl on ↦ rw on (yields (r.family, r.entry, r.kept.0))
          | inr off ↦
              let off' : s.running ≡ false = sym r.said ∙ off in
              let (l, ls) = r.ended off' in
              let nonnull : (node == null) ≡ false = ground (arith, all.dead) in
              let f : Family n (free s.links node) s.lists xs =
                Family-outside n s.links s.lists xs all (free s.links node) node out nonnull
                  (unfold free in λ k h. ground arith) (unfold free in λ k h. refl)
                  (unfold free in λ k h. refl) in
              rw off (yields (rw (l, ls) (simp off' f), r.entry, r.kept.0))
        ]

module _ {ℓ} {V : Type ℓ} (hash : ℕ → ℕ) (s : HashMap V) (xs : ℕ → List ℕ) (key now : ℕ)
    (well : WellFormed hash s xs) where
  -- What erase does, on the map
  abbrev pub Erases : Option ℕ → HashMap V × ℕ → Type ℓ
  Erases none (s', count) = (s' ≡ s) × (count ≡ 0)
  Erases (some p) (s', count) =
      (count ≡ 1)
      × ((ys : ℕ → List ℕ) × WellFormed hash s' ys
          × ((j : ℕ) → contents hash s' ys j ≡ (if j == key then none else contents hash s xs j)))

  erase-absent :
      (rounds : ℕ)
      → find_in rounds key (home hash s key) s ≡ some null
      → erase hash rounds now key s ≡ some (s, 0)
  unfolding erase erase_in
  erase-absent rounds e = rw (hash_result-home hash s xs key well, e) refl

  erase-found :
      (rounds p : ℕ)
      → find_in rounds key (home hash s key) s ≡ some p
      → (p == null) ≡ false
      → erase hash rounds now key s ≡ (do
        (b, l) ← detach_node (s.lists (bucket (home hash s key))) p s.links
        s' ← reclaim_or_delete now p (put_list s (bucket (home hash s key)) b l)
        some (s', 1))
  unfolding erase erase_in
  erase-found rounds p e node = rw (hash_result-home hash s xs key well, e, node) refl

  -- The lists without the node
  abbrev left : List ℕ → List ℕ → ℕ → ℕ → List ℕ
  left ys zs p = handed s.running (write xs (bucket (home hash s key)) (ys ++ zs)) p

  left-bucket :
      (ys zs : List ℕ) (p i : ℕ)
      → left ys zs p (bucket i) ≡ (if home hash s key == i then ys ++ zs else xs (bucket i))
  left-bucket ys zs p i =
      handed-bucket s.running (write xs (bucket (home hash s key)) (ys ++ zs)) p i
      ∙ (elim (Bool-cases (home hash s key == i)) [
        | inl e ↦
            let e' : (bucket (home hash s key) == bucket i) ≡ true = ground arith in rw (e, e') refl
        | inr e ↦
            let e' : (bucket (home hash s key) == bucket i) ≡ false = ground arith in
            rw (e, e') refl
      ])

  module _ (p : ℕ) (ys zs : List ℕ) (v : V) (split : xs (bucket (home hash s key)) ≡ ys ++ p ∷ zs)
      (here : s.entry p ≡ some (key, v)) (once : look s.entry key (ys ++ zs) ≡ none) where
    left-Keyed :
        (i : ℕ) → i < s.bucket_count → Keyed hash s.bucket_count s.entry i (left ys zs p (bucket i))
    left-Keyed i below = elim (Bool-cases (home hash s key == i)) [
      | inl e ↦
          let at : home hash s key ≡ i = ground arith in
          let k : Keyed hash s.bucket_count s.entry i (ys ++ p ∷ zs) =
            subst (λ (t : List ℕ). Keyed hash s.bucket_count s.entry i t)
              (ap (λ (t : ℕ). xs (bucket t)) (sym at) ∙ split) (well.keyed i below) in
          rw (left-bucket ys zs p i, e) (Keyed-without hash s.bucket_count s.entry i ys p zs k)
      | inr e ↦ rw (left-bucket ys zs p i, e) (well.keyed i below)
    ]

    left-contents :
        (j : ℕ)
        → value_of s.entry (look s.entry j (left ys zs p (bucket (home hash s j))))
          ≡ (if j == key then none else contents hash s xs j)
    left-contents j = elim (Bool-cases (home hash s key == home hash s j)) [
      | inl e ↦
          let at : home hash s key ≡ home hash s j = ground arith in
          let split' : xs (bucket (home hash s j)) ≡ ys ++ p ∷ zs =
            ap (λ (t : ℕ). xs (bucket t)) (sym at) ∙ split in
          rw (left-bucket ys zs p (home hash s j), e)
            (elim (Bool-cases (j == key)) [
              | inl same ↦
                  let k : j ≡ key = ground arith in
                  rw (same, (ap (λ (t : ℕ). look s.entry t (ys ++ zs)) k ∙ once)) refl
              | inr other ↦ rw (other, split', look-without s.entry j key v ys p zs here other) refl
            ])
      | inr e ↦
          let other : (j == key) ≡ false = ground arith in
          rw (left-bucket ys zs p (home hash s j), e, other) refl
    ]

    -- The node leaves its bucket and goes to the manager, or is deleted.
    erase-WellFormed :
        Yields {A = HashMap V × ℕ}
          (λ (s', count).
            (count ≡ 1)
            × WellFormed hash s' (left ys zs p)
            × (s'.entry ≡ s.entry)
            × (s'.bucket_count ≡ s.bucket_count))
          (do
            (b, l) ← detach_node (s.lists (bucket (home hash s key))) p s.links
            s' ← reclaim_or_delete now p (put_list s (bucket (home hash s key)) b l)
            some (s', 1))
    erase-WellFormed =
        let i = home hash s key in
        let bound : bucket i < s.bucket_count + 2 = omega (arith, home_lt hash s xs key well) in
        let b = s.lists (bucket i) in
        let e : Ends s.links b (ys ++ p ∷ zs) = rw split at (well.family.ends (bucket i) bound) in
        let live : s.links.live p ≡ true =
          Chain-has s.links b.begin (ys ++ p ∷ zs) b.end e.chain p
            (ground (arith, has-append p ys (p ∷ zs))) in
        Yields-bind (detach_node-Leaves s.links b ys p zs e) λ (b', l') (begin, ends, same).
          let (f, out) =
            Family-less (s.bucket_count + 2) s.links s.lists xs well.family (bucket i) l' b' ys p zs
              bound split begin ends same in
          Yields-bind
            (reclaim_or_delete-Family (put_list s (bucket i) b' l') (s.bucket_count + 2)
              (write xs (bucket i) (ys ++ zs)) f (omega arith) now p out (rw same.live live))
            λ s' (family, entry, count). yields (
              refl,
              record {
                family = rw count family;
                some_bucket = rw count well.some_bucket;
                keyed = rw (count, entry) left-Keyed;
              },
              entry,
              count,
            )

  -- On a well-formed map, with more rounds than the bucket has nodes: erase of a key that the map
  -- has returns 1 and leaves a map without the key and with all else as before, whether the
  -- manager takes the node or it is deleted. Of a key that the map does not have it returns 0 and
  -- changes nothing.
  pub erase-Erases :
      (rounds : ℕ)
      → length (xs (bucket (home hash s key))) < rounds
      → Yields (Erases (node_at hash s xs key)) (erase hash rounds now key s)
  erase-Erases rounds fuel =
      let e = find_in-node_at hash s xs key well rounds fuel in
      elim (Option-cases (node_at hash s xs key)) [
        | inl absent ↦
            let e' : find_in rounds key (home hash s key) s ≡ some null = rw absent at e in
            rw (absent, erase-absent rounds e') (yields (refl, refl))
        | inr (p, there) ↦
            let e' : find_in rounds key (home hash s key) s ≡ some p = rw there at e in
            let (ys, zs, v, split, here, once) =
              look-split hash s.bucket_count s.entry (home hash s key) key
                (xs (bucket (home hash s key))) p
                (well.keyed (home hash s key) (home_lt hash s xs key well)) there in
            rw (there, erase-found rounds p e' (node_at-node hash s xs key well p there))
              (Yields-map (erase-WellFormed p ys zs v split here once)
                λ (s', n) (one, well', entry, count). (
                  one,
                  (
                    left ys zs p,
                    well',
                    λ j. rw (entry, count) (left-contents p ys zs v split here once j),
                  ),
                ))
      ]
