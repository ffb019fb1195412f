-- ===== src/HashMap/Contents.antt =====
-- What the map of c++/utils/cache/concurrent_hashmap.h has under each key.
use funcodes.Prelude.{
  ℕ, zero, suc, ◌%◌, ◌<◌, ◌≡◌, refl, ◌∙◌, ap, Bool, true, false, List, [], ◌∷◌, ◌++◌, Option, none,
  some, arith, ◌==◌, Bool-cases, Option-cases, inl, inr, length, if◌then◌else◌,
}
use funcodes.Links.{null, get_next, has, Chain, Chain-live}
use funcodes.HashMap.{HashMap, find_from}

abbrev pub node_or_null : Option ℕ → ℕ
node_or_null none = null
node_or_null (some p) = p

module _ {ℓ} {V : Type ℓ} where
  -- The first node of a list that has the key
  abbrev pub matches : Option (ℕ × V) → ℕ → Bool
  matches none key = false
  matches (some (k, v)) key = key == k

  unfoldable pub look : (ℕ → Option (ℕ × V)) → ℕ → List ℕ → Option ℕ
  look entry key [] = none
  look entry key (x ∷ xs) = if matches (entry x) key then some x else look entry key xs

  -- Each node of the bucket has an entry, whose key belongs in the bucket and is in no node behind.
  abbrev pub Keyed : (ℕ → ℕ) → ℕ → (ℕ → Option (ℕ × V)) → ℕ → List ℕ → Type ℓ
  Keyed hash count entry i [] = Unit
  Keyed hash count entry i (x ∷ xs) =
      ((k : ℕ) × (v : V) × (entry x ≡ some (k, v))
        × (hash k % count ≡ i)
        × (look entry k xs ≡ none))
      × Keyed hash count entry i xs

  abbrev pub entry_value : Option (ℕ × V) → Option V
  entry_value none = none
  entry_value (some (k, v)) = some v

  -- The value under a key
  abbrev pub value_of : (ℕ → Option (ℕ × V)) → Option ℕ → Option V
  value_of entry none = none
  value_of entry (some p) = entry_value (entry p)

  pub look-has :
      (entry : ℕ → Option (ℕ × V)) (key : ℕ) (xs : List ℕ) (p : ℕ)
      → look entry key xs ≡ some p
      → has p xs ≡ true
  unfolding look
  look-has entry key [] p e = absurd (cc e)
  look-has entry key (x ∷ xs) p e = ground (arith, look-has entry key xs p)

  pub look-append-none :
      (entry : ℕ → Option (ℕ × V)) (key : ℕ) (xs ys : List ℕ)
      → look entry key xs ≡ none
      → look entry key (xs ++ ys) ≡ look entry key ys
  unfolding look
  look-append-none entry key [] ys e = refl
  look-append-none entry key (x ∷ xs) ys e = ground (arith, look-append-none entry key xs ys)

  pub look-append-some :
      (entry : ℕ → Option (ℕ × V)) (key : ℕ) (xs ys : List ℕ) (p : ℕ)
      → look entry key xs ≡ some p
      → look entry key (xs ++ ys) ≡ some p
  unfolding look
  look-append-some entry key [] ys p e = absurd (cc e)
  look-append-some entry key (x ∷ xs) ys p e = ground (arith, look-append-some entry key xs ys p)

  -- The nodes of a list alone count.
  pub look-frame :
      (entry entry' : ℕ → Option (ℕ × V)) (key : ℕ) (xs : List ℕ)
      → ((k : ℕ) → has k xs ≡ true → entry' k ≡ entry k)
      → look entry' key xs ≡ look entry key xs
  unfolding look
  look-frame entry entry' key [] same = refl
  look-frame entry entry' key (x ∷ xs) same =
      rw (same x (ground arith), look-frame entry entry' key xs (λ k h. same k (ground arith))) refl

  module _ (hash : ℕ → ℕ) (count : ℕ) where
    pub Keyed-frame :
        (entry entry' : ℕ → Option (ℕ × V)) (i : ℕ) (xs : List ℕ)
        → Keyed hash count entry i xs
        → ((k : ℕ) → has k xs ≡ true → entry' k ≡ entry k)
        → Keyed hash count entry' i xs
    Keyed-frame entry entry' i [] keyed same = tt
    Keyed-frame entry entry' i (x ∷ xs) ((k, v, e, h, l), keyed) same = (
      (
        k,
        v,
        same x (ground arith) ∙ e,
        h,
        look-frame entry entry' k xs (λ k h. same k (ground arith)) ∙ l,
      ),
      Keyed-frame entry entry' i xs keyed (λ k h. same k (ground arith)),
    )

    -- The loop of Find stops at the node with the key, or at null.
    pub find_from-look :
        (rounds key : ℕ) (s : HashMap V) (i a : ℕ) (xs : List ℕ) (b : ℕ)
        → Chain s.links a xs b
        → s.links.next b ≡ null
        → s.links.live null ≡ false
        → Keyed hash count s.entry i xs
        → length xs < rounds
        → find_from rounds key s (s.links.next a) ≡ some (node_or_null (look s.entry key xs))
    unfolding find_from get_next look
    find_from-look zero key s i a xs b c stops dead keyed fuel = absurd (omega arith)
    find_from-look (suc rounds) key s i a [] b (u, e) stops dead keyed fuel =
        let stop : s.links.next a ≡ null = rw e stops in rw stop refl
    find_from-look (suc rounds) key s i a (x ∷ xs) b (u, n, p, c) stops dead
          ((k, v, e, h, l), keyed) fuel =
        let live = Chain-live s.links x xs b c in
        let node : (x == null) ≡ false = ground arith in
        let ih = find_from-look rounds key s i x xs b c stops dead keyed (omega arith) in
        rw (n, node, e, live) (ground (arith, ih))

    -- A node with a new key at the end
    pub Keyed-snoc :
        (entry entry' : ℕ → Option (ℕ × V)) (i : ℕ) (xs : List ℕ) (q key : ℕ) (v : V)
        → Keyed hash count entry i xs
        → ((k : ℕ) → has k xs ≡ true → entry' k ≡ entry k)
        → entry' q ≡ some (key, v)
        → hash key % count ≡ i
        → look entry key xs ≡ none
        → Keyed hash count entry' i (xs ++ q ∷ [])
    unfolding look
    Keyed-snoc entry entry' i [] q key v keyed same e h l = ((key, v, e, h, refl), tt)
    Keyed-snoc entry entry' i (x ∷ xs) q key v ((k, w, e', h', l'), keyed) same e h l =
        let other : (key == k) ≡ false = ground (arith, e') in
        let l1 : look entry key xs ≡ none = ground (arith, e') in
        let flip : (k == key) ≡ false = ground arith in
        let alone : look entry' k (q ∷ []) ≡ none = rw (e, flip) refl in
        let here = look-frame entry entry' k xs (λ k h. same k (ground arith)) ∙ l' in
        (
          (
            k,
            w,
            same x (ground arith) ∙ e',
            h',
            look-append-none entry' k xs (q ∷ []) here ∙ alone,
          ),
          Keyed-snoc entry entry' i xs q key v keyed (λ k h. same k (ground arith)) e h l1,
        )

  -- A list without one of its nodes
  look-without-none :
      (entry : ℕ → Option (ℕ × V)) (key : ℕ) (ys : List ℕ) (p : ℕ) (zs : List ℕ)
      → look entry key (ys ++ p ∷ zs) ≡ none
      → look entry key (ys ++ zs) ≡ none
  unfolding look
  look-without-none entry key [] p zs e = ground arith
  look-without-none entry key (y ∷ ys) p zs e = ground (arith, look-without-none entry key ys p zs)

  pub look-without :
      (entry : ℕ → Option (ℕ × V)) (j key : ℕ) (v : V) (ys : List ℕ) (p : ℕ) (zs : List ℕ)
      → entry p ≡ some (key, v)
      → (j == key) ≡ false
      → look entry j (ys ++ zs) ≡ look entry j (ys ++ p ∷ zs)
  unfolding look
  look-without entry j key v [] p zs e other = rw (e, other) refl
  look-without entry j key v (y ∷ ys) p zs e other =
      ground (arith, look-without entry j key v ys p zs e other)

  module _ (hash : ℕ → ℕ) (count : ℕ) (entry : ℕ → Option (ℕ × V)) (i : ℕ) where
    pub Keyed-without :
        (ys : List ℕ) (p : ℕ) (zs : List ℕ)
        → Keyed hash count entry i (ys ++ p ∷ zs)
        → Keyed hash count entry i (ys ++ zs)
    Keyed-without [] p zs keyed = keyed.1
    Keyed-without (y ∷ ys) p zs ((k, v, e, h, l), keyed) =
        ((k, v, e, h, look-without-none entry k ys p zs l), Keyed-without ys p zs keyed)

    -- Where the node with a key stands, with no other of that key around it
    pub look-split :
        (key : ℕ) (xs : List ℕ) (p : ℕ)
        → Keyed hash count entry i xs
        → look entry key xs ≡ some p
        → (ys zs : List ℕ) × (v : V) × (xs ≡ ys ++ p ∷ zs)
          × (entry p ≡ some (key, v))
          × (look entry key (ys ++ zs) ≡ none)
    unfolding look
    look-split key [] p keyed e = absurd (cc e)
    look-split key (x ∷ xs) p ((k, v, e', h, l), keyed) e = elim (Bool-cases (key == k)) [
      | inl here ↦
          let e1 : ◌≡◌ {A = Option ℕ} (some x) (some p) = rw (e', here) at e in
          let at : x ≡ p = ground arith in
          let same : k ≡ key = ground arith in
          ([], xs, v, rw at refl, rw (← at, e', same) refl, rw (← same) l)
      | inr there ↦
          let e'' : look entry key xs ≡ some p = rw (e', there) at e in
          let (ys, zs, w, s, f, n) = look-split key xs p keyed e'' in
          (x ∷ ys, zs, w, ap (λ (t : List ℕ). x ∷ t) s, f, rw (e', there) n)
    ]

  -- The value under a key, in a list whose entries are the same, and with a node at its end
  pub value_of-frame :
      (entry entry' : ℕ → Option (ℕ × V)) (key : ℕ) (xs : List ℕ)
      → ((k : ℕ) → has k xs ≡ true → entry' k ≡ entry k)
      → value_of entry' (look entry' key xs) ≡ value_of entry (look entry key xs)
  value_of-frame entry entry' key xs same =
      let f = look-frame entry entry' key xs same in
      elim (Option-cases (look entry key xs)) [
        | inl e ↦ rw (f, e) refl
        | inr (p, e) ↦ rw (f, e, same p (look-has entry key xs p e)) refl
      ]

  pub value_of-snoc :
      (entry entry' : ℕ → Option (ℕ × V)) (j : ℕ) (xs : List ℕ) (q key : ℕ) (v : V)
      → ((k : ℕ) → has k xs ≡ true → entry' k ≡ entry k)
      → entry' q ≡ some (key, v)
      → look entry key xs ≡ none
      → value_of entry' (look entry' j (xs ++ q ∷ []))
        ≡ (if j == key then some v else value_of entry (look entry j xs))
  unfolding look
  value_of-snoc entry entry' j xs q key v same e absent =
      let f = look-frame entry entry' j xs same in
      elim (Bool-cases (j == key)) [
        | inl here ↦
            let at : j ≡ key = ground arith in
            let g : look entry' j xs ≡ none = f ∙ rw at absent in
            rw (look-append-none entry' j xs (q ∷ []) g, e, here, e) refl
        | inr there ↦ elim (Option-cases (look entry j xs)) [
          | inl n ↦ rw (look-append-none entry' j xs (q ∷ []) (f ∙ n), e, there, n) refl
          | inr (p, h) ↦
              rw
                (
                  look-append-some entry' j xs (q ∷ []) p (f ∙ h),
                  there,
                  h,
                  same p (look-has entry j xs p h),
                )
                refl
        ]
      ]
