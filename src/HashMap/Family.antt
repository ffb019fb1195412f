-- ===== src/HashMap/Family.antt =====
-- All the lists of the map of c++/utils/cache/concurrent_hashmap.h, its manager's among them.
use funcodes.Prelude.{
  ℕ, ◌<◌, ◌≡◌, ◌∙◌, true, false, List, [], ◌∷◌, ◌++◌, arith, ◌==◌, Bool-cases, inl, inr,
}
use funcodes.Links.{
  Links, null, write, has, Distinct, Distinct-remove, has-append, Chain-last, Chain-frame,
  SameOutside,
}
use funcodes.HashMap.{Bucket}
use funcodes.HashMap.Ends.{Ends, Ends-SameOutside}

abbrev pub span : Bucket → List ℕ → List ℕ
span b xs = b.begin ∷ xs

-- The first `n` lists are chains that have no node in common.
pub record Family (n : ℕ) (l : Links) (lists : ℕ → Bucket) (xs : ℕ → List ℕ) : Type 0 where
  pub ends : (i : ℕ) → i < n → Ends l (lists i) (xs i)
  pub apart :
      (i j k : ℕ)
      → i < n
      → j < n
      → (i == j) ≡ false
      → has k (span (lists i) (xs i)) ≡ true
      → has k (span (lists j) (xs j)) ≡ false
  pub dead : l.live null ≡ false

-- A node in none of the lists
abbrev pub IsOutside : ℕ → (ℕ → Bucket) → (ℕ → List ℕ) → ℕ → Type 0
IsOutside n lists xs k = (i : ℕ) → i < n → has k (span (lists i) (xs i)) ≡ false

module _ (n : ℕ) (l : Links) (lists : ℕ → Bucket) (xs : ℕ → List ℕ)
    (all : Family n l lists xs) where
  -- What happens to a node outside the lists does not matter to them.
  pub Family-outside :
      (l' : Links) (node : ℕ)
      → IsOutside n lists xs node
      → (node == null) ≡ false
      → ((k : ℕ) → (k == node) ≡ false → l'.live k ≡ l.live k)
      → ((k : ℕ) → (k == node) ≡ false → l'.next k ≡ l.next k)
      → ((k : ℕ) → (k == node) ≡ false → l'.pred k ≡ l.pred k)
      → Family n l' lists xs
  Family-outside l' node out nonnull live next pred = record {
    ends = λ i b.
        let e = all.ends i b in
        let o = out i b in
        let last = Chain-last l (lists i).begin (xs i) (lists i).end e.chain in
        record {
          chain =
              Chain-frame l l' (lists i).begin (xs i) (lists i).end e.chain e.distinct
                (λ k h. live k (ground arith)) (λ k h other. next k (ground arith))
                (λ k h. pred k (ground arith));
          stops = next (lists i).end (ground arith) ∙ e.stops;
          distinct = e.distinct;
        };
    apart = all.apart;
    dead = live null (ground arith) ∙ all.dead;
  }

  update-apart :
      (i : ℕ) (b' : Bucket) (ys : List ℕ)
      → ((j k : ℕ)
          → j < n
          → (i == j) ≡ false
          → has k (span (lists j) (xs j)) ≡ true
          → has k (span b' ys) ≡ false)
      → (j j' k : ℕ) → j < n
      → j' < n
      → (j == j') ≡ false
      → has k (span (write lists i b' j) (write xs i ys j)) ≡ true
      → has k (span (write lists i b' j') (write xs i ys j')) ≡ false
  update-apart i b' ys sep j j' k b b'' other h = elim (Bool-cases (i == j)) [
    | inl e ↦
        let there : (i == j') ≡ false = ground arith in
        let h' : has k (span b' ys) ≡ true = rw e at h in
        rw there (elim (Bool-cases (has k (span (lists j') (xs j')))) [
          | inl m ↦ ground (arith, sep j' k b'' there m)
          | inr m ↦ m
        ])
    | inr e ↦
        let h' : has k (span (lists j) (xs j)) ≡ true = rw e at h in
        elim (Bool-cases (i == j')) [
          | inl e' ↦ rw e' (sep j k b e h')
          | inr e' ↦ rw e' (all.apart j j' k b b'' other h')
        ]
  ]

  -- One list after an operation on it
  pub Family-update :
      (i : ℕ) (l' : Links) (b' : Bucket) (ys nodes : List ℕ)
      → i < n
      → Ends l' b' ys
      → SameOutside nodes l l'
      → ((j k : ℕ)
          → j < n
          → (i == j) ≡ false
          → has k (span (lists j) (xs j)) ≡ true
          → (has k nodes ≡ false) × (has k (span b' ys) ≡ false))
      → Family n l' (write lists i b') (write xs i ys)
  Family-update i l' b' ys nodes bound e same sep = record {
    ends = λ j b. elim (Bool-cases (i == j)) [
      | inl here ↦ rw here e
      | inr there ↦ rw there (
          Ends-SameOutside l l' (lists j) (xs j) nodes (all.ends j b) same
            (λ k h. (sep j k b there h).0))
    ];
    apart = λ j j' k. update-apart i b' ys (λ j k b o h. (sep j k b o h).1) j j' k;
    dead = rw same.live all.dead;
  }

  -- A list that loses its node `x`
  pub Family-less :
      (i : ℕ) (l' : Links) (b' : Bucket) (ys : List ℕ) (x : ℕ) (zs : List ℕ)
      → i < n
      → xs i ≡ ys ++ x ∷ zs
      → b'.begin ≡ (lists i).begin
      → Ends l' b' (ys ++ zs)
      → SameOutside ((lists i).begin ∷ ys ++ x ∷ zs) l l'
      → Family n l' (write lists i b') (write xs i (ys ++ zs))
        × IsOutside n (write lists i b') (write xs i (ys ++ zs)) x
  Family-less i l' b' ys x zs bound e begin ends same =
      let d : Distinct ((lists i).begin ∷ ys ++ x ∷ zs) = rw e at (all.ends i bound).distinct in
      let out = Distinct-remove ((lists i).begin ∷ ys) zs x d in
      let m : has x ((lists i).begin ∷ ys ++ x ∷ zs) ≡ true =
        ground (arith, has-append x ys (x ∷ zs)) in
      let inside : has x (span (lists i) (xs i)) ≡ true = rw e m in
      (
        Family-update i l' b' (ys ++ zs) ((lists i).begin ∷ ys ++ x ∷ zs) bound ends same
            (λ j k b other h.
              let a : has k ((lists i).begin ∷ ys ++ x ∷ zs) ≡ false =
                rw e at (all.apart j i k b bound (ground arith) h) in
              (a, ground (arith, has-append k ys (x ∷ zs), has-append k ys zs))),
        λ j b. elim (Bool-cases (i == j)) [
          | inl here ↦ rw (here, begin) out.1
          | inr there ↦ rw there (all.apart i j x bound b there inside)
        ],
      )

  -- A list with a node `x` at its end that stood in none
  pub Family-more :
      (i : ℕ) (l' : Links) (b' : Bucket) (x : ℕ)
      → i < n
      → b'.begin ≡ (lists i).begin
      → Ends l' b' (xs i ++ x ∷ [])
      → SameOutside (x ∷ (lists i).begin ∷ xs i) l l'
      → IsOutside n lists xs x
      → Family n l' (write lists i b') (write xs i (xs i ++ x ∷ []))
  Family-more i l' b' x bound begin ends same out =
      Family-update i l' b' (xs i ++ x ∷ []) (x ∷ (lists i).begin ∷ xs i) bound ends same
        λ j k b other h.
          let a = all.apart j i k b bound (ground arith) h in
          let o = out j b in (ground arith, ground (arith, has-append k (xs i) (x ∷ [])))
