-- ===== src/Links/Relink.antt =====
-- A node taken out of a chain, put into it or behind it, as the effect on the fields.
use funcodes.Prelude.{ℕ, ◌≡◌, refl, true, false, List, [], ◌∷◌, ◌++◌, arith}
use funcodes.Links.Memory.{Links, write}
use funcodes.Links.Chains.{
  has, Distinct, Chain, has-append, Chain-live, Chain-has, Chain-last, Chain-frame,
}

-- `b` follows `a`
abbrev pub relink : Links → ℕ → ℕ → Links
relink l a b = record l { next = write l.next a b; pred = write l.pred b a }

-- `x`, which stood nowhere, stands between `a` and `b`
abbrev pub insert_between : Links → ℕ → ℕ → ℕ → Links
insert_between l a x b = relink (relink l a x) x b

module _ (l : Links) where
  pub Chain-pred :
      (a : ℕ) (xs : List ℕ) (x : ℕ) (ys : List ℕ) (b : ℕ)
      → Chain l a (xs ++ x ∷ ys) b
      → has (l.pred x) (a ∷ xs) ≡ true
  Chain-pred a [] x ys b c = ground arith
  Chain-pred a (z ∷ xs) x ys b (u, e, f, c) = ground (arith, Chain-pred z xs x ys b c)

  pub Chain-next :
      (a : ℕ) (xs : List ℕ) (x y : ℕ) (ys : List ℕ) (b : ℕ)
      → Chain l a (xs ++ x ∷ y ∷ ys) b
      → l.next x ≡ y
  Chain-next a [] x y ys b (u, e, f, (v, g, h, c)) = g
  Chain-next a (z ∷ xs) x y ys b (u, e, f, c) = Chain-next z xs x y ys b c

  -- Without `x`, when its two neighbours are linked
  pub Chain-unlink :
      (a : ℕ) (xs : List ℕ) (x y : ℕ) (ys : List ℕ) (b : ℕ)
      → Chain l a (xs ++ x ∷ y ∷ ys) b
      → Distinct (a ∷ xs ++ x ∷ y ∷ ys)
      → Chain (relink l (l.pred x) y) a (xs ++ y ∷ ys) b
  Chain-unlink a [] x y ys b (u, e, f, (v, g, h, c)) d =
      let last = Chain-last l y ys b c in
      (
        u,
        ground arith,
        ground arith,
        Chain-frame l (relink l (l.pred x) y) y ys b c d.1.1 (λ k _. refl) (λ k h _. ground arith)
            (λ k h. ground arith),
      )
  Chain-unlink a (z ∷ xs) x y ys b (u, e, f, c) d =
      let m = Chain-pred z xs x (y ∷ ys) b c in
      let h1 = has-append a xs (x ∷ y ∷ ys) in
      let h2 = has-append z xs (x ∷ y ∷ ys) in
      (u, ground arith, ground arith, Chain-unlink z xs x y ys b c d.1)

  -- With `x` before `y`
  pub Chain-insert :
      (a : ℕ) (xs : List ℕ) (x y : ℕ) (ys : List ℕ) (b : ℕ)
      → Chain l a (xs ++ y ∷ ys) b
      → Distinct (a ∷ xs ++ y ∷ ys)
      → has x (a ∷ xs ++ y ∷ ys) ≡ false
      → l.live x ≡ true
      → Chain (insert_between l (l.pred y) x y) a (xs ++ x ∷ y ∷ ys) b
  Chain-insert a [] x y ys b (u, e, f, c) d out live =
      let last = Chain-last l y ys b c in
      (
        u,
        ground arith,
        ground arith,
        (
          live,
          ground arith,
          ground arith,
          Chain-frame l (insert_between l (l.pred y) x y) y ys b c d.1 (λ k _. refl)
              (λ k h _. ground arith) (λ k h. ground arith),
        ),
      )
  Chain-insert a (z ∷ xs) x y ys b (u, e, f, c) d out live =
      let m = Chain-pred z xs y ys b c in
      let h1 = has-append a xs (y ∷ ys) in
      let h2 = has-append z xs (y ∷ ys) in
      let h3 = has-append x xs (y ∷ ys) in
      (u, ground arith, ground arith, Chain-insert z xs x y ys b c d.1 (ground arith) live)

  -- With `x` at the end
  pub Chain-snoc :
      (a : ℕ) (xs : List ℕ) (b x : ℕ)
      → Chain l a xs b
      → Distinct (a ∷ xs)
      → has x (a ∷ xs) ≡ false
      → l.live x ≡ true
      → Chain (relink l b x) a (xs ++ x ∷ []) x
  Chain-snoc a [] b x (u, e) d out live = ground arith
  Chain-snoc a (z ∷ xs) b x (u, e, f, c) d out live =
      let last = Chain-last l z xs b c in
      (u, ground arith, ground arith, Chain-snoc z xs b x c d.1 (ground arith) live)

  pub Chain-suffix :
      (a : ℕ) (xs : List ℕ) (y : ℕ) (ys : List ℕ) (b : ℕ)
      → Chain l a (xs ++ y ∷ ys) b
      → Chain l y ys b
  Chain-suffix a [] y ys b (u, e, f, c) = c
  Chain-suffix a (z ∷ xs) y ys b (u, e, f, c) = Chain-suffix z xs y ys b c

  -- Without the nodes between `a` and `y`, when those two are linked
  pub Chain-drop :
      (a : ℕ) (xs : List ℕ) (y : ℕ) (ys : List ℕ) (b : ℕ)
      → Chain l a (xs ++ y ∷ ys) b
      → Distinct (a ∷ xs ++ y ∷ ys)
      → Distinct (y ∷ ys)
      → Chain (relink l a y) a (y ∷ ys) b
  Chain-drop a xs y ys b c d d' =
      let rest = Chain-suffix a xs y ys b c in
      let last = Chain-last l y ys b rest in
      let h = has-append a xs (y ∷ ys) in
      let out : has a (y ∷ ys) ≡ false = ground (arith, d.0) in
      (
        Chain-live l a (xs ++ y ∷ ys) b c,
        ground arith,
        ground arith,
        Chain-frame l (relink l a y) y ys b rest d' (λ k _. refl) (λ k h _. ground arith)
            (λ k h. ground arith),
      )

  -- What a node `x` of a chain that ends in a sentinel `b` has around it
  pub record Neighbours (a : ℕ) (xs : List ℕ) (x : ℕ) (ys : List ℕ) (b : ℕ) : Type 0 where
    pub before : has (l.pred x) (a ∷ xs) ≡ true
    pub behind : has (l.next x) (ys ++ b ∷ []) ≡ true
    pub live : l.live x ≡ true
    pub live_before : l.live (l.pred x) ≡ true
    pub live_behind : l.live (l.next x) ≡ true
    pub without : Chain (relink l (l.pred x) (l.next x)) a (xs ++ (ys ++ b ∷ [])) b

  Chain-behind :
      (a : ℕ) (xs : List ℕ) (x y : ℕ) (ys : List ℕ) (b : ℕ)
      → Chain l a (xs ++ x ∷ y ∷ ys) b
      → Distinct (a ∷ xs ++ x ∷ y ∷ ys)
      → (has (l.next x) (y ∷ ys) ≡ true) × Chain (relink l (l.pred x) (l.next x)) a (xs ++ y ∷ ys) b
  Chain-behind a xs x y ys b c d =
      let n = Chain-next a xs x y ys b c in rw n (ground arith, Chain-unlink a xs x y ys b c d)

  pub Chain-Neighbours :
      (a : ℕ) (xs : List ℕ) (x : ℕ) (ys : List ℕ) (b : ℕ)
      → Chain l a (xs ++ x ∷ (ys ++ b ∷ [])) b
      → Distinct (a ∷ xs ++ x ∷ (ys ++ b ∷ []))
      → Neighbours a xs x ys b
  Chain-Neighbours a xs x ys b c d =
      let before = Chain-pred a xs x (ys ++ b ∷ []) b c in
      let all = Chain-has l a (xs ++ x ∷ (ys ++ b ∷ [])) b c in
      let (behind, without) =
        (elim ys
            as (λ ys.
              Chain l a (xs ++ x ∷ (ys ++ b ∷ [])) b
              → Distinct (a ∷ xs ++ x ∷ (ys ++ b ∷ []))
              → (has (l.next x) (ys ++ b ∷ []) ≡ true)
                × Chain (relink l (l.pred x) (l.next x)) a (xs ++ (ys ++ b ∷ [])) b) [
                  | [] ↦ Chain-behind a xs x b [] b
                  | y ∷ ys ↦ Chain-behind a xs x y (ys ++ b ∷ []) b
                ])
          c d in
      let h = has-append (l.pred x) xs (x ∷ (ys ++ b ∷ [])) in
      let h' = has-append (l.next x) xs (x ∷ (ys ++ b ∷ [])) in
      let h'' = has-append x xs (x ∷ (ys ++ b ∷ [])) in
      record {
        before = before;
        behind = behind;
        live = all x (ground arith);
        live_before = all (l.pred x) (ground arith);
        live_behind = all (l.next x) (ground arith);
        without = without;
      }
