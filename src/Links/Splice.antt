-- ===== src/Links/Splice.antt =====
-- A run of nodes put into a chain.
use funcodes.Prelude.{ℕ, ◌≡◌, refl, true, false, List, [], ◌∷◌, ◌++◌, arith}
use funcodes.Links.Memory.{Links}
use funcodes.Links.Chains.{has, Distinct, Chain, has-append, Chain-last, Chain-frame}
use funcodes.Links.Relink.{relink, Chain-pred}

abbrev pub last_of : ℕ → List ℕ → ℕ
last_of a [] = a
last_of a (x ∷ xs) = last_of x xs

pub Chain-prefix :
    (l : Links) (a : ℕ) (xs : List ℕ) (y : ℕ) (ys : List ℕ) (b : ℕ)
    → Chain l a (xs ++ y ∷ ys) b
    → Chain l a xs (last_of a xs) × (l.next (last_of a xs) ≡ y)
Chain-prefix l a [] y ys b (u, e, f, c) = ((u, refl), e)
Chain-prefix l a (x ∷ xs) y ys b (u, e, f, c) =
    let (p, n) = Chain-prefix l x xs y ys b c in ((u, e, f, p), n)

Chain-join :
    (l : Links) (a : ℕ) (xs : List ℕ) (m y : ℕ) (ys : List ℕ) (b : ℕ)
    → Chain l a xs m
    → l.next m ≡ y
    → l.pred y ≡ m
    → Chain l y ys b
    → Chain l a (xs ++ y ∷ ys) b
Chain-join l a [] m y ys b (u, e) n p c = (u, ground arith, ground arith, c)
Chain-join l a (x ∷ xs) m y ys b (u, e, f, d) n p c = (u, e, f, Chain-join l x xs m y ys b d n p c)

-- The run from `x` through `ps` to `last`, put before `y`
pub Chain-splice :
    (l : Links) (a : ℕ) (xs : List ℕ) (x : ℕ) (ps : List ℕ) (last y : ℕ) (ys : List ℕ) (b : ℕ)
    → Chain l a (xs ++ y ∷ ys) b
    → Distinct (a ∷ xs ++ y ∷ ys)
    → Chain l x ps last
    → Distinct (x ∷ ps)
    → ((k : ℕ) → has k (a ∷ xs ++ y ∷ ys) ≡ true → has k (x ∷ ps) ≡ false)
    → Chain (relink (relink l (l.pred y) x) last y) a (xs ++ x ∷ (ps ++ y ∷ ys)) b
Chain-splice l a [] x ps last y ys b (u, e, f, c) d run d' apart =
    let at_last = Chain-last l x ps last run in
    let at_end = Chain-last l y ys b c in
    let l' = relink (relink l (l.pred y) x) last y in
    let out_a = apart a (ground arith) in
    let out_y = apart y (ground arith) in
    (
      u,
      ground arith,
      ground arith,
      Chain-join l' x ps last y ys b
          (Chain-frame l l' x ps last run d' (λ k _. refl) (λ k h other. ground arith)
            (λ k h. ground arith))
          (ground arith) (ground arith)
          (Chain-frame l l' y ys b c d.1 (λ k _. refl)
            (λ k h _. let o = apart k (ground arith) in ground arith)
            (λ k h. let o = apart k (ground arith) in ground arith)),
    )
Chain-splice l a (z ∷ xs) x ps last y ys b (u, e, f, c) d run d' apart =
    let at_last = Chain-last l x ps last run in
    let back = Chain-pred l z xs y ys b c in
    let out_a = apart a (ground arith) in
    let out_z = apart z (ground arith) in
    let h = has-append a xs (y ∷ ys) in
    let h' = has-append z xs (y ∷ ys) in
    (
      u,
      ground arith,
      ground arith,
      Chain-splice l z xs x ps last y ys b c d.1 run d' (λ k h. apart k (ground arith)),
    )
