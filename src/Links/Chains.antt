-- ===== src/Links/Chains.antt =====
-- Chains of linked nodes: which nodes stand behind an address, in order.
use funcodes.Prelude.{
  ℕ, ◌≡◌, refl, Bool, true, false, ◌||◌, List, [], ◌∷◌, ◌++◌, arith, Bool-cases, inl, inr, ◌==◌,
}
use funcodes.Links.Memory.{Links}

abbrev pub has : ℕ → List ℕ → Bool
has a [] = false
has a (x ∷ xs) = (a == x) || has a xs

abbrev pub Distinct : List ℕ → Type 0
Distinct [] = Unit
Distinct (x ∷ xs) = (has x xs ≡ false) × Distinct xs

-- From the node `a` the `next` fields lead through `xs`, the last of which is `b`, and the `pred`
-- fields lead back.
abbrev pub Chain : Links → ℕ → List ℕ → ℕ → Type 0
Chain l a [] b = (l.live a ≡ true) × (a ≡ b)
Chain l a (x ∷ xs) b = (l.live a ≡ true) × (l.next a ≡ x) × (l.pred x ≡ a) × Chain l x xs b

pub has-append : (a : ℕ) (xs ys : List ℕ) → has a (xs ++ ys) ≡ (has a xs || has a ys)
has-append a [] ys = refl
has-append a (x ∷ xs) ys = ground (arith, has-append a xs ys)

pub Chain-live : (l : Links) (a : ℕ) (xs : List ℕ) (b : ℕ) → Chain l a xs b → l.live a ≡ true
Chain-live l a [] b c = c.0
Chain-live l a (x ∷ xs) b c = c.0

pub Chain-has :
    (l : Links) (a : ℕ) (xs : List ℕ) (b : ℕ)
    → Chain l a xs b
    → (k : ℕ) → has k (a ∷ xs) ≡ true
    → l.live k ≡ true
Chain-has l a [] b c k h = ground arith
Chain-has l a (x ∷ xs) b (u, e, f, c) k h = ground (arith, Chain-has l x xs b c k)

pub Chain-last : (l : Links) (a : ℕ) (xs : List ℕ) (b : ℕ) → Chain l a xs b → has b (a ∷ xs) ≡ true
Chain-last l a [] b c = ground arith
Chain-last l a (x ∷ xs) b (u, e, f, c) = ground (arith, Chain-last l x xs b c)

-- A chain does not change with the memory where it has no field.
pub Chain-frame :
    (l l' : Links) (a : ℕ) (xs : List ℕ) (b : ℕ)
    → Chain l a xs b
    → Distinct (a ∷ xs)
    → ((k : ℕ) → has k (a ∷ xs) ≡ true → l'.live k ≡ l.live k)
    → ((k : ℕ) → has k (a ∷ xs) ≡ true → (k == b) ≡ false → l'.next k ≡ l.next k)
    → ((k : ℕ) → has k xs ≡ true → l'.pred k ≡ l.pred k)
    → Chain l' a xs b
Chain-frame l l' a [] b (u, e) d live next pred = (ground (arith, live a), e)
Chain-frame l l' a (x ∷ xs) b (u, e, f, c) d live next pred =
    let last = Chain-last l x xs b c in
    (
      ground (arith, live a),
      ground (arith, next a, last),
      ground (arith, pred x),
      Chain-frame l l' x xs b c d.1 (λ k h. live k (ground arith)) (λ k h. next k (ground arith))
          (λ k h. pred k (ground arith)),
    )

pub Distinct-insert :
    (xs ys : List ℕ) (x : ℕ)
    → Distinct (xs ++ ys)
    → has x (xs ++ ys) ≡ false
    → Distinct (xs ++ x ∷ ys)
Distinct-insert [] ys x d out = (out, d)
Distinct-insert (z ∷ xs) ys x (e, d) out = (
  ground (arith, has-append z xs ys, has-append z xs (x ∷ ys)),
  Distinct-insert xs ys x d (ground arith),
)

pub Distinct-remove :
    (xs ys : List ℕ) (x : ℕ)
    → Distinct (xs ++ x ∷ ys)
    → Distinct (xs ++ ys) × (has x (xs ++ ys) ≡ false)
Distinct-remove [] ys x (e, d) = (d, e)
Distinct-remove (z ∷ xs) ys x (e, d) =
    let ih = Distinct-remove xs ys x d in
    (
      (ground (arith, has-append z xs ys, has-append z xs (x ∷ ys)), ih.0),
      ground (arith, has-append z xs (x ∷ ys), ih.1),
    )

pub Distinct-suffix : (xs ys : List ℕ) → Distinct (xs ++ ys) → Distinct ys
Distinct-suffix [] ys d = d
Distinct-suffix (x ∷ xs) ys d = Distinct-suffix xs ys d.1

pub Distinct-prefix : (xs ys : List ℕ) → Distinct (xs ++ ys) → Distinct xs
Distinct-prefix [] ys d = tt
Distinct-prefix (x ∷ xs) ys d = (ground (arith, has-append x xs ys, d.0), Distinct-prefix xs ys d.1)

-- The parts of a list without repetition have no element in common.
pub Distinct-apart :
    (xs ys : List ℕ) → Distinct (xs ++ ys) → (k : ℕ) → has k xs ≡ true → has k ys ≡ false
Distinct-apart [] ys d k h = absurd (cc h)
Distinct-apart (x ∷ xs) ys d k h =
    ground (arith, has-append x xs ys, d.0, Distinct-apart xs ys d.1 k)

Distinct-append :
    (xs ys : List ℕ)
    → Distinct xs
    → Distinct ys
    → ((k : ℕ) → has k xs ≡ true → has k ys ≡ false)
    → Distinct (xs ++ ys)
Distinct-append [] ys d d' apart = d'
Distinct-append (x ∷ xs) ys d d' apart =
    let a = apart x (ground arith) in
    (
      ground (arith, has-append x xs ys),
      Distinct-append xs ys d.1 d' (λ k h. apart k (ground arith)),
    )

pub Distinct-splice :
    (xs ys zs : List ℕ)
    → Distinct (xs ++ ys)
    → Distinct zs
    → ((k : ℕ) → has k (xs ++ ys) ≡ true → has k zs ≡ false)
    → Distinct (xs ++ (zs ++ ys))
Distinct-splice [] ys zs d d' apart =
    Distinct-append zs ys d' d
      λ k h. elim (Bool-cases (has k ys)) [ inl e ↦ ground (arith, apart k e) | inr e ↦ e ]
Distinct-splice (x ∷ xs) ys zs d d' apart =
    let a = apart x (ground arith) in
    (
      ground (arith, d.0, has-append x xs ys, has-append x xs (zs ++ ys), has-append x zs ys),
      Distinct-splice xs ys zs d.1 d' (λ k h. apart k (ground arith)),
    )

-- The memory is the same but for the links of the nodes of a list.
pub record SameOutside (nodes : List ℕ) (l l' : Links) : Type 0 where
  pub live : l'.live ≡ l.live
  pub next : (k : ℕ) → has k nodes ≡ false → l'.next k ≡ l.next k
  pub pred : (k : ℕ) → has k nodes ≡ false → l'.pred k ≡ l.pred k

pub Distinct-snoc : (xs : List ℕ) (x : ℕ) → Distinct xs → has x xs ≡ false → Distinct (xs ++ x ∷ [])
Distinct-snoc [] x d out = (refl, tt)
Distinct-snoc (y ∷ xs) x d out =
    (ground (arith, has-append y xs (x ∷ [])), Distinct-snoc xs x d.1 (ground arith))
