-- ===== src/Sort/Merge/Segment.antt =====
-- Segments of an array, as lists.
use funcodes.Prelude.{
  ℕ, zero, suc, ◌+◌, ◌<◌, ◌≡◌, refl, ap, ◌∙◌, List, [], ◌∷◌, ◌++◌, ℤ, length, at, get_or, at-set,
  set, arith,
}

-- The `c` entries from `lo` on.
unfoldable pub seg : List ℤ → ℕ → ℕ → List ℤ
seg a lo zero = []
seg a lo (suc c) = at a lo ∷ seg a (lo + 1) c

pub seg_ext :
    (a b : List ℤ) (lo lo' c : ℕ)
    → ((q : ℕ) → q < c → at a (lo + q) ≡ at b (lo' + q))
    → seg a lo c ≡ seg b lo' c
unfolding seg
seg_ext a b lo lo' zero h = refl
seg_ext a b lo lo' (suc c) h =
    let here : at a lo ≡ at b lo' =
      let e : lo + 0 ≡ lo = omega arith in
      let f : lo' + 0 ≡ lo' = omega arith in rw (e, f) at (h 0 (omega arith)) in
    rw here (
      ap (λ x. at b lo' ∷ x)
        (seg_ext a b (lo + 1) (lo' + 1) c λ q l.
          let e : lo + suc q ≡ lo + 1 + q = omega arith in
          let f : lo' + suc q ≡ lo' + 1 + q = omega arith in
          rw (e, f) at (h (suc q) (omega arith))))

pub seg-append : (a : List ℤ) (lo c d : ℕ) → seg a lo (c + d) ≡ seg a lo c ++ seg a (lo + c) d
unfolding seg
seg-append a lo zero d =
    let e : lo + 0 ≡ lo = omega arith in let f : 0 + d ≡ d = omega arith in rw (e, f) refl
seg-append a lo (suc c) d =
    let e : suc c + d ≡ suc (c + d) = omega arith in
    let f : lo + 1 + c ≡ lo + suc c = omega arith in
    rw e (ap (λ x. at a lo ∷ x) (rw f at (seg-append a (lo + 1) c d)))

pub seg-whole : (a : List ℤ) → seg a 0 (length a) ≡ a
unfolding seg at get_or
seg-whole [] = refl
seg-whole (x ∷ a) =
    ap (λ t. x ∷ t)
      (seg_ext (x ∷ a) a (0 + 1) 0 (length a) (λ q l.
          let e : 0 + 1 + q ≡ suc q = omega arith in
          let f : 0 + q ≡ q = omega arith in rw (e, f) refl)
        ∙ seg-whole a)

-- An entry written behind a segment.
pub seg-set :
    (t : List ℤ) (k : ℕ) (v : ℤ) → k < length t → seg (set t k v) 0 (k + 1) ≡ seg t 0 k ++ v ∷ []
unfolding seg
seg-set t k v h =
    let front : seg (set t k v) 0 k ≡ seg t 0 k =
      seg_ext (set t k v) t 0 0 k λ q l. ground (arith, at-set t k (0 + q) v h) in
    let last : at (set t k v) (0 + k) ≡ v = ground (arith, at-set t k (0 + k) v h) in
    seg-append (set t k v) 0 k 1 ∙ rw (front, last) refl
