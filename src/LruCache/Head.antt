-- ===== src/LruCache/Head.antt =====
-- PopHead: the cache that it leaves.
use mathlib.Core.List.{append_assoc}
use funcodes.Prelude.{
  ℕ, ◌+◌, ◌≤◌, ◌<◌, ◌≡◌, refl, sym, ap, true, false, List, [], ◌∷◌, ◌++◌, some, arith, ◌==◌, ltb,
  Bool-cases, inl, inr, length, Yields, Yields-map,
}
use funcodes.Links.{
  null, get_next, set_pred, set_next, has, Distinct, Distinct-suffix, Distinct-prefix,
  Distinct-apart, Chain, has-append, Chain-live, Chain-has, Chain-frame, relink, Chain-drop,
  Chain-suffix,
}
use funcodes.LruCache.{head, tail, never_timeout, LruCache, skip, erase_until, pop_head}
use funcodes.LruCache.Holds.{Holds, expired_prefix, drop_expired}
use funcodes.LruCache.Erasing.{
  front, Walk, Walk-relink, append-expired, skip-front, Erased, erase_until-Erased, Chain-Walk,
}

module _ {ℓ} {V : Type ℓ} (rounds now : ℕ) (c : LruCache V) where
  pub pop_head-empty : Holds c [] → pop_head rounds now c ≡ some c
  unfolding pop_head get_next
  pop_head-empty holds = ground (arith, holds.chain)

  -- The effect of the writes before the second loop
  abbrev cut : ℕ → LruCache V
  cut next = record c { links = relink c.links head next }

  pop_head-eq :
      (first next : ℕ)
      → c.links.live head ≡ true
      → c.links.next head ≡ first
      → (first == tail) ≡ false
      → c.links.live first ≡ true
      → skip rounds now c (c.links.next first) ≡ some next
      → c.links.live next ≡ true
      → pop_head rounds now c ≡ erase_until rounds next first (cut next)
  unfolding pop_head get_next set_next set_pred
  pop_head-eq first next u e out v s w = rw (u, e, out, v, s, w) refl

  -- What leaves the list when the part in front of `kept` is erased
  module _ (gone kept : List ℕ) (holds : Holds c (gone ++ kept)) where
    assoc : (gone ++ kept) ++ tail ∷ [] ≡ gone ++ (kept ++ tail ∷ [])
    assoc = append_assoc gone kept (tail ∷ [])

    all_Distinct : Distinct (head ∷ gone ++ (kept ++ tail ∷ []))
    all_Distinct = rw assoc at holds.distinct

    kept_Distinct : Distinct (head ∷ kept ++ tail ∷ [])
    kept_Distinct = (
      ground (arith, all_Distinct.0, has-append head gone (kept ++ tail ∷ [])),
      Distinct-suffix gone (kept ++ tail ∷ []) all_Distinct.1,
    )

    apart : (k : ℕ) → has k gone ≡ true → has k (kept ++ tail ∷ []) ≡ false
    apart = Distinct-apart gone (kept ++ tail ∷ []) all_Distinct.1

    head_out : has head gone ≡ false
    head_out = ground (arith, all_Distinct.0, has-append head gone (kept ++ tail ∷ []))

    module _ (y : ℕ) (ys : List ℕ) (e : kept ++ tail ∷ [] ≡ y ∷ ys) where
      Chain-split : Chain c.links head (gone ++ y ∷ ys) tail
      Chain-split = rw e at (rw assoc at holds.chain)

      stop_out : has y gone ≡ false
      stop_out =
          let m : has y (kept ++ tail ∷ []) ≡ true = rw e (ground arith) in
          elim (Bool-cases (has y gone)) [ inl h ↦ ground (arith, apart y h) | inr h ↦ h ]

    Chain-cut :
        (y : ℕ) (ys : List ℕ)
        → kept ++ tail ∷ [] ≡ y ∷ ys
        → Chain (relink c.links head y) head (kept ++ tail ∷ []) tail
    Chain-cut y ys e =
        let d : Distinct (head ∷ gone ++ y ∷ ys) = rw e at all_Distinct in
        let d' : Distinct (head ∷ y ∷ ys) = rw e at kept_Distinct in
        rw e (Chain-drop c.links head gone y ys tail (Chain-split y ys e) d d'.1)

    Holds-cut :
        (y : ℕ) (ys : List ℕ)
        → kept ++ tail ∷ [] ≡ y ∷ ys
        → has head gone ≡ false
        → (c' : LruCache V) → Erased gone (cut y) c'
        → Holds c' kept
    Holds-cut y ys e out c' r = record {
      chain =
          Chain-frame (relink c.links head y) c'.links head (kept ++ tail ∷ []) tail
            (Chain-cut y ys e) kept_Distinct (λ k h. ground (arith, r.live k, apart k))
            (λ k h other. rw r.next refl) (λ k h. rw r.pred refl);
      distinct = kept_Distinct;
      dead = r.freed null holds.dead;
      mapped = λ k p h.
          let m = holds.mapped k p (r.old k p h) in
          ground (arith, has-append p gone kept, r.none_left p, r.same.0);
      listed = λ p h.
          let l = holds.listed p (ground (arith, has-append p gone kept)) in
          let q = r.others (c.key p) (λ q m.
            let l' = holds.listed q (ground (arith, has-append q gone kept)) in
            let a = apart q m in ground (arith, has-append q kept (tail ∷ []))) in
          rw (r.same.0, q) l;
      stays = rw r.same.2 holds.stays;
    }

abbrev pub back : List ℕ → List ℕ
back [] = []
back (x ∷ xs) = xs ++ tail ∷ []

pub front-append : (xs : List ℕ) → xs ++ tail ∷ [] ≡ front xs ∷ back xs
front-append [] = refl
front-append (x ∷ xs) = refl

pub length-drop_expired :
    (expire : ℕ → ℕ) (now : ℕ) (xs : List ℕ) → length (drop_expired expire now xs) ≤ length xs
unfolding drop_expired
length-drop_expired expire now [] = omega arith
length-drop_expired expire now (x ∷ xs) = ground (arith, length-drop_expired expire now xs)

length-expired_prefix :
    (expire : ℕ → ℕ) (now : ℕ) (xs : List ℕ) → length (expired_prefix expire now xs) ≤ length xs
unfolding expired_prefix
length-expired_prefix expire now [] = omega arith
length-expired_prefix expire now (x ∷ xs) = ground (arith, length-expired_prefix expire now xs)

-- The list loses its first node and the expired ones behind it; no field of a node changes, nor do
-- the numbers of the cache.
abbrev pub Popped {ℓ} : {V : Type ℓ} → LruCache V → List ℕ → LruCache V → Type ℓ
Popped c kept c' =
    Holds c' kept
    × (c'.key ≡ c.key)
    × (c'.value ≡ c.value)
    × (c'.expire_time ≡ c.expire_time)
    × (c'.max_size ≡ c.max_size)
    × (c'.current_size ≡ c.current_size)
    × (c'.timeout ≡ c.timeout)

pub pop_head-Popped {ℓ} :
    {V : Type ℓ} (rounds now : ℕ) (c : LruCache V) (first : ℕ) (rest : List ℕ)
    → Holds c (first ∷ rest)
    → length rest + 1 < rounds
    → now ≤ never_timeout
    → Yields (Popped c (drop_expired c.expire_time now rest)) (pop_head rounds now c)
pop_head-Popped rounds now c first rest holds fuel early =
    let kept = drop_expired c.expire_time now rest in
    let gone = first ∷ expired_prefix c.expire_time now rest in
    let e : first ∷ rest ≡ gone ++ kept =
      ap (λ (t : List ℕ). first ∷ t) (sym (append-expired c.expire_time now rest)) in
    let holds' : Holds c (gone ++ kept) = rw e at holds in
    let f = front-append kept in
    let (u, n, p, ch) = holds.chain in
    let all = Chain-has c.links head (first ∷ rest ++ tail ∷ []) tail holds.chain in
    let d = all_Distinct rounds now c gone kept holds' in
    let g = Distinct-prefix gone (kept ++ tail ∷ []) d.1 in
    let ch' = Chain-split rounds now c gone kept holds' (front kept) (back kept) f in
    let w = Chain-Walk c.links head gone (front kept) (back kept) tail ch' in
    let w' : Walk c.links first gone (front kept) = (refl, w.1, w.2) in
    let out = stop_out rounds now c gone kept holds' (front kept) (back kept) f in
    let never : ltb (c.expire_time tail) now ≡ false = ground (arith, holds.stays) in
    let inner : (first == tail) ≡ false =
      ground (arith, holds.distinct.1.0, has-append first rest (tail ∷ [])) in
    let live =
      Chain-live c.links (front kept) (back kept) tail
        (Chain-suffix c.links head gone (front kept) (back kept) tail ch') in
    let skipped = skip-front c now rounds first rest ch never (omega arith) in
    rw
      (pop_head-eq rounds now c first (front kept) u n inner (all first (ground arith)) skipped
        live)
      (Yields-map
        (erase_until-Erased rounds (cut rounds now c (front kept)) (front kept) first gone
          (Walk-relink c.links head (front kept) first gone (front kept) w'
            (head_out rounds now c gone kept holds'))
          g out (omega (arith, length-expired_prefix c.expire_time now rest)))
        λ c' r. (
          Holds-cut rounds now c gone kept holds' (front kept) (back kept) f
              (head_out rounds now c gone kept holds') c' r,
          r.same.0,
          r.same.1,
          r.same.2,
          r.same.3,
          r.same.4,
          r.same.5,
        ))
