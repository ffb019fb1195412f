-- ===== src/LruCache/Access.antt =====
-- Get and Put of c++/utils/cache/lru_cache.h, and the list that each leaves.
use mathlib.Core.List.{append_assoc}
use funcodes.Prelude.{
  ℕ, ◌≡◌, refl, ap, true, false, List, [], ◌∷◌, ◌++◌, Option, none, some, arith, ◌==◌, ltb,
  Bool-cases, Option-cases, inl, inr, if◌then◌else◌, Yields, yields, Yields-bind,
}
use funcodes.Links.{
  Links, write, has, Distinct, Distinct-insert, Distinct-remove, Chain, has-append,
}
use funcodes.LruCache.{head, tail, deadline, LruCache, put_tail, get}
use funcodes.LruCache.Holds.{Holds}
use funcodes.LruCache.Tail.{relink_tail-old}
use funcodes.LruCache.Erasing.{front}
use funcodes.LruCache.Head.{back, front-append}

-- The node of the list with the key
unfoldable pub find_key : (ℕ → ℕ) → ℕ → List ℕ → Option ℕ
find_key key k [] = none
find_key key k (x ∷ xs) = if key x == k then some x else find_key key k xs

unfoldable pub remove : ℕ → List ℕ → List ℕ
remove p [] = []
remove p (x ∷ xs) = if p == x then xs else x ∷ remove p xs

find_key-none :
    (key : ℕ → ℕ) (k : ℕ) (xs : List ℕ) (p : ℕ)
    → find_key key k xs ≡ none
    → has p xs ≡ true
    → (key p == k) ≡ false
unfolding find_key
find_key-none key k [] p e h = absurd (cc h)
find_key-none key k (x ∷ xs) p e h = ground (arith, find_key-none key k xs p)

find_key-some :
    (key : ℕ → ℕ) (k : ℕ) (xs : List ℕ) (q : ℕ)
    → find_key key k xs ≡ some q
    → (has q xs ≡ true) × (key q ≡ k)
unfolding find_key
find_key-some key k [] q e = absurd (cc e)
find_key-some key k (x ∷ xs) q e = ground (arith, find_key-some key k xs q)

-- Where a node stands in the list
has-split :
    (p : ℕ) (order : List ℕ)
    → has p order ≡ true
    → (xs ys : List ℕ) × (order ≡ xs ++ p ∷ ys) × (remove p order ≡ xs ++ ys)
unfolding remove
has-split p [] h = absurd (cc h)
has-split p (x ∷ xs) h = elim (Bool-cases (p == x)) [
  | inl e ↦ ([], xs, ground arith, rw e refl)
  | inr e ↦
      let (as', bs, s, r) = has-split p xs (ground arith) in
      (x ∷ as', bs, ap (λ (t : List ℕ). x ∷ t) s, rw e (ap (λ (t : List ℕ). x ∷ t) r))
]

module _ {ℓ} {V : Type ℓ} (c : LruCache V) where
  -- The map and the list agree.
  pub find_key-underly :
      (order : List ℕ) (k : ℕ) → Holds c order → find_key c.key k order ≡ c.underly k
  find_key-underly order k holds = elim (Option-cases (find_key c.key k order)) [
    | inl e ↦ elim (Option-cases (c.underly k)) [
      | inl u ↦ rw (e, u) refl
      | inr (p, u) ↦
          let m = holds.mapped k p u in
          let q = find_key-none c.key k order p e m.0 in absurd (ground arith)
    ]
    | inr (q, e) ↦
        let m = find_key-some c.key k order q e in let l = holds.listed q m.0 in rw e (ground arith)
  ]

  Holds-moved :
      (now p : ℕ) (xs ys : List ℕ)
      → Holds c (xs ++ p ∷ ys)
      → (l' : Links) → Chain l' head ((xs ++ ys) ++ p ∷ tail ∷ []) tail
      → l'.live ≡ c.links.live
      → Holds
          (record c { links = l'; expire_time = write c.expire_time p (deadline now c.timeout) })
          ((xs ++ ys) ++ p ∷ [])
  Holds-moved now p xs ys holds l' chain live =
      let close = append_assoc (xs ++ ys) (p ∷ []) (tail ∷ []) in
      let d : Distinct (head ∷ xs ++ p ∷ (ys ++ tail ∷ [])) =
        rw (append_assoc xs (p ∷ ys) (tail ∷ [])) at holds.distinct in
      let cut = Distinct-remove (head ∷ xs) (ys ++ tail ∷ []) p d in
      let e = append_assoc xs ys (tail ∷ []) in
      let inner : (p == tail) ≡ false =
        ground (arith, cut.1, has-append p xs (ys ++ tail ∷ []), has-append p ys (tail ∷ [])) in
      let same : (k : ℕ) → has k ((xs ++ ys) ++ p ∷ []) ≡ has k (xs ++ p ∷ ys) = λ k.
        ground
          (arith, has-append k (xs ++ ys) (p ∷ []), has-append k xs ys, has-append k xs (p ∷ ys)) in
      record {
        chain = rw close chain;
        distinct =
            rw close (Distinct-insert (head ∷ (xs ++ ys)) (tail ∷ []) p (rw e cut.0) (rw e cut.1));
        dead = rw live holds.dead;
        mapped = λ k q h. let m = holds.mapped k q h in (rw (same q) m.0, m.1);
        listed = λ q h. holds.listed q (rw (same q) at h);
        stays = rw inner holds.stays;
      }

  -- PutTail of a node of the list
  put_tail-Holds :
      (now p : ℕ) (order : List ℕ)
      → Holds c order
      → has p order ≡ true
      → Yields
          (λ c'.
            Holds c' (remove p order ++ p ∷ [])
            × (c'.key ≡ c.key)
            × (c'.value ≡ c.value)
            × (c'.expire_time ≡ write c.expire_time p (deadline now c.timeout)))
          (put_tail now p c)
  unfolding put_tail
  put_tail-Holds now p order holds h =
      let (xs, ys, s, r) = has-split p order h in
      let holds' : Holds c (xs ++ p ∷ ys) = rw s at holds in
      let gap : (xs ++ p ∷ ys) ++ tail ∷ [] ≡ xs ++ p ∷ (ys ++ tail ∷ []) =
        append_assoc xs (p ∷ ys) (tail ∷ []) in
      let f = front-append ys in
      rw r (
        Yields-bind
          (relink_tail-old c.links p xs (front ys) ys (back ys) f holds.dead
            (rw f at (rw gap at holds'.chain)) (rw f at (rw gap at holds'.distinct)))
          λ l' t. yields (Holds-moved now p xs ys holds' l' t.0 t.1, refl, refl, refl))

  -- What Get does, on the list: the node with the key, if its time has run out, goes to the end and
  -- gets a new time; nothing else changes the cache.
  abbrev pub Gets : ℕ → ℕ → List ℕ → Option ℕ → LruCache V × Option V → Type ℓ
  Gets now later order none (c', r) = (c' ≡ c) × (r ≡ none)
  Gets now later order (some p) (c', r) =
      if ltb (c.expire_time p) now
      then ((r ≡ c.value p)
          × Holds c' (remove p order ++ p ∷ [])
          × (c'.expire_time ≡ write c.expire_time p (deadline later c.timeout)))
      else ((c' ≡ c) × (r ≡ none))

  -- On a cache whose list agrees with its map: after Get the cache holds the list that the
  -- abstract operation leaves: a node with the key whose time lies before `now` goes to the end
  -- with a new time, and its value is the result; with no such node the cache is as before and the
  -- result is null.
  pub get-Gets :
      (now later k : ℕ) (order : List ℕ)
      → Holds c order
      → Yields (Gets now later order (find_key c.key k order)) (get now later k c)
  unfolding get
  get-Gets now later k order holds =
      let agree = find_key-underly order k holds in
      elim (Option-cases (c.underly k)) [
        | inl u ↦ rw (agree, u, get) (yields (refl, refl))
        | inr (p, u) ↦ elim (Bool-cases (ltb (c.expire_time p) now)) [
          | inl e ↦
              rw (agree, u, get, e)
                (Yields-bind (put_tail-Holds later p order holds (holds.mapped k p u).0)
                  λ c' (h, same_key, same_value, t). yields (rw e (rw same_value refl, h, t)))
          | inr e ↦ rw (agree, u, get, e) (yields (rw e (refl, refl)))
        ]
      ]
