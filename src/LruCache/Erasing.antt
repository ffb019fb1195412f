-- ===== src/LruCache/Erasing.antt =====
-- The two loops of PopHead: the walk past the expired nodes, and the one that erases nodes.
use funcodes.Prelude.{
  ℕ, zero, suc, ◌<◌, ◌≡◌, refl, true, false, List, [], ◌∷◌, ◌++◌, none, some, arith, ◌==◌, ltb,
  Option-cases, inl, inr, length, Yields, yields, Yields-map,
}
use funcodes.Links.{Links, write, get_next, free, has, Distinct, Chain, Chain-live, relink}
use funcodes.LruCache.{tail, LruCache, expiry, skip, erase_until}
use funcodes.LruCache.Holds.{expired_prefix, drop_expired}

abbrev pub front : List ℕ → ℕ
front [] = tail
front (x ∷ xs) = x

-- The `next` fields lead from the address through the nodes to `stop`.
abbrev pub Walk : Links → ℕ → List ℕ → ℕ → Type 0
Walk l a [] stop = a ≡ stop
Walk l a (x ∷ xs) stop = (a ≡ x) × (l.live x ≡ true) × Walk l (l.next x) xs stop

pub Walk-relink :
    (l : Links) (m y a : ℕ) (xs : List ℕ) (stop : ℕ)
    → Walk l a xs stop
    → has m xs ≡ false
    → Walk (relink l m y) a xs stop
Walk-relink l m y a [] stop w out = w
Walk-relink l m y a (x ∷ xs) stop (e, u, w) out =
    let on : (relink l m y).next x ≡ l.next x = ground arith in
    (e, u, rw on (Walk-relink l m y (l.next x) xs stop w (ground arith)))

Walk-free :
    (l : Links) (a x : ℕ) (xs : List ℕ) (stop : ℕ)
    → Walk l a xs stop
    → has x xs ≡ false
    → Walk (free l x) a xs stop
unfolding free
Walk-free l a x [] stop w out = w
Walk-free l a x (y ∷ xs) stop (e, u, w) out =
    (e, ground arith, Walk-free l (l.next y) x xs stop w (ground arith))

pub append-expired :
    (expire : ℕ → ℕ) (now : ℕ) (xs : List ℕ)
    → expired_prefix expire now xs ++ drop_expired expire now xs ≡ xs
unfolding expired_prefix drop_expired
append-expired expire now [] = refl
append-expired expire now (x ∷ xs) = ground (arith, append-expired expire now xs)

module _ {ℓ} {V : Type ℓ} (c : LruCache V) (now : ℕ) where
  pub skip-front :
      (rounds a : ℕ) (rest : List ℕ)
      → Chain c.links a (rest ++ tail ∷ []) tail
      → ltb (c.expire_time tail) now ≡ false
      → length rest < rounds
      → skip rounds now c (c.links.next a) ≡ some (front (drop_expired c.expire_time now rest))
  unfolding skip expiry get_next drop_expired
  skip-front zero a rest ch never fuel = absurd (omega arith)
  skip-front (suc rounds) a [] (u, e, f, (v, g)) never fuel = rw (e, v, never) refl
  skip-front (suc rounds) a (x ∷ rest) (u, e, f, ch) never fuel =
      let live = Chain-live c.links x (rest ++ tail ∷ []) tail ch in
      rw (e, live) (ground (arith, skip-front rounds x rest ch never (omega arith)))

-- What leaving the nodes `gone` changes
pub record Erased {ℓ} {V : Type ℓ} (gone : List ℕ) (c c' : LruCache V) : Type ℓ where
  pub next : c'.links.next ≡ c.links.next
  pub pred : c'.links.pred ≡ c.links.pred
  pub live : (k : ℕ) → has k gone ≡ false → c'.links.live k ≡ c.links.live k
  pub freed : (k : ℕ) → c.links.live k ≡ false → c'.links.live k ≡ false
  pub old : (k p : ℕ) → c'.underly k ≡ some p → c.underly k ≡ some p
  pub none_left : (p : ℕ) → has p gone ≡ true → c'.underly (c.key p) ≡ none
  pub others :
      (k : ℕ) → ((p : ℕ) → has p gone ≡ true → (c.key p == k) ≡ false) → c'.underly k ≡ c.underly k
  pub same :
      (c'.key ≡ c.key)
      × (c'.value ≡ c.value)
      × (c'.expire_time ≡ c.expire_time)
      × (c'.max_size ≡ c.max_size)
      × (c'.current_size ≡ c.current_size)
      × (c'.timeout ≡ c.timeout)

Erased-cons {ℓ} :
    {V : Type ℓ} (c : LruCache V) (x : ℕ) (gone : List ℕ) (c' : LruCache V)
    → Erased gone (record c { links = free c.links x; underly = write c.underly (c.key x) none }) c'
    → has x gone ≡ false
    → Erased (x ∷ gone) c c'
unfolding free
Erased-cons c x gone c' r out = record {
  next = r.next;
  pred = r.pred;
  live = λ k h. ground (arith, r.live k);
  freed = λ k h. r.freed k (ground arith);
  old = λ k p h. ground (arith, r.old k p);
  none_left = λ p h. elim (Option-cases (c'.underly (c.key p))) [
    | inl e ↦ e
    | inr (q, e) ↦ ground (arith, r.old (c.key p) q e, r.none_left p)
  ];
  others = λ k h.
      let a = h x (ground arith) in let b = r.others k (λ p m. h p (ground arith)) in ground arith;
  same = r.same;
}

pub erase_until-Erased {ℓ} :
    {V : Type ℓ} (rounds : ℕ) (c : LruCache V) (stop begin : ℕ) (gone : List ℕ)
    → Walk c.links begin gone stop
    → Distinct gone
    → has stop gone ≡ false
    → length gone < rounds
    → Yields (Erased gone c) (erase_until rounds stop begin c)
unfolding erase_until get_next
erase_until-Erased zero c stop begin gone w d out fuel = absurd (omega arith)
erase_until-Erased (suc rounds) c stop begin [] w d out fuel =
    let here : (begin == stop) ≡ true = ground arith in
    rw here (
      yields (record {
        next = refl;
        pred = refl;
        live = λ k h. refl;
        freed = λ k h. h;
        old = λ k p h. h;
        none_left = λ p h. absurd (cc h);
        others = λ k h. refl;
        same = (refl, refl, refl, refl, refl, refl);
      }))
erase_until-Erased (suc rounds) c stop begin (x ∷ gone) (e, u, w) d out fuel =
    let on : (x == stop) ≡ false = ground arith in
    rw (e, on, u)
      (Yields-map
        (erase_until-Erased rounds
          (record c { links = free c.links x; underly = write c.underly (c.key x) none }) stop
          (c.links.next x) gone (Walk-free c.links (c.links.next x) x gone stop w d.0) d.1
          (ground arith) (omega arith))
        λ c' r. Erased-cons c x gone c' r d.0)

pub Chain-Walk :
    (l : Links) (a : ℕ) (xs : List ℕ) (y : ℕ) (ys : List ℕ) (b : ℕ)
    → Chain l a (xs ++ y ∷ ys) b
    → Walk l (l.next a) xs y
Chain-Walk l a [] y ys b (u, e, f, c) = e
Chain-Walk l a (x ∷ xs) y ys b (u, e, f, c) =
    (e, Chain-live l x (xs ++ y ∷ ys) b c, Chain-Walk l x xs y ys b c)
