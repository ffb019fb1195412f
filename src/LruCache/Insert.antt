-- ===== src/LruCache/Insert.antt =====
-- Put of c++/utils/cache/lru_cache.h: the list that it leaves, and the number of entries.
use mathlib.Core.List.{append_assoc}
use funcodes.Prelude.{
  ℕ, ◌+◌, ◌-◌, ◌*◌, ◌%◌, ◌^◌, ◌≤◌, ◌<◌, ◌≡◌, refl, sym, ◌∙◌, Bool, true, false, List, [], ◌∷◌, ◌++◌,
  Option, none, some, arith, ◌==◌, leb, Bool-cases, inl, inr, length, length-append, if◌then◌else◌,
  Yields, yields, Yields-bind, Yields-map,
}
use funcodes.Links.{
  Links, null, write, create, has, Distinct-insert, Chain, has-append, Chain-has, Chain-frame,
  Chain-pred,
}
use funcodes.LruCache.{head, tail, never_timeout, deadline, LruCache, put_tail, emplace, count, put}
use funcodes.LruCache.Holds.{Holds, drop_expired}
use funcodes.LruCache.Access.{find_key, find_key-underly}
use funcodes.LruCache.Tail.{link_tail-Chain, relink_tail-new}
use funcodes.LruCache.Head.{pop_head-Popped, length-drop_expired}

-- An address that no node has, for a new one
abbrev pub IsFresh : ℕ → List ℕ → Type 0
IsFresh p order = (has p (head ∷ order ++ tail ∷ []) ≡ false) × ((p == null) ≡ false)

module _ {ℓ} {V : Type ℓ} (now later fresh k : ℕ) (v : Option V) (c : LruCache V) where
  Holds-added :
      (order : List ℕ)
      → Holds c order
      → IsFresh fresh order
      → c.underly k ≡ none
      → (l' : Links) → Chain l' head (order ++ fresh ∷ tail ∷ []) tail
      → l'.live ≡ write c.links.live fresh true
      → Holds
          (record (emplace now fresh k v c) {
            links = l';
            expire_time =
                write (emplace now fresh k v c).expire_time fresh (deadline later c.timeout);
          })
          (order ++ fresh ∷ [])
  unfolding emplace
  Holds-added order holds out absent l' chain live =
      let close = append_assoc order (fresh ∷ []) (tail ∷ []) in
      let o = has-append fresh order (tail ∷ []) in
      record {
        chain = rw close chain;
        distinct = rw close (Distinct-insert (head ∷ order) (tail ∷ []) fresh holds.distinct out.0);
        dead = rw live (ground (arith, holds.dead));
        mapped = λ j q h. ground (arith, holds.mapped j q, has-append q order (fresh ∷ []));
        listed = λ q h.
            let a = has-append q order (fresh ∷ []) in let l = holds.listed q in ground (arith);
        stays = ground (arith, holds.stays);
      }

  emplace-Chain :
      (order : List ℕ)
      → Holds c order
      → IsFresh fresh order
      → Chain (emplace now fresh k v c).links head (order ++ tail ∷ []) tail
  unfolding emplace create
  emplace-Chain order holds out =
      Chain-frame c.links (create c.links fresh) head (order ++ tail ∷ []) tail holds.chain
        holds.distinct (λ j h. ground arith) (λ j h _. ground arith) (λ j h. ground arith)

  -- The list with the new node at its end
  put_tail-added :
      (order : List ℕ)
      → Holds c order
      → IsFresh fresh order
      → c.underly k ≡ none
      → Yields
          (λ c'.
            Holds c' (order ++ fresh ∷ [])
            × (c'.key ≡ write c.key fresh k)
            × (c'.value ≡ write c.value fresh v)
            × (c'.expire_time
                ≡ write
                    (write c.expire_time fresh (deadline now c.timeout))
                    fresh
                    (deadline later c.timeout))
            × (c'.max_size ≡ c.max_size)
            × (c'.current_size ≡ c.current_size)
            × (c'.timeout ≡ c.timeout))
          (put_tail later fresh (emplace now fresh k v c))
  unfolding put_tail emplace
  put_tail-added order holds out absent =
      let l1 = create c.links fresh in
      let ch = emplace-Chain order holds out in
      let h = has-append fresh order (tail ∷ []) in
      let back = Chain-pred l1 head order tail [] tail ch in
      let live_tail =
        Chain-has l1 head (order ++ tail ∷ []) tail ch tail
          (ground (arith, has-append tail order (tail ∷ []))) in
      let live : l1.live fresh ≡ true = unfold create in ground arith in
      let null_pred : (l1.pred fresh == null) ≡ true = unfold create in ground arith in
      rw (relink_tail-new l1 fresh live null_pred live_tail (ground arith)) (
        Yields-bind (link_tail-Chain l1 fresh order ch holds.distinct out.0 live) λ l' t. yields (
          Holds-added order holds out absent l' t.0 (unfold create in t.1),
          refl,
          refl,
          refl,
          refl,
          refl,
          refl,
        ))

abbrev pub rest : List ℕ → List ℕ
rest [] = []
rest (x ∷ xs) = xs

length-rest : (xs : List ℕ) → length (rest xs) ≡ length xs - 1
length-rest [] = refl
length-rest (x ∷ xs) = omega arith

-- What the test at the end of Put does to the list: nothing, or the first node and the expired ones
-- behind it leave it.
abbrev pub evicted {ℓ} : {V : Type ℓ} → ℕ → LruCache V → List ℕ → List ℕ
evicted now c order =
    if leb c.max_size ((c.current_size + 1) % 2 ^ 64)
    then drop_expired c.expire_time now (rest order)
    else order

abbrev pub counted {ℓ} : {V : Type ℓ} → LruCache V → ℕ
counted c =
    let size = (c.current_size + 1) % 2 ^ 64 in
    if leb c.max_size size then size else (size + 1) % 2 ^ 64

module _ {ℓ} {V : Type ℓ} where
  abbrev Counted : ℕ → LruCache V → List ℕ → LruCache V → Type ℓ
  Counted now c order c' =
      Holds c' (evicted now c order)
      × (c'.key ≡ c.key)
      × (c'.value ≡ c.value)
      × (c'.expire_time ≡ c.expire_time)
      × (c'.max_size ≡ c.max_size)
      × (c'.current_size ≡ counted c)
      × (c'.timeout ≡ c.timeout)

  -- Holds does not read the numbers of the cache.
  Holds-sized :
      (c : LruCache V) (size : ℕ) (order : List ℕ)
      → Holds c order
      → Holds (record c { current_size = size }) order
  Holds-sized c size order h = record {
    chain = h.chain;
    distinct = h.distinct;
    dead = h.dead;
    mapped = h.mapped;
    listed = h.listed;
    stays = h.stays;
  }

  count-Counted :
      (rounds now : ℕ) (c : LruCache V) (order : List ℕ)
      → Holds c order
      → 0 < length order
      → length order < rounds
      → now ≤ never_timeout
      → Yields (Counted now c order) (count rounds now c)
  unfolding count
  count-Counted rounds now c [] holds some_node fuel early = absurd (omega arith)
  count-Counted rounds now c (x ∷ xs) holds some_node fuel early =
      elim (Bool-cases (leb c.max_size ((c.current_size + 1) % 2 ^ 64))) [
        | inl e ↦ rw e (
            Yields-map
              (pop_head-Popped rounds now
                (record c { current_size = (c.current_size + 1) % 2 ^ 64 }) x xs
                (Holds-sized c ((c.current_size + 1) % 2 ^ 64) (x ∷ xs) holds) (omega arith) early)
              λ c' p. rw e p)
        | inr e ↦ rw e (
            yields (
              rw e (
                Holds-sized c (((c.current_size + 1) % 2 ^ 64 + 1) % 2 ^ 64) (x ∷ xs) holds,
                refl,
                refl,
                refl,
                refl,
                refl,
                refl,
              )))
      ]

module _ {ℓ} {V : Type ℓ} (now later last fresh k : ℕ) (v : Option V) (c : LruCache V)
    (order : List ℕ) where
  -- The list with the new node, before the test at the end of Put
  abbrev pub times : ℕ → ℕ
  times =
      write (write c.expire_time fresh (deadline now c.timeout)) fresh (deadline later c.timeout)

  abbrev pub put_order : List ℕ
  put_order = evicted last (record c { expire_time = times }) (order ++ fresh ∷ [])

  abbrev Adds : LruCache V × Bool → Type ℓ
  Adds (c', b) =
      (b ≡ true)
      × Holds c' put_order
      × (c'.key ≡ write c.key fresh k)
      × (c'.value ≡ write c.value fresh v)
      × (c'.expire_time ≡ times)
      × (c'.max_size ≡ c.max_size)
      × (c'.current_size ≡ counted c)
      × (c'.timeout ≡ c.timeout)

  put-Adds :
      (rounds : ℕ)
      → Holds c order
      → IsFresh fresh order
      → find_key c.key k order ≡ none
      → length order + 1 < rounds
      → last ≤ never_timeout
      → Yields Adds (put rounds now later last fresh k v c)
  unfolding put
  put-Adds rounds holds out absent fuel early =
      let u : c.underly k ≡ none = sym (find_key-underly c order k holds) ∙ absent in
      let l = length-append order (fresh ∷ []) in
      rw (u, put)
        (Yields-bind (put_tail-added now later fresh k v c order holds out u)
          λ c1 (h, key, value, expire, max_size, size, timeout).
            Yields-bind
              (count-Counted rounds last c1 (order ++ fresh ∷ []) h (omega (arith, l))
                (omega (arith, l)) early)
              λ c2 p. yields (
                refl,
                rw (max_size, size, expire) at p.0,
                p.1 ∙ key,
                p.2 ∙ value,
                p.3 ∙ expire,
                p.4 ∙ max_size,
                rw (max_size, size) at p.5,
                p.6 ∙ timeout,
              ))

  put_again :
      (rounds p : ℕ)
      → Holds c order
      → find_key c.key k order ≡ some p
      → put rounds now later last fresh k v c ≡ some (c, false)
  unfolding put
  put_again rounds p holds there =
      let u : c.underly k ≡ some p = sym (find_key-underly c order k holds) ∙ there in
      rw (u, put) refl

  -- By what a search of the list for the key finds
  abbrev pub Puts : Option ℕ → LruCache V × Bool → Type ℓ
  Puts none r = Adds r
  Puts (some p) r = r ≡ (c, false)

  -- On a cache whose list agrees with its map: Put of a key that the list has says false and
  -- changes nothing. Put of any other key says true and leaves the list with the new node at its
  -- end, less what the test on the size takes from its front: the first node and the expired ones
  -- behind it. The new node has the key, the value and the time of the second call of the clock.
  -- The address of the new node is none of the list's, the rounds exceed the length of the list by
  -- more than one, and the clock has not reached NEVER_TIMEOUT.
  pub put-Puts :
      (rounds : ℕ)
      → Holds c order
      → IsFresh fresh order
      → length order + 1 < rounds
      → last ≤ never_timeout
      → Yields (Puts (find_key c.key k order)) (put rounds now later last fresh k v c)
  put-Puts rounds holds out fuel early =
      (elim (find_key c.key k order)
          as (λ (found : Option ℕ).
            find_key c.key k order ≡ found
            → Yields (Puts found) (put rounds now later last fresh k v c)) [
              | none ↦ λ absent. put-Adds rounds holds out absent fuel early
              | some p ↦ λ there. rw (put_again rounds p holds there) (yields refl)
            ])
        refl

  -- Put of a key that the list does not have, under the conditions of put-Puts: if twice the number of
  -- entries is within the count that Put keeps, and within the capacity, it is so afterwards, and the
  -- count has grown (it does not reach 2 ^ 64). At most half of the capacity is in use.
  pub put-Half :
      (rounds : ℕ)
      → Holds c order
      → IsFresh fresh order
      → find_key c.key k order ≡ none
      → length order + 1 < rounds
      → last ≤ never_timeout
      → length order * 2 ≤ c.current_size
      → length order * 2 ≤ c.max_size
      → c.current_size + 2 < 2 ^ 64
      → Yields
          (λ (c', b).
            Holds c' put_order
            × (length put_order * 2 ≤ c'.current_size)
            × (c.current_size < c'.current_size)
            × (length put_order * 2 ≤ c'.max_size))
          (put rounds now later last fresh k v c)
  put-Half rounds holds out absent fuel early half fits room =
      Yields-map (put-Adds rounds holds out absent fuel early) λ (c', b) p.
        let l = length-append order (fresh ∷ []) in
        let r = length-rest (order ++ fresh ∷ []) in
        let d = length-drop_expired times last (rest (order ++ fresh ∷ [])) in
        let size = p.6 in
        let max_size = p.5 in (p.1, ground (arith), ground (arith), ground (arith))
