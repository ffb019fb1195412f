-- ===== src/BoundedHeap/Max.antt =====
-- c++/utils/custom_max_heap.hpp: CustomMaxHeap. The vector that the caller hands over is part of the
-- heap's state. A call returns what it writes through `out`, where the caller passes a pointer.
use mathlib.Core.List.Perm
use funcodes.Prelude.{
  ℕ, zero, suc, ◌+◌, ◌-◌, ◌≤◌, ◌<◌, ◌≡◌, ◌⊎◌, inl, inr, refl, Bool, true, false, List, [], ◌∷◌,
  ◌++◌, Option, none, some, ◌>>=◌, Perm, arith, ltb, leb, ◌==◌, if◌then◌else◌, ℤ, pos, negsuc,
  length, length-append, load, store, set, length-set, store-set, get_or, get_or-set, load-append,
  ap, ◌∙◌, load-get_or, get_or-load, Yields, yields, Yields-bind, Yields-if, Yields-map,
}
use funcodes.BoundedHeap.{build_loop, fix_loop}
use funcodes.BoundedHeap.Compare.{IsOrder, IsTop}
use funcodes.BoundedHeap.Build.{Shuffled, build_loop-IsTop}
use funcodes.BoundedHeap.Fix.{fix_loop-Shuffled, fix_loop_first}

pub record CustomMaxHeap {ℓ} (A : Type ℓ) : Type ℓ where
  pub capacity : ℕ
  pub index : ℕ
  pub heap : List A

pub data Made {ℓ} (A : Type ℓ) : Type ℓ where
  made : CustomMaxHeap A → Made A
  wrong_capacity_heap_exception : Made A

-- The constructor.
pub new {ℓ} : {A : Type ℓ} → ℤ → List A → Made A
new (pos (suc k)) heap = made (record { capacity = suc k; index = 0; heap = heap })
new (pos zero) heap = wrong_capacity_heap_exception
new (negsuc k) heap = wrong_capacity_heap_exception

-- The heap after a call, the call's result and what the call wrote.
pub record Reply {ℓ} (A : Type ℓ) : Type ℓ where
  pub next : CustomMaxHeap A
  pub code : ℤ
  pub out : Option A

pub heap_empty {ℓ} : {A : Type ℓ} → CustomMaxHeap A → Bool
heap_empty h = leb h.capacity 0

module _ {ℓ} {A : Type ℓ} (compare : A → A → Bool) where
  -- *out = (*(_heap))[0]
  write_out : CustomMaxHeap A → ℤ → List A → Option (Reply A)
  write_out h code b = do
    x ← load b 0
    some (record { next = record h { heap = b }; code = code; out = some x })

  pub build_heap : CustomMaxHeap A → Option (Reply A)
  build_heap h =
      if ltb h.capacity 1
      then some (record { next = h; code = negsuc 0; out = none })
      else (do b ← build_loop compare h.capacity h.heap; write_out h (pos 0) b)

  pub fix_heap : CustomMaxHeap A → Option (Reply A)
  fix_heap h = do b ← fix_loop compare (λ t. t) h.capacity h.heap; write_out h (pos 0) b

  pub insert : CustomMaxHeap A → A → Option (Reply A)
  insert h element =
      if ltb h.index h.capacity
      then (let g = record h { index = h.index + 1; heap = h.heap ++ element ∷ [] } in
          if g.index == g.capacity
          then build_heap g
          else some (record { next = g; code = pos 1; out = none }))
      else (do b ← store h.heap 0 element; fix_heap (record h { heap = b }))

  -- An index below the array's start is one outside the array.
  pub resize_heap : CustomMaxHeap A → Option (Reply A)
  resize_heap h =
      if length h.heap == 0
      then some (record { next = h; code = negsuc 0; out = none })
      else if h.capacity == 0
      then none
      else do
        x ← load h.heap (h.capacity - 1)
        b ← store h.heap 0 x
        let g = record h { capacity = h.capacity - 1; heap = b }
        if ltb 0 g.capacity then build_heap g else write_out g (pos 1) b

module _ {ℓ} {A : Type ℓ} (compare : A → A → Bool) (order : IsOrder compare) where
  -- What a call hands out: the entry that the comparison puts last of the `n` first.
  pub record HandsOut (n : ℕ) (b : List A) (r : Reply A) : Type ℓ where
    pub code : r.code ≡ pos 0
    pub top : (t : A) × (r.out ≡ some t) × IsTop compare n r.next.heap t
    pub size : length r.next.heap ≡ length b
    pub perm : Perm r.next.heap b
    pub rest : (q : ℕ) → n ≤ q → q < length b → load r.next.heap q ≡ load b q
    pub capacity : r.next.capacity ≡ n

  HandsOut-build :
      (d : A) (h : CustomMaxHeap A) (b : List A)
      → 0 < h.capacity
      → h.capacity ≤ length h.heap
      → Shuffled d h.capacity h.heap b
      → IsTop compare h.capacity b (get_or b 0 d)
      → HandsOut h.capacity h.heap
          (record { next = record h { heap = b }; code = pos 0; out = some (get_or b 0 d) })
  HandsOut-build d h b used fits s t = record {
    code = refl;
    top = (get_or b 0 d, refl, t);
    size = s.size;
    perm = s.perm;
    rest = λ q l f.
        let same = s.rest q l in
        rw (load-get_or d b q (omega (arith, s.size)), load-get_or d h.heap q f, same) refl;
    capacity = refl;
  }

  build_heap-HandsOut :
      (d : A) (h : CustomMaxHeap A)
      → 0 < h.capacity
      → h.capacity ≤ length h.heap
      → Yields (λ r. HandsOut h.capacity h.heap r × (r.next.index ≡ h.index)) (build_heap compare h)
  unfolding build_heap write_out
  build_heap-HandsOut d h some_room fits =
      Yields-if (ltb h.capacity 1) (λ e. absurd (ground arith))
        (λ e.
          Yields-bind (build_loop-IsTop compare order d h.capacity h.heap some_room fits)
            λ b (s, t).
              rw (load-get_or d b 0 (omega (arith, s.size)))
                (yields (HandsOut-build d h b some_room fits s t, refl)))

  -- What `insert` does while there is room.
  pub record Filled (h : CustomMaxHeap A) (element : A) (r : Reply A) : Type ℓ where
    pub capacity : r.next.capacity ≡ h.capacity
    pub index : r.next.index ≡ h.index + 1
    pub perm : Perm r.next.heap (h.heap ++ element ∷ [])
    pub reported :
        ((h.index + 1 < h.capacity) × (r.code ≡ pos 1) × (r.out ≡ none))
        ⊎ ((h.index + 1 ≡ h.capacity) × HandsOut h.capacity (h.heap ++ element ∷ []) r)

  -- For a strict weak order and a heap that holds as many entries as it has counted and has room:
  -- insert returns, with the same capacity, one more entry counted and the old entries in some order
  -- with the new one. If there is still room it returns 1 and writes nothing; if the heap is now full
  -- it returns 0 and writes the first entry of the heap, behind which the comparison puts no entry.
  pub insert-Filled :
      (h : CustomMaxHeap A) (element : A)
      → length h.heap ≡ h.index
      → h.index < h.capacity
      → Yields (Filled h element) (insert compare h element)
  unfolding insert
  insert-Filled h element size room =
      let long = length-append h.heap (element ∷ []) in
      Yields-if (ltb h.index h.capacity)
        (λ e.
          Yields-if (h.index + 1 == h.capacity)
            (λ f.
              let full : h.index + 1 ≡ h.capacity = ground arith in
              Yields-map
                (build_heap-HandsOut element
                  (record h { index = h.index + 1; heap = h.heap ++ element ∷ [] }) (omega arith)
                  (omega (arith, long)))
                λ r (o, i). record {
                  capacity = o.capacity;
                  index = i;
                  perm = o.perm;
                  reported = inr (full, o);
                })
            (λ f. yields (record {
              capacity = refl;
              index = refl;
              perm = Perm.rfl;
              reported = inl (ground arith, refl, refl);
            })))
        (λ e. absurd (ground arith))

  -- For a strict weak order and a capacity of at least two, all of it in use: resize_heap returns 0,
  -- with a capacity of one less. Its vector is the old one with the root overwritten by the last entry
  -- in use, in another order and, from the new capacity on, unchanged; the first entry, behind which
  -- the comparison puts none below the new capacity, is written to `out`.
  pub resize_heap-HandsOut :
      (index : ℕ) (x y : A) (middle beyond : List A)
      → Yields (HandsOut (length middle + 1) (y ∷ (middle ++ (y ∷ beyond)))) (
          resize_heap compare (record {
            capacity = length middle + 2;
            index = index;
            heap = x ∷ (middle ++ (y ∷ beyond));
          }))
  unfolding resize_heap
  resize_heap-HandsOut index x y middle beyond =
      let less : length middle + 2 - 1 ≡ length middle + 1 = omega arith in
      let heap = x ∷ (middle ++ (y ∷ beyond)) in
      let long = length-append middle (y ∷ beyond) in
      let last : load heap (length middle + 2 - 1) ≡ some y =
        let next : length middle + 2 - 1 ≡ suc (length middle) = omega arith in
        rw next (load-append (x ∷ middle) y beyond) in
      Yields-if (length heap == 0) (λ e. absurd (ground (arith, long)))
        (λ e.
          Yields-if (length middle + 2 == 0) (λ f. absurd (ground (arith)))
            (λ f.
              rw (last, store-set heap 0 y (omega (arith, long)))
                (Yields-if (ltb 0 (length middle + 2 - 1))
                  (λ g. rw less (
                    Yields-map
                      (build_heap-HandsOut y
                        (record {
                          capacity = length middle + 1;
                          index = index;
                          heap = y ∷ (middle ++ (y ∷ beyond));
                        })
                        (omega arith) (omega (arith, long)))
                      λ r o. o.0))
                  (λ g. absurd (ground arith)))))

module _ {ℓ} {A : Type ℓ} (compare : A → A → Bool) (h : CustomMaxHeap A) (element : A)
    (full : h.capacity ≤ h.index) (fits : h.capacity ≤ length h.heap) where
  -- For any comparison and a full heap: insert comes back, with 0 and the same capacity, and its
  -- entries are those of the old heap with the root replaced, in some order; it writes the first.
  insert-perm :
      0 < h.capacity
      → Yields
          (λ r.
            (r.code ≡ pos 0)
            × (r.next.capacity ≡ h.capacity)
            × (r.out ≡ load r.next.heap 0)
            × Perm r.next.heap (set h.heap 0 element))
          (insert compare h element)
  unfolding insert fix_heap write_out
  insert-perm room =
      Yields-if (ltb h.index h.capacity) (λ e. absurd (ground arith))
        (λ e. rw (store-set h.heap 0 element (omega arith)) (
          Yields-bind
            (fix_loop-Shuffled compare element h.capacity (λ t. t) (set h.heap 0 element)
              (rw length-set fits))
            λ b s.
              let top =
                load-get_or element b 0 (omega (arith, s.size, length-set h.heap 0 element)) in
              rw top (yields (refl, refl, rw top refl, s.perm))))

  -- For any comparison and a full heap of capacity three or more, whose first child is put behind the
  -- new entry, but not the other way round, and whose second child is put behind the first: insert
  -- writes the first child, which is not the top of the heap that it leaves.
  pub insert-IsNotTop :
      (left right : A)
      → 3 ≤ h.capacity
      → load h.heap 1 ≡ some left
      → load h.heap 2 ≡ some right
      → compare left element ≡ false
      → compare element left ≡ true
      → compare left right ≡ true
      → Yields
          (λ r. (r.out ≡ some left) × ¬ IsTop compare h.capacity r.next.heap left)
          (insert compare h element)
  unfolding insert fix_heap write_out
  insert-IsNotTop left right room first second lower upper greater =
      let a = set h.heap 0 element in
      let size = length-set h.heap 0 element in
      let zeroth : get_or a 0 element ≡ element =
        get_or-set element h.heap 0 0 element (omega arith) in
      let l : get_or a 1 element ≡ left =
        get_or-set element h.heap 0 1 element (omega arith) ∙ get_or-load element h.heap 1 first in
      let r : get_or a 2 element ≡ right =
        get_or-set element h.heap 0 2 element (omega arith) ∙ get_or-load element h.heap 2 second in
      Yields-if (ltb h.index h.capacity) (λ e. absurd (ground arith))
        (λ e. rw (store-set h.heap 0 element (omega arith)) (
          Yields-bind
            (fix_loop_first compare element h.capacity a room (omega (arith, size))
              (rw (l, zeroth) lower) (rw (l, zeroth) upper) (λ t. t))
            λ b (long, s, t).
              let top : load b 0 ≡ some left =
                load-get_or element b 0 (omega arith) ∙ ap some (s ∙ l) in
              let side : load b 2 ≡ some right =
                load-get_or element b 2 (omega arith) ∙ ap some (t ∙ r) in
              rw top
                (yields (refl, λ m. absurd (cc (greater, m.last 2 right (omega arith) side))))))
