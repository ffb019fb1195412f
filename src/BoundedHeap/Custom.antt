-- ===== src/BoundedHeap/Custom.antt =====
-- c++/utils/custom_heap.hpp: CustomHeap, on an array of its own.
use funcodes.Prelude.{
  ℕ, zero, suc, ◌+◌, ◌-◌, ◌≤◌, ◌<◌, ◌≡◌, ◌⊎◌, inl, inr, refl, Bool, true, List, [], ◌∷◌, ◌++◌,
  Option, none, some, ◌>>=◌, Perm, arith, ltb, leb, ◌==◌, if◌then◌else◌, ℤ, pos, negsuc, length,
  length-append, load, store, set, length-set, store-set, get_or, load-get_or, load-append, Yields,
  yields, Yields-bind, Yields-if, Yields-map,
}
use funcodes.BoundedHeap.{build_loop, fix_loop}
use funcodes.BoundedHeap.Compare.{IsOrder, IsTop}
use funcodes.BoundedHeap.Build.{build_loop-IsTop}
use funcodes.BoundedHeap.Fix.{fix_loop-Shuffled}

pub record CustomHeap {ℓ} (A : Type ℓ) : Type ℓ where
  pub heap : List A
  pub capacity : ℕ
  pub current_size : ℕ

pub data Made {ℓ} (A : Type ℓ) : Type ℓ where
  made : CustomHeap A → Made A
  wrong_capacity_heap : Made A

filled {ℓ} : {A : Type ℓ} → ℕ → A → List A
filled zero v = []
filled (suc n) v = v ∷ filled n v

-- The constructor, with what a fresh entry of `new T[_capacity]` holds.
pub new {ℓ} : {A : Type ℓ} → A → ℕ → Made A
new fresh cap =
    if leb cap 0
    then wrong_capacity_heap
    else made (record { heap = filled cap fresh; capacity = cap; current_size = 0 })

pub heap_empty {ℓ} : {A : Type ℓ} → CustomHeap A → Bool
heap_empty h = leb h.current_size 0

-- A failing assertion ends the program.
pub get {ℓ} : {A : Type ℓ} → CustomHeap A → ℤ → Option A
get h (pos i) = if ltb i h.current_size then load h.heap i else none
get h (negsuc i) = none

module _ {ℓ} {A : Type ℓ} (compare : A → A → Bool) where
  pub build_heap : CustomHeap A → Option (CustomHeap A × ℤ)
  build_heap h =
      if leb h.current_size 0
      then some (h, negsuc 0)
      else (do b ← build_loop compare h.current_size h.heap; some (record h { heap = b }, pos 0))

  pub fix_heap : CustomHeap A → Option (CustomHeap A × ℤ)
  fix_heap h = do
    b ← fix_loop compare (λ _. true) h.current_size h.heap
    some (record h { heap = b }, pos 0)

  pub insert : CustomHeap A → A → Option (CustomHeap A × ℤ)
  insert h item =
      if ltb h.current_size h.capacity
      then (do
        b ← store h.heap h.current_size item
        let g = record h { heap = b; current_size = h.current_size + 1 }
        if g.current_size == g.capacity then build_heap g else some (g, pos 0))
      else (do b ← store h.heap 0 item; fix_heap (record h { heap = b }))

  -- A size_t is not below 0, so the last branch of the code is never taken.
  pub resize_heap : CustomHeap A → Option (CustomHeap A × ℤ)
  resize_heap h = if leb h.current_size 0 then some (h, negsuc 0) else do
    x ← load h.heap (h.current_size - 1)
    b ← store h.heap 0 x
    let g = record h { heap = b; current_size = h.current_size - 1 }
    if ltb 0 g.current_size
        then build_heap g
        else if 0 == g.current_size
        then some (g, pos 1)
        else some (g, negsuc 0)

module _ {ℓ} {A : Type ℓ} (compare : A → A → Bool) (order : IsOrder compare) where
  -- The heap with the entry that the comparison puts last of the `n` first on top of them.
  pub record Topped (n : ℕ) (b : List A) (r : CustomHeap A × ℤ) : Type ℓ where
    pub code : r.1 ≡ pos 0
    pub top : (t : A) × (get r.0 (pos 0) ≡ some t) × IsTop compare n r.0.heap t
    pub perm : Perm r.0.heap b
    pub rest : (q : ℕ) → n ≤ q → q < length b → load r.0.heap q ≡ load b q
    pub size : r.0.current_size ≡ n

  build_heap-Topped :
      (d : A) (h : CustomHeap A)
      → 0 < h.current_size
      → h.current_size ≤ length h.heap
      → Yields
          (λ r. Topped h.current_size h.heap r × (r.0.capacity ≡ h.capacity))
          (build_heap compare h)
  unfolding build_heap get
  build_heap-Topped d h used fits =
      let n = h.current_size in
      let inside : ltb 0 n ≡ true = ground arith in
      Yields-if (leb n 0) (λ e. absurd (ground arith))
        (λ e. Yields-bind (build_loop-IsTop compare order d n h.heap used fits) λ b (s, t). yields (
          record {
            code = refl;
            top = (get_or b 0 d, rw inside t.first, t);
            perm = s.perm;
            rest = λ q l f.
                let same = s.rest q l in
                rw (load-get_or d b q (omega (arith, s.size)), load-get_or d h.heap q f, same) refl;
            size = refl;
          },
          refl,
        ))

  -- What `insert` does while there is room.
  pub record Stored (h : CustomHeap A) (item : A) (r : CustomHeap A × ℤ) : Type ℓ where
    pub capacity : r.0.capacity ≡ h.capacity
    pub size : r.0.current_size ≡ h.current_size + 1
    pub reported :
        ((h.current_size + 1 < h.capacity)
          × (r.1 ≡ pos 0)
          × (r.0.heap ≡ set h.heap h.current_size item))
        ⊎ ((h.current_size + 1 ≡ h.capacity) × Topped h.capacity (set h.heap h.current_size item) r)

  -- For a strict weak order and a heap with room, whose array has its capacity: insert returns 0, with
  -- the same capacity and a size of one more. If there is still room then the new entry is written
  -- behind the others and nothing else changes, so the root stays, whatever its order with the new
  -- entry. If the heap is now full then its entries are those in some order, and `get(0)` is one
  -- behind which the comparison puts none.
  pub insert-Stored :
      (h : CustomHeap A) (item : A)
      → length h.heap ≡ h.capacity
      → h.current_size < h.capacity
      → Yields (Stored h item) (insert compare h item)
  unfolding insert
  insert-Stored h item long room =
      let n = h.current_size in
      let kept = length-set h.heap n item in
      Yields-if (ltb n h.capacity)
        (λ e. rw (store-set h.heap n item (omega arith)) (
          Yields-if (n + 1 == h.capacity)
            (λ f.
              let full : n + 1 ≡ h.capacity = ground arith in
              Yields-map
                (build_heap-Topped item
                  (record h { heap = set h.heap n item; current_size = n + 1 }) (omega arith)
                  (omega arith))
                λ r (o, c). record {
                  capacity = c;
                  size = o.size;
                  reported = inr (full, rw full at o);
                })
            (λ f. yields (record {
              capacity = refl;
              size = refl;
              reported = inl (ground arith, refl, refl);
            }))))
        (λ e. absurd (ground arith))

  -- For a strict weak order and a heap of at least two entries: resize_heap returns 0, with a size of
  -- one less. Its array is the old one with the root overwritten by the last entry in use, in another
  -- order and, from the new size on, unchanged; `get(0)` is an entry behind which the comparison puts
  -- none below the new size.
  resize_heap-Topped :
      (capacity : ℕ) (x y : A) (middle beyond : List A)
      → Yields (Topped (length middle + 1) (y ∷ (middle ++ (y ∷ beyond)))) (
          resize_heap compare (record {
            heap = x ∷ (middle ++ (y ∷ beyond));
            capacity = capacity;
            current_size = length middle + 2;
          }))
  unfolding resize_heap
  resize_heap-Topped capacity x y middle beyond =
      let less : length middle + 2 - 1 ≡ length middle + 1 = omega arith in
      let heap = x ∷ (middle ++ (y ∷ beyond)) in
      let long = length-append middle (y ∷ beyond) in
      let last : load heap (length middle + 2 - 1) ≡ some y =
        let next : length middle + 2 - 1 ≡ suc (length middle) = omega arith in
        rw next (load-append (x ∷ middle) y beyond) in
      Yields-if (leb (length middle + 2) 0) (λ e. absurd (ground arith))
        (λ e.
          rw (last, store-set heap 0 y (omega (arith, long)))
            (Yields-if (ltb 0 (length middle + 2 - 1))
              (λ g. rw less (
                Yields-map
                  (build_heap-Topped y
                    (record {
                      heap = y ∷ (middle ++ (y ∷ beyond));
                      capacity = capacity;
                      current_size = length middle + 1;
                    })
                    (omega arith) (omega (arith, long)))
                  λ r o. o.0))
              (λ g. absurd (ground arith))))

module _ {ℓ} {A : Type ℓ} (compare : A → A → Bool) (h : CustomHeap A) (item : A)
    (full : h.capacity ≤ h.current_size) (fits : h.current_size ≤ length h.heap) where
  -- For any comparison and a full heap that has entries: insert comes back, with 0 and the same
  -- capacity and size, and its entries are those of the old heap with the root replaced, in some
  -- order.
  insert_full-perm :
      0 < h.current_size
      → Yields
          (λ r.
            (r.1 ≡ pos 0)
            × (r.0.capacity ≡ h.capacity)
            × (r.0.current_size ≡ h.current_size)
            × Perm r.0.heap (set h.heap 0 item))
          (insert compare h item)
  unfolding insert fix_heap
  insert_full-perm some_used =
      Yields-if (ltb h.current_size h.capacity) (λ e. absurd (ground arith))
        (λ e. rw (store-set h.heap 0 item (omega arith)) (
          Yields-bind
            (fix_loop-Shuffled compare item h.current_size (λ _. true) (set h.heap 0 item)
              (rw length-set fits))
            λ b s. yields (refl, refl, refl, s.perm)))
