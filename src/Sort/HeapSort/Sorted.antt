-- ===== src/Sort/HeapSort/Sorted.antt =====
-- MakeMinHeap and Minheapsort.
use mathlib.Core.List.Perm
use native.Mathlib.Decide.{dec_lt}
use funcodes.Prelude.{
  ℕ, zero, suc, ◌+◌, ◌-◌, ◌/◌, ◌≤◌, ◌<◌, ◌≡◌, List, Perm, arith, ◌==◌, if◌then◌else◌, ℤ, ◌≤ℤ◌,
  length, at, swap-swapped, swapped, at-swapped, length-swapped, length-perm, swapped-perm, ◌>>=◌,
  Yields, Yields-bind, Yields-map,
}
use funcodes.Prelude.Loops.{for_down_inv}
use funcodes.Sort.Order.{Sorts}
use funcodes.Sort.HeapSort.{min_heap_fixdown, make_min_heap, extract_round, min_heap_sort}
use funcodes.Sort.HeapSort.Heap.{
  parent, IsHeapFrom, Shuffled, Shuffled-refl, Shuffled-trans, Falling, min_heap_fixdown-Shuffled,
}

abbrev Heaped : List ℤ → ℕ → List ℤ → Type 0
Heaped a lo b = Shuffled (length a) a b × IsHeapFrom lo (length a) b

fixdown-Heaped :
    (a : List ℤ) (i : ℕ) (b : List ℤ)
    → i < length a / 2
    → Heaped a (suc i) b
    → Yields (Heaped a i) (min_heap_fixdown b i (length a))
fixdown-Heaped a i b l (s, h) =
    Yields-map
      (min_heap_fixdown-Shuffled {lo = i} {n = length a} {a = b} (record {
        shuffled = Shuffled-refl;
        fits = omega (arith, s.size);
        inside = omega arith;
        edges = λ c p q r t. h c p q (omega arith);
        bridged = λ c p q r t u. absurd (omega arith);
      }))
      λ c t. (Shuffled-trans s t.0, t.1)

-- MakeMinHeap(a, n), for an array of n entries, ends without an access outside the array, permutes
-- its entries, and leaves none that is larger than its parent: a heap with the largest entry on top.
make_min_heap-Heaped :
    (a : List ℤ) → Yields (λ b. Perm b a × IsHeapFrom 0 (length a) b) (make_min_heap a (length a))
unfolding make_min_heap
make_min_heap-Heaped a =
    Yields-map
      (for_down_inv (Heaped a) (length a / 2) (λ i b. min_heap_fixdown b i (length a))
        (fixdown-Heaped a) (length a / 2) a (omega arith)
        (Shuffled-refl, λ c p q r. absurd (omega arith)))
      λ b s. (s.0.perm, s.1)

-- The root of a heap is its largest entry.
root_greatest : (k n : ℕ) (b : List ℤ) (i : ℕ) → IsHeapFrom 0 n b → i < k → i < n → at b i ≤ℤ at b 0
root_greatest zero n b i h f p = absurd (omega arith)
root_greatest (suc k) n b i h f p = ground (arith, h i, root_greatest k n b (parent i) h)

-- Before the round for `i` = `t`: the first t + 1 entries are a heap, the others are in place.
record Extracted (a : List ℤ) (t : ℕ) (b : List ℤ) : Type 0 where
  size : length b ≡ length a
  perm : Perm b a
  heap : IsHeapFrom 0 (t + 1) b
  tail : (p q : ℕ) → p ≤ q → t + 1 ≤ q → q < length b → at b p ≤ℤ at b q

module _ (a : List ℤ) (t : ℕ) (b : List ℤ) (l : t + 1 < length a) (s : Extracted a (suc t) b) where
  abbrev traded : List ℤ
  traded = swapped b (t + 1) 0

  swaps :
      (c : ℕ)
      → at traded c ≡ (if 0 == c then at b (t + 1) else if t + 1 == c then at b 0 else at b c)
  swaps = at-swapped b (t + 1) 0 (omega (arith, s.size)) (omega (arith, s.size))

  traded-Falling : Falling 0 (t + 1) traded traded 0
  traded-Falling = record {
    shuffled = Shuffled-refl;
    fits = omega (arith, s.size, length-swapped b (t + 1) 0);
    inside = omega arith;
    edges = λ c p q r u. ground (arith, swaps c, swaps (parent c), s.heap c);
    bridged = λ c p q r u v. absurd (omega arith);
  }

  -- The old root is at least every entry that is left in the heap.
  traded_below : (q : ℕ) → q < t + 1 → at traded q ≤ℤ at traded (t + 1)
  traded_below q r = ground (
    arith,
    swaps q,
    swaps (t + 1),
    root_greatest (q + 1) (suc t + 1) b q s.heap,
    root_greatest (t + 1 + 1) (suc t + 1) b (t + 1) s.heap,
  )

  traded_tail : (p q : ℕ) → p ≤ q → t + 2 ≤ q → q < length b → at traded p ≤ℤ at traded q
  traded_tail p q r u v = ground (arith, swaps p, swaps q, s.tail p q, s.tail 0 q, s.tail (t + 1) q)

  traded_ordered : (p q : ℕ) → p ≤ q → t + 1 ≤ q → q < length b → at traded p ≤ℤ at traded q
  traded_ordered p q r u v = elim (dec_lt (t + 1) q) [
    | yes past ↦ traded_tail p q r (omega arith) v
    | no first ↦ let e : q ≡ t + 1 = omega arith in ground (arith, traded_below p)
  ]

extract_round-Extracted :
    (a : List ℤ) (t : ℕ) (b : List ℤ)
    → t < length a - 1
    → Extracted a (suc t) b
    → Yields (Extracted a t) (extract_round t b)
unfolding extract_round
extract_round-Extracted a t b l s =
    let inside : t + 1 < length a = omega arith in
    rw (swap-swapped b (t + 1) 0 (omega (arith, s.size)) (omega (arith, s.size))) (
      Yields-map (min_heap_fixdown-Shuffled (traded-Falling a t b inside s)) λ c (f, h).
        let size = length-swapped b (t + 1) 0 in
        let ordered = traded_ordered a t b inside s in
        record {
          size = omega (arith, f.size, s.size, size);
          perm = Perm.trans f.perm (
              Perm.trans (swapped-perm b (t + 1) 0 (omega (arith, s.size)) (omega (arith, s.size)))
                s.perm);
          heap = h;
          tail = λ p q r u v.
              let fits : q < length b = omega (arith, f.size, size) in
              elim (dec_lt p (t + 1)) [
                | yes low ↦
                    rw (f.rest q u) (f.below _ (λ c m. ordered c q (omega arith) u fits) p low)
                | no high ↦ rw (f.rest q u, f.rest p (omega arith)) (ordered p q r u fits)
              ];
        })

-- MakeMinHeap(a, n) and then Minheapsort(a, n), for an array of n entries, end without an access
-- outside the array and leave its entries in ascending order.
pub min_heap_sort-Sorts :
    (a : List ℤ) → Yields (Sorts a) (make_min_heap a (length a) >>= λ b. min_heap_sort b (length a))
unfolding min_heap_sort
min_heap_sort-Sorts a = Yields-bind (make_min_heap-Heaped a) λ b (p, h).
    Yields-map
      (for_down_inv (Extracted a) (length a - 1) extract_round (extract_round-Extracted a)
        (length a - 1) b (omega arith)
        (record {
          size = length-perm p;
          perm = p;
          heap = λ c q r u. h c q (omega arith) u;
          tail = λ i j q r u. absurd (omega (arith, length-perm p));
        }))
      λ c s. (
        λ i j l m. elim (dec_lt 0 j) [
          | yes later ↦ s.tail i j l (omega arith) m
          | no first ↦ let e : i ≡ j = omega arith in rw e (omega arith)
        ],
        s.perm,
      )
