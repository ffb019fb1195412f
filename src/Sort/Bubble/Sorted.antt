-- ===== src/Sort/Bubble/Sorted.antt =====
-- The `while` loops of both bubble sorts.
use mathlib.Core.List.Perm
use funcodes.Prelude.{
  ℕ, ◌+◌, ◌-◌, ◌≤◌, ◌<◌, ◌≡◌, refl, Bool, true, false, List, Perm, arith, ltb, if◌then◌else◌, ℤ, lt,
  ◌≤ℤ◌, length, at, load-at, swap-swapped, Yields, yields, Yields-bind, Yields-if,
}
use funcodes.Prelude.Loops.{for_up_inv, loop_inv, Flow, Round, go_on, leave}
use funcodes.Sort.Order.{Sorts}
use funcodes.Sort.Bubble.{
  bubble_step, bubble_round, bubble_sort, bubble_step2, bubble_round2, bubble_sort2,
}
use funcodes.Sort.Bubble.Pass.{
  HasTail, Pass, Pass-start, Pass-keep, Pass-forget, Pass-swap, Pass-end,
}

-- Where the last exchange may have been: anywhere once `flag` is set.
abbrev exchanged : ℕ → Bool → ℕ
exchanged j flag = if flag then j - 1 else 0

-- An exchange takes a round, and the first round has `j` = 1.
abbrev Passing : List ℤ → ℕ → ℕ → List ℤ × Bool → Type 0
Passing a k j (b, flag) = Pass a k (exchanged j flag) j b × ((if flag then 1 else 0) < j)

abbrev Passing2 : List ℤ → ℕ → ℕ → List ℤ × ℕ → Type 0
Passing2 a k j (b, flag) = Pass a k flag j b

Pass-flagged :
    {a b : List ℤ} {k j : ℕ} (flag : Bool)
    → at b (j - 1) ≤ℤ at b j
    → Pass a k (exchanged j flag) j b
    → Pass a k (exchanged (j + 1) flag) (j + 1) b
Pass-flagged true h p = Pass-forget (Pass-keep p h)
Pass-flagged false h p = Pass-keep p h

bubble_step_passes :
    (a : List ℤ) (k : ℕ)
    → k ≤ length a
    → (j : ℕ) (s : List ℤ × Bool) → 1 ≤ j
    → j < (k - 1) + 1
    → Passing a k j s
    → Yields (Passing a k (j + 1)) (bubble_step j s)
unfolding bubble_step
bubble_step_passes a k fits j (b, flag) l h p =
    let hj : j < length b = omega (arith, p.0.size) in
    let hi : j - 1 < length b = omega arith in
    rw (load-at b (j - 1) hi, load-at b j hj)
      (Yields-if (lt (at b j) (at b (j - 1)))
        (λ e.
          rw (swap-swapped b (j - 1) j hi hj)
            (yields (Pass-forget (Pass-swap p.0 l (omega arith) hj (ground arith)), omega arith)))
        (λ e. yields (Pass-flagged flag (ground arith) p.0, omega (arith, p.1))))

bubble_step2_passes :
    (a : List ℤ) (k : ℕ)
    → k ≤ length a
    → (j : ℕ) (s : List ℤ × ℕ) → 1 ≤ j
    → j < k
    → Passing2 a k j s
    → Yields (Passing2 a k (j + 1)) (bubble_step2 j s)
unfolding bubble_step2
bubble_step2_passes a k fits j (b, flag) l h p =
    let hj : j < length b = omega (arith, p.size) in
    let hi : j - 1 < length b = omega arith in
    rw (load-at b (j - 1) hi, load-at b j hj)
      (Yields-if (lt (at b j) (at b (j - 1)))
        (λ e.
          rw (swap-swapped b (j - 1) j hi hj)
            (yields (Pass-swap p l (omega arith) hj (ground arith))))
        (λ e. yields (Pass-keep p (ground arith))))

-- Between two passes: the entries from `k` on are in their places.
record Sorting (a : List ℤ) (k : ℕ) (b : List ℤ) : Type 0 where
  size : length b ≡ length a
  perm : Perm b a
  tail : HasTail k b
  fits : k ≤ length a

Sorting-start : (a : List ℤ) → Sorting a (length a) a
Sorting-start a = record {
  size = refl;
  perm = Perm.rfl;
  tail = λ i c l m n. absurd (omega arith);
  fits = omega arith;
}

Sorting-end : {a b : List ℤ} {k : ℕ} → Sorting a k b → k ≤ 0 → Sorts a b
Sorting-end s h = (λ i j l m. s.tail i j l (omega arith) m, s.perm)

Pass-Sorting :
    {a b : List ℤ} {k m j n : ℕ}
    → Pass a k m j b
    → k ≤ length a
    → k ≤ j
    → m ≤ n
    → n ≤ length a
    → Sorting a n b
Pass-Sorting p fits h l q = record {
  size = p.size;
  perm = p.perm;
  tail = λ i c s t r. Pass-end p h i c s (omega arith) r;
  fits = q;
}

abbrev left : ℕ → Bool → ℕ
left k flag = if flag then k else 0

abbrev State : Type 0
State = List ℤ × ℕ × Bool

abbrev measure : State → ℕ
measure (b, k, flag) = if flag then k + 1 else 0

abbrev Between : List ℤ → State → Type 0
Between a (b, k, flag) = Sorting a (left k flag) b

Passing-Between :
    {a b : List ℤ} {k : ℕ} (flag : Bool) (c : List ℤ)
    → k ≤ length a
    → Passing a k (k - 1 + 1) (b, flag)
    → Round (Between a) (λ t. Sorts a t.0) measure (c, k, true) (Flow.again (b, k - 1, flag))
Passing-Between {k} true c fits (p, busy) =
    go_on (Pass-Sorting p fits (omega arith) (omega arith) (omega arith)) (omega arith)
Passing-Between {k} false c fits (p, busy) =
    go_on (Pass-Sorting p fits (omega arith) (omega arith) (omega arith)) (omega arith)

bubble_round-Sorts :
    (a : List ℤ) (s : State)
    → Between a s
    → Yields (Round (Between a) (λ t. Sorts a t.0) measure s) (bubble_round s)
unfolding bubble_round
bubble_round-Sorts a (b, k, true) s =
    let start : Passing a k 1 (b, false) = (Pass-start s.perm s.size s.tail, omega arith) in
    Yields-bind
      (for_up_inv (Passing a k) 1 (k - 1 + 1) bubble_step (bubble_step_passes a k s.fits) (k - 1) 1
        (b, false) (omega arith) (omega arith) start)
      λ (c, swapped) p. yields (Passing-Between swapped b s.fits p)
bubble_round-Sorts a (b, k, false) s = yields (leave (Sorting-end s (omega arith)))

-- BubbleSort(a, n), for an array of n entries, ends without an access outside the array and leaves its
-- entries in ascending order.
bubble_sort-Sorts : (a : List ℤ) → Yields (Sorts a) (bubble_sort a (length a))
unfolding bubble_sort
bubble_sort-Sorts a =
    Yields-bind
      (loop_inv bubble_round (bubble_round-Sorts a) (length a + 2) (a, length a, true) (omega arith)
        (Sorting-start a))
      λ t s. yields s

abbrev Between2 : List ℤ → List ℤ × ℕ → Type 0
Between2 a (b, flag) = Sorting a flag b

bubble_round2-Sorts :
    (a : List ℤ) (s : List ℤ × ℕ)
    → Between2 a s
    → Yields (Round (Between2 a) (λ t. Sorts a t.0) (λ t. t.1) s) (bubble_round2 s)
unfolding bubble_round2
bubble_round2-Sorts a (b, flag) s =
    Yields-if (ltb 0 flag)
      (λ e.
        Yields-bind
          (for_up_inv (Passing2 a flag) 1 flag bubble_step2 (bubble_step2_passes a flag s.fits)
            (flag - 1) 1 (b, 0) (omega arith) (ground arith) (Pass-start s.perm s.size s.tail))
          λ (c, place) p. yields (
            go_on
              (Pass-Sorting p s.fits (omega arith) (omega arith) (omega (arith, p.since, s.fits)))
              (omega (arith, p.since))))
      (λ e. yields (leave (Sorting-end s (ground arith))))

-- BubbleSort2(a, n), for an array of n entries, ends without an access outside the array and leaves its
-- entries in ascending order.
bubble_sort2-Sorts : (a : List ℤ) → Yields (Sorts a) (bubble_sort2 a (length a))
unfolding bubble_sort2
bubble_sort2-Sorts a =
    Yields-bind
      (loop_inv bubble_round2 (bubble_round2-Sorts a) (length a + 1) (a, length a) (omega arith)
        (Sorting-start a))
      λ t s. yields s

-- BubbleSort and BubbleSort2, called with an array and its length n, end without an access outside
-- the array, and each leaves the entries of the array in ascending order.
pub both_bubble-Sorts :
    (a : List ℤ)
    → Yields (Sorts a) (bubble_sort a (length a)) × Yields (Sorts a) (bubble_sort2 a (length a))
both_bubble-Sorts a = (bubble_sort-Sorts a, bubble_sort2-Sorts a)
