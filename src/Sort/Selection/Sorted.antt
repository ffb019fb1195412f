-- ===== src/Sort/Selection/Sorted.antt =====
-- Selectsort, by rounds.
use mathlib.Core.List.Perm
use funcodes.Prelude.{
  ℕ, ◌+◌, ◌-◌, ◌≤◌, ◌<◌, ◌≡◌, refl, List, Perm, arith, ℤ, ◌≤ℤ◌, length, at, load-at, swap-swapped,
  at-swapped, length-swapped, swapped-perm, Yields, yields, Yields-bind, Yields-map,
}
use funcodes.Prelude.Loops.{for_up_inv}
use funcodes.Sort.Order.{Sorts}
use funcodes.Sort.Selection.{select_step, select_round, select_sort}

-- Before round `i`: the first `i` entries ascend, and none of them is above a later entry.
record Selected (a : List ℤ) (i : ℕ) (b : List ℤ) : Type 0 where
  size : length b ≡ length a
  perm : Perm b a
  front : (p q : ℕ) → p ≤ q → p < i → q < length b → at b p ≤ℤ at b q

-- Before round `j` of the search: `m` is the index of a least entry among `i` … `j` - 1.
record Least (b : List ℤ) (i j m : ℕ) : Type 0 where
  low : i ≤ m
  high : m < length b
  least : (q : ℕ) → i ≤ q → q < j → at b m ≤ℤ at b q

select_step-Least :
    (b : List ℤ) (i j m : ℕ)
    → i + 1 ≤ j
    → j < length b
    → Least b i j m
    → Yields (Least b i (j + 1)) (select_step b j m)
unfolding select_step
select_step-Least b i j m l h p =
    rw (load-at b j h, load-at b m p.high)
      (yields (record {
        low = ground (arith, p.low);
        high = ground (arith, p.high);
        least = λ q r s. ground (arith, p.least q);
      }))

select_round-Selected :
    (a : List ℤ) (i : ℕ) (b : List ℤ)
    → 0 ≤ i
    → i < length a
    → Selected a i b
    → Yields (Selected a (i + 1)) (select_round (length a) i b)
unfolding select_round
select_round-Selected a i b _ h p =
    let start : Least b i (i + 1) i = record {
      low = omega arith;
      high = omega (arith, p.size);
      least = λ q r s. let e : q ≡ i = omega arith in rw e (omega arith);
    } in
    Yields-bind
      (for_up_inv (Least b i) (i + 1) (length b) (select_step b)
        (λ j m l r. select_step-Least b i j m l r) (length a - (i + 1)) (i + 1) i (omega arith)
        (omega (arith, p.size)) start)
      λ m f.
        let hi : i < length b = omega (arith, p.size) in
        rw (swap-swapped b i m hi f.high) (
          yields (record {
            size = omega (arith, p.size, length-swapped b i m);
            perm = Perm.trans (swapped-perm b i m hi f.high) p.perm;
            front = λ r q s t u. ground (
              arith,
              length-swapped b i m,
              f.low,
              at-swapped b i m hi f.high r,
              at-swapped b i m hi f.high q,
              p.front r q,
              p.front r i,
              p.front r m,
              f.least q,
              f.least i,
            );
          }))

-- Selectsort(a, n), for an array of n entries, ends without an access outside the array and leaves its
-- entries in ascending order.
pub select_sort-Sorts : (a : List ℤ) → Yields (Sorts a) (select_sort a (length a))
unfolding select_sort
select_sort-Sorts a =
    Yields-map
      (for_up_inv (Selected a) 0 (length a) (select_round (length a)) (select_round-Selected a)
        (length a) 0 a (omega arith) (omega arith)
        (record { size = refl; perm = Perm.rfl; front = λ p q l m. absurd (omega arith) }))
      λ b s. (λ i j l m. s.front i j l (omega (arith, s.size)) m, s.perm)
