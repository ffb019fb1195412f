-- ===== src/Sort/Insertion.antt =====
-- c++/algos/sort/insertSort.cpp.
pub mod Sorted
use funcodes.Prelude.{
  ℕ, ◌+◌, ◌-◌, List, Option, some, ◌>>=◌, ltb, ◌==◌, if◌then◌else◌, ℤ, lt, load, store,
}
use funcodes.Prelude.Loops.{Flow, again, stop, for_up, for_down, loop}
use funcodes.Sort.Gap.{gap_insert, gap_sink}

-- for (j = i - 1; j >= 0; j--) if (a[j] < a[i]) break, with `place` for `j + 1`.
pub scan_body : List ℤ → ℕ → ℕ → Option (Flow ℕ)
scan_body a i place =
    if ltb 0 place
    then (do
      x ← load a (place - 1)
      y ← load a i
      some (if lt x y then stop place else again (place - 1)))
    else some (stop place)

-- The body of the second inner `for`: a[k + 1] = a[k].
pub move_up : ℕ → List ℤ → Option (List ℤ)
move_up k a = do x ← load a k; store a (k + 1) x

-- The body of Insertsort1's outer `for`. The second inner `for` runs from k = i - 1 down to `place`.
pub insert_round1 : ℕ → List ℤ → Option (List ℤ)
insert_round1 i a = do
  place ← loop (i + 1) (scan_body a i) i
  if place == i then some a else do
    temp ← load a i
    b ← for_down (i - place) (λ t. move_up (place + t)) a
    store b place temp

pub insert_sort1 : List ℤ → ℕ → Option (List ℤ)
insert_sort1 a n = for_up (n - 1) 1 insert_round1 a

pub insert_sort2 : List ℤ → ℕ → Option (List ℤ)
insert_sort2 a n = for_up (n - 1) 1 (gap_insert 1) a

pub insert_sort3 : List ℤ → ℕ → Option (List ℤ)
insert_sort3 a n = for_up (n - 1) 1 (gap_sink 1) a
