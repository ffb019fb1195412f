-- ===== src/Sort/Selection.antt =====
-- c++/algos/sort/selectSort.cpp.
pub mod Sorted
use funcodes.Prelude.{ℕ, ◌+◌, ◌-◌, List, Option, some, ◌>>=◌, if◌then◌else◌, ℤ, lt, load, swap}
use funcodes.Prelude.Loops.{for_up}

-- The body of the inner `for`: keeps the index of the least entry.
pub select_step : List ℤ → ℕ → ℕ → Option ℕ
select_step a j min_index = do
  x ← load a j
  y ← load a min_index
  some (if lt x y then j else min_index)

-- The body of the outer `for`.
pub select_round : ℕ → ℕ → List ℤ → Option (List ℤ)
select_round n i a = do
  min_index ← for_up (n - (i + 1)) (i + 1) (select_step a) i
  swap a i min_index

pub select_sort : List ℤ → ℕ → Option (List ℤ)
select_sort a n = for_up n 0 (select_round n) a
