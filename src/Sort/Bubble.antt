-- ===== src/Sort/Bubble.antt =====
-- c++/algos/sort/bubbleSort.cpp.
pub mod Pass
pub mod Sorted
use funcodes.Prelude.{
  ℕ, ◌+◌, ◌-◌, Bool, true, false, List, Option, some, ◌>>=◌, ltb, if◌then◌else◌, ℤ, lt, load, swap,
}
use funcodes.Prelude.Loops.{Flow, again, stop, for_up, loop}

-- The body of the inner `for` of BubbleSort: the array and `flag`.
pub bubble_step : ℕ → List ℤ × Bool → Option (List ℤ × Bool)
bubble_step j (a, flag) = do
  x ← load a (j - 1)
  y ← load a j
  if lt y x then (do b ← swap a (j - 1) j; some (b, true)) else some (a, flag)

-- The `while (flag)`: the array, `k` and `flag`. At `k` = 0 the source counts on to -1; both leave
-- the inner loop without a round, and `flag` is then false.
pub bubble_round : List ℤ × ℕ × Bool → Option (Flow (List ℤ × ℕ × Bool))
bubble_round (a, k, flag) =
    if flag
    then (do
      (b, swapped) ← for_up (k - 1) 1 bubble_step (a, false)
      some (again (b, k - 1, swapped)))
    else some (stop (a, k, flag))

pub bubble_sort : List ℤ → ℕ → Option (List ℤ)
bubble_sort a n = do (b, k, flag) ← loop (n + 2) bubble_round (a, n, true); some b

-- The body of the inner `for` of BubbleSort2, where `flag` is the place of the last exchange.
pub bubble_step2 : ℕ → List ℤ × ℕ → Option (List ℤ × ℕ)
bubble_step2 j (a, flag) = do
  x ← load a (j - 1)
  y ← load a j
  if lt y x then (do b ← swap a (j - 1) j; some (b, j)) else some (a, flag)

pub bubble_round2 : List ℤ × ℕ → Option (Flow (List ℤ × ℕ))
bubble_round2 (a, flag) =
    if ltb 0 flag
    then (do s ← for_up (flag - 1) 1 bubble_step2 (a, 0); some (again s))
    else some (stop (a, flag))

pub bubble_sort2 : List ℤ → ℕ → Option (List ℤ)
bubble_sort2 a n = do (b, flag) ← loop (n + 1) bubble_round2 (a, n); some b
