-- ===== src/Sort/HeapSort.antt =====
-- c++/algos/sort/heapSort.cpp. The functions are called Min, and keep the largest entry on top.
pub mod Heap
pub mod Sorted
use funcodes.Prelude.{
  ℕ, ◌+◌, ◌-◌, ◌*◌, ◌/◌, List, Option, some, ◌>>=◌, ltb, if◌then◌else◌, ℤ, lt, load, store, swap,
}
use funcodes.Prelude.Loops.{Flow, again, stop, for_down, loop}

-- if (j + 1 < n && a[j + 1] > a[j]) j++;
pub larger_child : ℕ → List ℤ → ℕ → Option ℕ
larger_child n a j =
    if ltb (j + 1) n
    then (do x ← load a (j + 1); y ← load a j; some (if lt y x then j + 1 else j))
    else some j

-- The `while` of MinHeapFixdown: the array and `i`; `j` is 2 * i + 1 at the head of each round.
pub fixdown_body : ℕ → ℤ → List ℤ × ℕ → Option (Flow (List ℤ × ℕ))
fixdown_body n temp (a, i) =
    if ltb (2 * i + 1) n
    then (do
      j ← larger_child n a (2 * i + 1)
      x ← load a j
      if lt temp x then (do b ← store a i x; some (again (b, j))) else some (stop (a, i)))
    else some (stop (a, i))

pub min_heap_fixdown : List ℤ → ℕ → ℕ → Option (List ℤ)
min_heap_fixdown a i n = do
  temp ← load a i
  (b, h) ← loop (n + 1) (fixdown_body n temp) (a, i)
  store b h temp

pub make_min_heap : List ℤ → ℕ → Option (List ℤ)
make_min_heap a n = for_down (n / 2) (λ i b. min_heap_fixdown b i n) a

-- The body of the `for`, whose `i` is `t` + 1.
pub extract_round : ℕ → List ℤ → Option (List ℤ)
extract_round t a = do b ← swap a (t + 1) 0; min_heap_fixdown b 0 (t + 1)

pub min_heap_sort : List ℤ → ℕ → Option (List ℤ)
min_heap_sort a n = for_down (n - 1) extract_round a
