-- ===== src/Sort/Gap.antt =====
-- The insertion of one entry among those `gap` places apart, as c++/algos/sort/shellSort.cpp and,
-- at gap 1, insertSort.cpp write it. A local `k` or `j` that may fall below 0 is kept as the place
-- `gap` above it, which is a place of the array.
pub mod Sinking
pub mod Held
use funcodes.Prelude.{
  ℕ, ◌+◌, ◌-◌, List, Option, some, ◌>>=◌, leb, if◌then◌else◌, ℤ, lt, load, store, swap,
}
use funcodes.Prelude.Loops.{Flow, again, stop, loop}

-- while (k >= 0 && a[k] > temp) { a[k + gap] = a[k]; k -= gap; }, with `h` for `k + gap`.
pub shift_body : ℕ → ℤ → List ℤ × ℕ → Option (Flow (List ℤ × ℕ))
shift_body gap temp (a, h) =
    if leb gap h
    then (do
      x ← load a (h - gap)
      if lt temp x then (do b ← store a h x; some (again (b, h - gap))) else some (stop (a, h)))
    else some (stop (a, h))

-- if (a[j] < a[j - gap]) { temp = a[j]; the loop above; a[k + gap] = temp; }
pub gap_insert : ℕ → ℕ → List ℤ → Option (List ℤ)
gap_insert gap j a = do
  temp ← load a j
  y ← load a (j - gap)
  if lt temp y
      then (do (b, h) ← loop (j + 1) (shift_body gap temp) (a, j); store b h temp)
      else some a

-- for (; j >= 0 && a[j] > a[j + gap]; j -= gap) Swap(a[j], a[j + gap]), with `h` for `j + gap`.
pub sink_body : ℕ → List ℤ × ℕ → Option (Flow (List ℤ × ℕ))
sink_body gap (a, h) =
    if leb gap h
    then (do
      x ← load a (h - gap)
      y ← load a h
      if lt y x then (do b ← swap a (h - gap) h; some (again (b, h - gap))) else some (stop (a, h)))
    else some (stop (a, h))

pub gap_sink : ℕ → ℕ → List ℤ → Option (List ℤ)
gap_sink gap i a = do (b, h) ← loop (i + 1) (sink_body gap) (a, i); some b
