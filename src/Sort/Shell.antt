-- ===== src/Sort/Shell.antt =====
-- c++/algos/sort/shellSort.cpp.
pub mod Sorted
use funcodes.Prelude.{ℕ, ◌+◌, ◌-◌, ◌/◌, List, Option, some, ◌>>=◌, ltb, if◌then◌else◌, ℤ}
use funcodes.Prelude.Loops.{Flow, again, stop, for_up, loop}
use funcodes.Sort.Gap.{gap_insert, gap_sink}

-- for (j = i + gap; j < n; j += gap) in shellsort1.
pub stride_body : ℕ → ℕ → List ℤ × ℕ → Option (Flow (List ℤ × ℕ))
stride_body n gap (a, j) =
    if ltb j n then (do b ← gap_insert gap j a; some (again (b, j + gap))) else some (stop (a, j))

-- The body of shellsort1's `for (i = 0; i < gap; i++)`: every entry `gap` apart from `i` on.
pub stride : ℕ → ℕ → ℕ → List ℤ → Option (List ℤ)
stride n gap i a = do (b, j) ← loop (n + 1) (stride_body n gap) (a, i + gap); some b

-- The body of the `for` over `gap`, in each of the three.
pub shell_pass1 : ℕ → ℕ → List ℤ → Option (List ℤ)
shell_pass1 n gap a = for_up gap 0 (stride n gap) a

pub shell_pass2 : ℕ → ℕ → List ℤ → Option (List ℤ)
shell_pass2 n gap a = for_up (n - gap) gap (gap_insert gap) a

pub shell_pass3 : ℕ → ℕ → List ℤ → Option (List ℤ)
shell_pass3 n gap a = for_up (n - gap) gap (gap_sink gap) a

-- for (gap = n / 2; gap > 0; gap /= 2)
pub gap_body : (ℕ → List ℤ → Option (List ℤ)) → List ℤ × ℕ → Option (Flow (List ℤ × ℕ))
gap_body pass (a, gap) =
    if ltb 0 gap then (do b ← pass gap a; some (again (b, gap / 2))) else some (stop (a, gap))

pub shell_sort1 : List ℤ → ℕ → Option (List ℤ)
shell_sort1 a n = do (b, gap) ← loop (n + 1) (gap_body (shell_pass1 n)) (a, n / 2); some b

pub shell_sort2 : List ℤ → ℕ → Option (List ℤ)
shell_sort2 a n = do (b, gap) ← loop (n + 1) (gap_body (shell_pass2 n)) (a, n / 2); some b

pub shell_sort3 : List ℤ → ℕ → Option (List ℤ)
shell_sort3 a n = do (b, gap) ← loop (n + 1) (gap_body (shell_pass3 n)) (a, n / 2); some b
