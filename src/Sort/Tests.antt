-- ===== src/Sort/Tests.antt =====
-- Runs of the sorting functions, and each theorem about them at a concrete array.
use funcodes.Prelude.{◌≡◌, refl, true, List, [], ◌∷◌, ◌>>=◌, ℤ, pos, negsuc, Yields}
use funcodes.Sort.Order.{Sorts}
use funcodes.Sort.Bubble.{bubble_sort, bubble_sort2}
use funcodes.Sort.Bubble.Sorted.{both_bubble-Sorts}
use funcodes.Sort.Selection.{select_sort}
use funcodes.Sort.Selection.Sorted.{select_sort-Sorts}
use funcodes.Sort.Insertion.{insert_sort1, insert_sort2, insert_sort3}
use funcodes.Sort.Insertion.Sorted.{all_insert-Sorts}
use funcodes.Sort.Shell.{shell_sort1, shell_sort2, shell_sort3}
use funcodes.Sort.Shell.Sorted.{all_shell-Sorts}
use funcodes.Sort.HeapSort.{make_min_heap, min_heap_sort}
use funcodes.Sort.HeapSort.Sorted.{min_heap_sort-Sorts}
use funcodes.Sort.Merge.{merge_sort}
use funcodes.Sort.Merge.Sorted.{merge_sort-Sorts}

-- The array of the files' `main`, with a negative entry more.
abbrev numbers : List ℤ
numbers = pos 3 ∷ pos 2 ∷ pos 1 ∷ pos 5 ∷ pos 2 ∷ pos 0 ∷ pos 9 ∷ negsuc 6 ∷ []

select_sort-Sorts_example : Yields (Sorts numbers) (select_sort numbers 8)
select_sort-Sorts_example = select_sort-Sorts numbers

min_heap_sort-Sorts_example :
    Yields (Sorts numbers) (make_min_heap numbers 8 >>= λ b. min_heap_sort b 8)
min_heap_sort-Sorts_example = min_heap_sort-Sorts numbers

merge_sort-Sorts_example :
    Yields (λ r. Sorts numbers r.0 × (r.1 ≡ true)) (merge_sort numbers 8 numbers)
merge_sort-Sorts_example = merge_sort-Sorts numbers numbers refl

both_bubble-Sorts_example :
    Yields (Sorts numbers) (bubble_sort numbers 8) × Yields (Sorts numbers) (bubble_sort2 numbers 8)
both_bubble-Sorts_example = both_bubble-Sorts numbers

all_insert-Sorts_example :
    Yields (Sorts numbers) (insert_sort1 numbers 8)
    × Yields (Sorts numbers) (insert_sort2 numbers 8)
    × Yields (Sorts numbers) (insert_sort3 numbers 8)
all_insert-Sorts_example = all_insert-Sorts numbers

all_shell-Sorts_example :
    Yields (Sorts numbers) (shell_sort1 numbers 8)
    × Yields (Sorts numbers) (shell_sort2 numbers 8)
    × Yields (Sorts numbers) (shell_sort3 numbers 8)
all_shell-Sorts_example = all_shell-Sorts numbers
