-- ===== src/Sort/Merge.antt =====
-- c++/algos/sort/mergeSort.cpp.
pub mod Segment
pub mod Merging
pub mod Sorted
use funcodes.Prelude.{
  ℕ, zero, suc, ◌+◌, ◌-◌, ◌/◌, Bool, true, false, ◌&&◌, List, [], ◌∷◌, Option, none, some, ◌>>=◌,
  ltb, leb, if◌then◌else◌, ℤ, lt, load, store,
}
use funcodes.Prelude.Loops.{Flow, again, stop, for_up, loop}

-- The body of mergearray's first `while`: temp, i, j and k.
pub merge_body : List ℤ → ℕ → ℕ → List ℤ × ℕ × ℕ × ℕ → Option (Flow (List ℤ × ℕ × ℕ × ℕ))
merge_body a m n (temp, i, j, k) =
    let left : Option (Flow (List ℤ × ℕ × ℕ × ℕ)) = do
      x ← load a i
      t ← store temp k x
      some (again (t, i + 1, j, k + 1))
    in let right : Option (Flow (List ℤ × ℕ × ℕ × ℕ)) = do
      y ← load a j
      t ← store temp k y
      some (again (t, i, j + 1, k + 1))
      in let round : Option (Flow (List ℤ × ℕ × ℕ × ℕ)) = do
        x ← load a i
        y ← load a j
        if lt x y then left else right
        in if leb i m && leb j n then round else some (stop (temp, i, j, k))

-- The body of each of the other two, up to the place `last`: temp, the place and k.
pub rest_body : List ℤ → ℕ → List ℤ × ℕ × ℕ → Option (Flow (List ℤ × ℕ × ℕ))
rest_body a last (temp, i, k) =
    if leb i last
    then (do x ← load a i; t ← store temp k x; some (again (t, i + 1, k + 1)))
    else some (stop (temp, i, k))

-- a[first + i] = temp[i];
pub back_body : List ℤ → ℕ → ℕ → List ℤ → Option (List ℤ)
back_body temp first i a = do x ← load temp i; store a (first + i) x

-- The arrays a and temp afterwards.
pub merge_array : List ℤ → ℕ → ℕ → ℕ → List ℤ → Option (List ℤ × List ℤ)
merge_array a first mid last temp = do
  (t, i, j, k) ← loop (last + 2) (merge_body a mid last) (temp, first, mid + 1, 0)
  (u, i, k) ← loop (last + 2) (rest_body a mid) (t, i, k)
  (v, j, k) ← loop (last + 2) (rest_body a last) (u, j, k)
  b ← for_up k 0 (back_body v first) a
  some (b, v)

-- mergesort, to a bounded depth.
pub merge_sort_range : ℕ → List ℤ → ℕ → ℕ → List ℤ → Option (List ℤ × List ℤ)
merge_sort_range zero a first last temp = none
merge_sort_range (suc depth) a first last temp =
    let mid = (first + last) / 2 in
    elim (ltb first last) [
      | true ↦ do
        (b, t) ← merge_sort_range depth a first mid temp
        (c, u) ← merge_sort_range depth b (mid + 1) last t
        merge_array c first mid last u
      | false ↦ some (a, temp)
    ]

-- MergeSort, with the memory that new gives in `p`: the array and the result.
pub merge_sort : List ℤ → ℕ → List ℤ → Option (List ℤ × Bool)
merge_sort a n p = do (b, t) ← merge_sort_range (n + 1) a 0 (n - 1) p; some (b, true)
