-- ===== src/BoundedHeap/Tests.antt =====
-- The bounded heaps on heaps of numbers with their order as the comparison, so with the greatest on
-- top.
use funcodes.Prelude.{ℕ, ◌≡◌, refl, [], ◌∷◌, some, ltb, load, Yields, arith}
use funcodes.BoundedHeap.Compare.{IsOrder, IsTop}
use funcodes.BoundedHeap.Max
use funcodes.BoundedHeap.Max.{CustomMaxHeap}
use funcodes.BoundedHeap.Custom
use funcodes.BoundedHeap.Custom.{CustomHeap}

ltb-IsOrder : IsOrder ltb
ltb-IsOrder = record {
  irrefl = λ x. ground arith;
  asymm = λ x y e. ground arith;
  trans = λ x y z e f. ground arith;
}

abbrev two_of_three : CustomMaxHeap ℕ
two_of_three = record { capacity = 3; index = 2; heap = 4 ∷ 7 ∷ [] }

insert-Filled_example :
    Yields (Max.Filled ltb ltb-IsOrder two_of_three 9) (Max.insert ltb two_of_three 9)
insert-Filled_example = Max.insert-Filled ltb ltb-IsOrder two_of_three 9 refl (omega arith)

resize_heap-HandsOut_example :
    Yields
      (Max.HandsOut ltb ltb-IsOrder 3 (4 ∷ 7 ∷ 5 ∷ 4 ∷ []))
      (Max.resize_heap ltb (record { capacity = 4; index = 4; heap = 9 ∷ 7 ∷ 5 ∷ 4 ∷ [] }))
resize_heap-HandsOut_example = Max.resize_heap-HandsOut ltb ltb-IsOrder 4 9 4 (7 ∷ 5 ∷ []) []

-- A heap as a full CustomMaxHeap keeps it, with 9 on top.
abbrev full_max : CustomMaxHeap ℕ
full_max = record { capacity = 3; index = 3; heap = 9 ∷ 5 ∷ 7 ∷ [] }

insert-IsNotTop_example :
    Yields (λ r. (r.out ≡ some 5) × ¬ IsTop ltb 3 r.next.heap 5) (Max.insert ltb full_max 2)
unfolding load
insert-IsNotTop_example =
    Max.insert-IsNotTop ltb full_max 2 (omega arith) (omega arith) 5 7 (omega arith) refl refl refl
      refl refl

abbrev two_stored : CustomHeap ℕ
two_stored = record { heap = 4 ∷ 7 ∷ 0 ∷ []; capacity = 3; current_size = 2 }

insert-Stored_example :
    Yields (Custom.Stored ltb ltb-IsOrder two_stored 9) (Custom.insert ltb two_stored 9)
insert-Stored_example = Custom.insert-Stored ltb ltb-IsOrder two_stored 9 refl (omega arith)

abbrev full_custom : CustomHeap ℕ
full_custom = record { heap = 9 ∷ 5 ∷ 7 ∷ []; capacity = 3; current_size = 3 }
