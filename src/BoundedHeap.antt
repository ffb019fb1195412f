-- ===== src/BoundedHeap.antt =====
-- The loops that c++/utils/custom_heap.hpp and c++/utils/custom_max_heap.hpp share: a bounded heap in
-- an array, with the comparison that the user of the class hands over. `n` is the number of entries
-- in use.
pub mod Compare
pub mod Climb
pub mod Build
pub mod Fix
pub mod Custom
pub mod Max
mod Tests
use funcodes.Prelude.{
  ℕ, ◌+◌, ◌-◌, ◌*◌, ◌/◌, Bool, true, false, not, ◌&&◌, List, Option, some, ◌>>=◌, ltb,
  if◌then◌else◌, load, swap,
}
use funcodes.Prelude.Loops.{Flow, again, stop, for_down, loop}

module _ {ℓ} {A : Type ℓ} (compare : A → A → Bool) where
  -- The child that `build_heap` looks at: of two, the one that the comparison puts last.
  pub build_child : ℕ → ℕ → List A → Option ℕ
  build_child n mid a =
      let left = 2 * mid + 1 in
      let right = 2 * (mid + 1) in
      if ltb right n
      then (do x ← load a left; y ← load a right; some (if compare x y then right else left))
      else some left

  -- The body of build_heap's `while`: one exchange at most.
  pub build_round : ℕ → ℕ → List A → Option (List A)
  build_round n mid a = do
    tmp ← build_child n mid a
    let settle = some a
    let exchange : Option (List A) = do
      x ← load a mid
      y ← load a tmp
      if compare x y then swap a mid tmp else settle
    if ltb tmp n then exchange else settle

  -- while (mid >= 0), from (n - 1) >> 1 down.
  pub build_loop : ℕ → List A → Option (List A)
  build_loop n a = for_down ((n - 1) / 2 + 1) (build_round n) a

  -- k < n and _compare(heap[j], heap[ind]), for the children j and k of `ind`.
  pub fix_test : ℕ → List A → ℕ → Option Bool
  fix_test n a ind =
      if ltb (2 * (ind + 1)) n
      then (do x ← load a (2 * ind + 1); y ← load a ind; some (compare x y))
      else some false

  -- tmp < n and _compare(heap[ind], heap[tmp])
  pub fix_below : ℕ → List A → ℕ → ℕ → Option Bool
  fix_below n a ind tmp =
      if ltb tmp n then (do x ← load a ind; y ← load a tmp; some (compare x y)) else some false

  -- The body of fix_heap's `while`: the array, `ind` and `has_child`. `after` is what has_child is
  -- after an exchange: CustomHeap sets it to true there, and CustomMaxHeap leaves it.
  pub fix_round : (Bool → Bool) → ℕ → List A × ℕ × Bool → Option (Flow (List A × ℕ × Bool))
  fix_round after n (a, ind, has_child) =
      let round : Option (Flow (List A × ℕ × Bool)) = do
        other ← fix_test n a ind
        let tmp = if other then 2 * (ind + 1) else 2 * ind + 1
        below ← fix_below n a ind tmp
        if below
            then (do b ← swap a ind tmp; some (again (b, tmp, after (not other))))
            else some (again (a, tmp, not other))
      in if ltb ind n && has_child then round else some (stop (a, ind, has_child))

  pub fix_loop : (Bool → Bool) → ℕ → List A → Option (List A)
  fix_loop after n a = do
    (b, ind, has_child) ← loop (n + 1) (fix_round after n) (a, 0, true)
    some b
