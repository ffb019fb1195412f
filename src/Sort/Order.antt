-- ===== src/Sort/Order.antt =====
-- What a sorting function owes.
use funcodes.Prelude.{ℕ, zero, suc, ◌-◌, ◌≤◌, ◌<◌, List, Perm, arith, ℤ, ◌≤ℤ◌, length, at}

-- The first `n` entries ascend.
abbrev pub IsSortedTo : ℕ → List ℤ → Type 0
IsSortedTo n a = (i j : ℕ) → i ≤ j → j < n → at a i ≤ℤ at a j

abbrev pub IsSorted : List ℤ → Type 0
IsSorted a = IsSortedTo (length a) a

-- `b` is the input `a` in ascending order.
abbrev pub Sorts : List ℤ → List ℤ → Type 0
Sorts a b = IsSorted b × Perm b a

-- Neighbours in order are enough.
pub IsSortedTo_of_neighbours :
    (n : ℕ) (a : List ℤ)
    → ((c : ℕ) → 0 < c → c < n → at a (c - 1) ≤ℤ at a c)
    → (i j : ℕ) → i ≤ j
    → j < n
    → at a i ≤ℤ at a j
IsSortedTo_of_neighbours n a h i zero l m = ground arith
IsSortedTo_of_neighbours n a h i (suc j) l m =
    ground (arith, h (suc j), IsSortedTo_of_neighbours n a h i j)
