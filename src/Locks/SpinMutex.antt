-- ===== src/Locks/SpinMutex.antt =====
-- c++/utils/cache/spinlock.h: SpinMutex, a lock on one atomic flag.
use funcodes.Prelude.{
  ℕ, zero, suc, ◌+◌, ◌≡◌, ◌≢◌, refl, Bool, true, false, List, [], ◌∷◌, some, load, arith,
}
use funcodes.Locks.Total.{total, total-set, total-two}
use funcodes.Locks.System.{Moves, move, Reaches, Reaches-keeps}

-- Where a thread is: outside, in lock(), in try_lock(), or past one of them.
pub data Pc : Type 0 where
  idle : Pc
  locking : Pc
  trying : Pc
  holding : Pc

-- The flag `m_` before and after a step. The flag is tested and set at once.
pub data Step : Bool → Pc → Bool → Pc → Type 0 where
  call_lock : {m : Bool} → Step m idle m locking
  call_try_lock : {m : Bool} → Step m idle m trying
  lock_taken : Step false locking true holding
  lock_spin : Step true locking true locking
  try_taken : Step false trying true holding
  try_refused : Step true trying true idle
  unlock : {m : Bool} → Step m holding false idle

abbrev pub holds : Pc → ℕ
holds holding = 1
holds p = 0

abbrev pub flag : Bool → ℕ
flag true = 1
flag false = 0

unfoldable pub outside : ℕ → List Pc
outside zero = []
outside (suc n) = idle ∷ outside n

total-outside : (n : ℕ) → total holds (outside n) ≡ 0
unfolding outside total
total-outside zero = refl
total-outside (suc n) = omega (arith, total-outside n)

abbrev Counted : Bool × List Pc → Type 0
Counted (m, threads) = total holds threads ≡ flag m

Step-counts :
    {m m' : Bool} {p q : Pc} {h h' : ℕ}
    → Step m p m' q
    → h' + holds p ≡ h + holds q
    → h ≡ flag m
    → h' ≡ flag m'
Step-counts call_lock e f = omega arith
Step-counts call_try_lock e f = omega arith
Step-counts lock_taken e f = omega arith
Step-counts lock_spin e f = omega arith
Step-counts try_taken e f = omega arith
Step-counts try_refused e f = omega arith
Step-counts (unlock {m}) e f = ground arith

Moves-Counted : (a b : Bool × List Pc) → Moves Step a b → Counted a → Counted b
Moves-Counted (m, threads) _ (move {q = q} i e step) c =
    Step-counts step (total-set holds threads i q e) c

-- For any number of threads and any order of their steps: the flag says whether a thread holds the
-- lock, the threads that hold it being one or none, and no two different threads hold it.
pub holding-excludes :
    (n : ℕ) {m : Bool} {threads : List Pc}
    → Reaches Step (false, outside n) (m, threads)
    → (total holds threads ≡ flag m)
      × ((i j : ℕ) → i ≢ j → load threads i ≡ some holding → load threads j ≢ some holding)
holding-excludes n {m} {threads} run =
    let c = Reaches-keeps Step Moves-Counted run (total-outside n) in
    (c, λ i j ne e f. absurd (ground (arith, c, total-two holds threads i j ne e f)))
