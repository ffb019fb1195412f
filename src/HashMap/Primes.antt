-- ===== src/HashMap/Primes.antt =====
-- IsPrime, FindAPrime and the constructor's choice of the number of buckets, of
-- c++/utils/cache/concurrent_hashmap.h and concurrent_hashmap_element_lock.h.
use native.Mathlib.Nat.{mul-le-mul, div-add-mod, mul-mod_left, le_refl}
use funcodes.Prelude.{
  ℕ, zero, suc, ◌+◌, ◌*◌, ◌/◌, ◌%◌, ◌≤◌, ◌<◌, ◌≡◌, ◌≢◌, subst, ◌↔◌, Bool, true, false, Option, none,
  some, arith, leb, ltb, ltb→le, ◌==◌, Bool-cases, inl, inr, if◌then◌else◌, ◌>>=◌,
}

-- `(int)std::sqrt((double)n)`, exact for the sizes of a table
unfoldable pub root_from : ℕ → ℕ → ℕ → ℕ
root_from zero n r = r
root_from (suc rounds) n r = elim (leb ((r + 1) * (r + 1)) n) [
  | true ↦ root_from rounds n (r + 1)
  | false ↦ r
]

unfoldable pub floor_sqrt : ℕ → ℕ
floor_sqrt n = root_from n n 0

-- The loop of IsPrime, whose result says whether it ran to its end
unfoldable pub trial : ℕ → ℕ → ℕ → ℕ → Option Bool
trial zero n k i = none
trial (suc rounds) n k i =
    let rest = trial rounds n k (i + 1) in
    if leb i k then (if n % i == 0 then some false else rest) else some true

unfoldable pub is_prime : ℕ → Option Bool
is_prime n = trial (suc (floor_sqrt n)) n (floor_sqrt n) 2

unfoldable pub next_prime : ℕ → ℕ → Option ℕ
next_prime zero hint = none
next_prime (suc rounds) hint =
    let rest = next_prime rounds (hint + 1) in
    (do prime ← is_prime hint; if prime then some hint else rest)

abbrev pub most_buckets : ℕ
most_buckets = 500009

unfoldable pub find_a_prime : ℕ → ℕ → Option ℕ
find_a_prime rounds hint = if leb most_buckets hint then some most_buckets else (do
  prime ← next_prime rounds hint
  some (if ltb prime most_buckets then prime else most_buckets))

-- No number from 2 up to the root divides `n`.
abbrev pub NoDivisor : ℕ → Type 0
NoDivisor n = (d : ℕ) → 2 ≤ d → d * d ≤ n → n % d ≢ 0

-- For a number from 2 on that is the usual notion.
NoDivisor-prime : (n : ℕ) → 2 ≤ n → NoDivisor n ↔ ((d : ℕ) → 2 ≤ d → d < n → n % d ≢ 0)
NoDivisor-prime n two = (
  (λ h d low small z. elim (Bool-cases (leb (d * d) n)) [
    | inl e ↦ h d low (ground arith) z
    | inr e ↦
        let q = n / d in
        let m : d * q ≡ n = omega (arith, div-add-mod n d, z) in
        let below : q < d = elim (Bool-cases (ltb q d)) [
          | inl f ↦ ground arith
          | inr f ↦ absurd (ground (arith, mul-le-mul (le_refl d) (ltb→le q d f)))
        ] in
        let from_two : 2 ≤ q = elim (Bool-cases (leb 2 q)) [
          | inl f ↦ ground arith
          | inr f ↦
              let one : q ≤ 1 = ground arith in absurd (omega (arith, mul-le-mul (le_refl d) one))
        ] in
        let fits : q * q ≤ n =
          omega (arith, mul-le-mul (let b : q ≤ d = omega arith in b) (le_refl q)) in
        h q from_two fits (subst (λ (t : ℕ). t % q ≡ 0) m (mul-mod_left d q))
  ]),
  λ h d low small. h d low (omega (arith, mul-le-mul low (le_refl d))),
)

-- The least number from `hint` on with no divisor up to its root
abbrev pub IsNext : ℕ → ℕ → ℕ → Type 0
IsNext limit hint p =
    NoDivisor p
    × (p ≤ limit)
    × (hint ≤ limit → hint ≤ p)
    × ((m : ℕ) → hint ≤ m → m < p → ¬ NoDivisor m)
