-- ===== src/Locks/Total.antt =====
-- Sums over the threads of a system, and what a step of one of them does to a sum.
use funcodes.Prelude.{
  ℕ, zero, suc, ◌+◌, ◌≤◌, ◌≡◌, ◌≢◌, refl, ap, List, [], ◌∷◌, some, arith, load, set, length,
}

module _ {ℓ} {A : Type ℓ} (weight : A → ℕ) where
  unfoldable pub total : List A → ℕ
  total [] = 0
  total (p ∷ threads) = weight p + total threads

  pub total-set :
      (threads : List A) (i : ℕ) {p : A} (q : A)
      → load threads i ≡ some p
      → total (set threads i q) + weight p ≡ total threads + weight q
  unfolding total load
  total-set [] i q e = absurd (cc e)
  total-set (r ∷ threads) zero {p} q e = let same : r ≡ p = cc e in rw (← same) (omega arith)
  total-set (r ∷ threads) (suc i) q e = omega (arith, total-set threads i q e)

  pub total-one :
      (threads : List A) (i : ℕ) {p : A} → load threads i ≡ some p → weight p ≤ total threads
  unfolding total load
  total-one [] i e = absurd (cc e)
  total-one (r ∷ threads) zero {p} e = let same : r ≡ p = cc e in rw (← same) (omega arith)
  total-one (r ∷ threads) (suc i) e = omega (arith, total-one threads i e)

  pub total-two :
      (threads : List A) (i j : ℕ) {p q : A}
      → i ≢ j
      → load threads i ≡ some p
      → load threads j ≡ some q
      → weight p + weight q ≤ total threads
  unfolding total load
  total-two [] i j ne e f = absurd (cc e)
  total-two (r ∷ threads) zero zero ne e f = absurd (ne refl)
  total-two (r ∷ threads) zero (suc j) {p} ne e f =
      let same : r ≡ p = cc e in rw (← same) (omega (arith, total-one threads j f))
  total-two (r ∷ threads) (suc i) zero {q = q} ne e f =
      let same : r ≡ q = cc f in rw (← same) (omega (arith, total-one threads i e))
  total-two (r ∷ threads) (suc i) (suc j) ne e f =
      omega (arith, total-two threads i j (λ m. ne (ap suc m)) e f)

  pub total-bound : ((p : A) → weight p ≤ 1) → (threads : List A) → total threads ≤ length threads
  unfolding total
  total-bound small [] = omega arith
  total-bound small (p ∷ threads) = omega (arith, small p, total-bound small threads)
