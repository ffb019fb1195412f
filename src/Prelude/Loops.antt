-- ===== src/Prelude/Loops.antt =====
-- The loops of the program, over calls that may fail, and one rule for each.
use Prim.Native.Nat.{ℕ, zero, suc, ◌+◌, ◌<◌, ◌≤◌}
use mathlib.Core.Path.{◌≡◌}
use mathlib.Core.Option.{Option, none, some}
use native.Mathlib.Omega.{arith}
use funcodes.Prelude.Outcome.{◌>>=◌, Yields, yields, Yields-bind}

-- How a round of a `while` ends: with another round, or by leaving the loop.
pub data Flow {ℓ} (S : Type ℓ) : Type ℓ where
  again : S → Flow S
  stop : S → Flow S

module _ {ℓ} {S : Type ℓ} where
  -- for (i = first; i < first + rounds; i++) body
  unfoldable pub for_up : ℕ → ℕ → (ℕ → S → Option S) → S → Option S
  for_up zero i body s = some s
  for_up (suc n) i body s = body i s >>= for_up n (i + 1) body

  -- for (i = rounds - 1; i >= 0; i--) body
  unfoldable pub for_down : ℕ → (ℕ → S → Option S) → S → Option S
  for_down zero body s = some s
  for_down (suc i) body s = body i s >>= for_down i body

  -- while (true) body, for at most `fuel` rounds
  unfoldable pub loop : ℕ → (S → Option (Flow S)) → S → Option S
  loop zero body s = none
  loop (suc fuel) body s = body s >>= elim [ again t ↦ loop fuel body t | stop t ↦ some t ]

module _ {ℓ κ} {S : Type ℓ} where
  pub for_up_inv :
      (P : ℕ → S → Type κ) (lo hi : ℕ) (body : ℕ → S → Option S)
      → ((i : ℕ) (s : S) → lo ≤ i → i < hi → P i s → Yields (P (i + 1)) (body i s))
      → (n i : ℕ) (s : S) → lo ≤ i
      → i + n ≡ hi
      → P i s
      → Yields (P hi) (for_up n i body s)
  unfolding for_up
  for_up_inv P lo hi body keep zero i s l e p = let e' : i ≡ hi = omega arith in yields (rw e' at p)
  for_up_inv P lo hi body keep (suc n) i s l e p =
      Yields-bind (keep i s l (omega arith) p)
        λ t q. for_up_inv P lo hi body keep n (i + 1) t (omega arith) (omega arith) q

  pub for_down_inv :
      (P : ℕ → S → Type κ) (hi : ℕ) (body : ℕ → S → Option S)
      → ((i : ℕ) (s : S) → i < hi → P (suc i) s → Yields (P i) (body i s))
      → (n : ℕ) (s : S) → n ≤ hi
      → P n s
      → Yields (P 0) (for_down n body s)
  unfolding for_down
  for_down_inv P hi body keep zero s l p = yields p
  for_down_inv P hi body keep (suc i) s l p =
      Yields-bind (keep i s (omega arith) p) λ t q. for_down_inv P hi body keep i t (omega arith) q

-- What a round owes: the invariant with a smaller measure, or the property on leaving.
pub data Round {ℓ κ} {S : Type ℓ} (P Q : S → Type κ) (measure : S → ℕ) (s : S)
    : Flow S → Type (ℓ ⊔ κ) where
  go_on : {t : S} → P t → measure t < measure s → Round P Q measure s (again t)
  leave : {t : S} → Q t → Round P Q measure s (stop t)

module _ {ℓ κ} {S : Type ℓ} {P Q : S → Type κ} {measure : S → ℕ} where
  Round-next :
      (rest : S → Option S) {s : S} {f : Flow S}
      → ((t : S) → P t → measure t < measure s → Yields Q (rest t))
      → Round P Q measure s f
      → Yields Q (elim f [ again t ↦ rest t | stop t ↦ some t ])
  Round-next rest k (go_on p l) = k _ p l
  Round-next rest k (leave q) = yields q

  pub loop_inv :
      (body : S → Option (Flow S))
      → ((s : S) → P s → Yields (Round P Q measure s) (body s))
      → (fuel : ℕ) (s : S) → measure s < fuel
      → P s
      → Yields Q (loop fuel body s)
  unfolding loop
  loop_inv body keep zero s m p = absurd (omega arith)
  loop_inv body keep (suc fuel) s m p =
      Yields-bind (keep s p)
        λ f r. Round-next (loop fuel body) (λ t q l. loop_inv body keep fuel t (omega arith) q) r

pub loop_again {ℓ} :
    {S : Type ℓ} (body : S → Option (Flow S)) (fuel : ℕ) {s t : S}
    → body s ≡ some (again t)
    → loop (fuel + 1) body s ≡ loop fuel body t
unfolding loop
loop_again body fuel e = let next : fuel + 1 ≡ suc fuel = omega arith in rw (next, e)
