-- ===== src/BoundedHeap/Climb.antt =====
-- The climbs from the places of a heap through their parents, by which the rounds of build_heap are
-- followed.
use native.Mathlib.Decide.{dec_lt, ℕ_discrete}
use funcodes.Prelude.{
  ℕ, zero, suc, ◌+◌, ◌-◌, ◌*◌, ◌/◌, ◌≤◌, ◌<◌, ◌≡◌, ◌≢◌, refl, ◌⊎◌, inl, inr, ◌∙◌, arith,
}

abbrev pub parent : ℕ → ℕ
parent c = (c - 1) / 2

-- From `c`, by parents that are at `lo` or later, to `g`.
pub data Climbs (lo : ℕ) : ℕ → ℕ → Type 0 where
  ends : {c : ℕ} → (0 < c → parent c < lo) → Climbs lo c c
  climbs : {c g : ℕ} → 0 < c → lo ≤ parent c → Climbs lo (parent c) g → Climbs lo c g

pub Climbs-le : {lo c g : ℕ} → Climbs lo c g → g ≤ c
Climbs-le (ends h) = omega arith
Climbs-le (climbs p l r) = omega (arith, Climbs-le r)

pub Climbs-stays : {lo c g : ℕ} → parent c < lo → Climbs lo c g → g ≡ c
Climbs-stays h (ends s) = refl
Climbs-stays h (climbs p l r) = absurd (omega arith)

pub Climbs-root : (k c : ℕ) → c < k → Climbs 0 c 0
Climbs-root zero c h = absurd (omega arith)
Climbs-root (suc k) zero h = ends (λ p. absurd (omega arith))
Climbs-root (suc k) (suc c) h =
    climbs (omega arith) (omega arith) (Climbs-root k (parent (suc c)) (omega arith))

-- A place whose climb for `i` ends at `i` ended, for `i` + 1, at `i` or at a child of `i`.
abbrev pub Through : ℕ → ℕ → ℕ → Type 0
Through i c g = (g ≡ i) × (h : ℕ) × Climbs (suc i) c h × ((h ≡ i) ⊎ ((0 < h) × (parent h ≡ i)))

-- Any other ends where it ended, above `i` in the tree or beside it.
abbrev pub Beside : ℕ → ℕ → ℕ → Type 0
Beside i c g = Climbs (suc i) c g × (g ≢ i) × (0 < g → parent g < i)

Climbs-past :
    {i c : ℕ} {g : ℕ}
    → 0 < c
    → i < parent c
    → Through i (parent c) g ⊎ Beside i (parent c) g
    → Through i c g ⊎ Beside i c g
Climbs-past p above (inl (e, h, s, k)) = inl (e, h, climbs p above s, k)
Climbs-past p above (inr (s, e, k)) = inr (climbs p above s, e, k)

Climbs-met :
    {i c g : ℕ}
    → 0 < c
    → parent c ≡ i
    → Through i (parent c) g ⊎ Beside i (parent c) g
    → Through i c g ⊎ Beside i c g
Climbs-met p m (inl (e, h, s, k)) = inl (e, _, ends (λ q. omega arith), inr (p, m))
Climbs-met p m (inr (s, e, k)) = absurd (e (Climbs-stays (omega arith) s ∙ m))

pub Climbs-cases : {i c g : ℕ} → Climbs i c g → Through i c g ⊎ Beside i c g
Climbs-cases {i} {c} (ends h) = elim (ℕ_discrete c i) [
  | yes e ↦ inl (e, c, ends (λ p. omega (arith, h p)), inl e)
  | no e ↦ inr (ends (λ p. omega (arith, h p)), e, h)
]
Climbs-cases {i} {c} (climbs p l r) = elim (dec_lt i (parent c)) [
  | yes above ↦ Climbs-past p above (Climbs-cases r)
  | no below ↦ Climbs-met p (omega arith) (Climbs-cases r)
]

pub children_cases : (c i : ℕ) → 0 < c → parent c ≡ i → (c ≡ 2 * i + 1) ⊎ (c ≡ 2 * (i + 1))
children_cases c i p e = ground arith
