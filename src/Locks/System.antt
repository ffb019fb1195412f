-- ===== src/Locks/System.antt =====
-- Threads that share a lock: any thread may take the next step.
use funcodes.Prelude.{ℕ, ◌≡◌, List, some, load, set}

module _ {ℓ κ λ'} {S : Type ℓ} {P : Type κ} (Step : S → P → S → P → Type λ') where
  pub data Moves : S × List P → S × List P → Type (ℓ ⊔ κ ⊔ λ') where
    move :
        {s t : S} {threads : List P} {p q : P} (i : ℕ)
        → load threads i ≡ some p
        → Step s p t q
        → Moves (s, threads) (t, set threads i q)

  pub data Reaches : S × List P → S × List P → Type (ℓ ⊔ κ ⊔ λ') where
    here : {a : S × List P} → Reaches a a
    then : {a b c : S × List P} → Reaches a b → Moves b c → Reaches a c

  pub Reaches-keeps {μ} :
      {Inv : S × List P → Type μ}
      → ((a b : S × List P) → Moves a b → Inv a → Inv b)
      → {a b : S × List P} → Reaches a b
      → Inv a
      → Inv b
  Reaches-keeps keep here h = h
  Reaches-keeps keep (then r m) h = keep _ _ m (Reaches-keeps keep r h)
