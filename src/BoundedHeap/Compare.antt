-- ===== src/BoundedHeap/Compare.antt =====
-- What the comparison of a heap has to be: a strict weak order, as the C++ library asks of one; and
-- what it makes the entry that a heap hands out.
use funcodes.Prelude.{ℕ, ◌<◌, ◌≡◌, Bool, true, false, List, some, load}

pub record IsOrder {ℓ} {A : Type ℓ} (compare : A → A → Bool) : Type ℓ where
  pub irrefl : (x : A) → compare x x ≡ false
  pub asymm : (x y : A) → compare x y ≡ true → compare y x ≡ false
  pub trans : (x y z : A) → compare y x ≡ false → compare z y ≡ false → compare z x ≡ false

-- `t` stands first, and the comparison puts none of the first `n` entries behind it.
pub record IsTop {ℓ} {A : Type ℓ} (compare : A → A → Bool) (n : ℕ) (a : List A) (t : A)
    : Type ℓ where
  pub first : load a 0 ≡ some t
  pub last : (q : ℕ) (y : A) → q < n → load a q ≡ some y → compare t y ≡ false
