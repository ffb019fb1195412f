-- ===== src/LruCache/Holds.antt =====
-- What holds of a cache of c++/utils/cache/lru_cache.h whose list is `order`, oldest first.
use funcodes.Prelude.{ℕ, ◌≡◌, refl, true, false, List, [], ◌∷◌, ◌++◌, some, ltb, if◌then◌else◌}
use funcodes.Links.{null, has, Distinct, Chain}
use funcodes.LruCache.{head, tail, never_timeout, LruCache, init}

pub record Holds {ℓ} {V : Type ℓ} (c : LruCache V) (order : List ℕ) : Type ℓ where
  pub chain : Chain c.links head (order ++ tail ∷ []) tail
  pub distinct : Distinct (head ∷ order ++ tail ∷ [])
  pub dead : c.links.live null ≡ false
  -- The map leads to the nodes of the list and to no others, each under its own key.
  pub mapped : (k p : ℕ) → c.underly k ≡ some p → (has p order ≡ true) × (c.key p ≡ k)
  pub listed : (p : ℕ) → has p order ≡ true → c.underly (c.key p) ≡ some p
  pub stays : c.expire_time tail ≡ never_timeout

init-Holds {ℓ} : {V : Type ℓ} (capacity timeout : ℕ) → Holds {V = V} (init capacity timeout) []
unfolding init
init-Holds capacity timeout = record {
  chain = (refl, refl, refl, (refl, refl));
  distinct = (refl, (refl, tt));
  dead = refl;
  mapped = λ k p h. absurd (cc h);
  listed = λ p h. absurd (cc h);
  stays = refl;
}

-- The first nodes whose time has run out, and the list behind them
unfoldable pub expired_prefix : (ℕ → ℕ) → ℕ → List ℕ → List ℕ
expired_prefix expire now [] = []
expired_prefix expire now (x ∷ xs) =
    if ltb (expire x) now then x ∷ expired_prefix expire now xs else []

unfoldable pub drop_expired : (ℕ → ℕ) → ℕ → List ℕ → List ℕ
drop_expired expire now [] = []
drop_expired expire now (x ∷ xs) = if ltb (expire x) now then drop_expired expire now xs else x ∷ xs
