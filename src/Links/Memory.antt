-- ===== src/Links/Memory.antt =====
-- The memory of the linked nodes, with its reads and writes.
use funcodes.Prelude.{ℕ, Bool, true, false, Option, none, some, ◌==◌, if◌then◌else◌}

pub record Links : Type 0 where
  pub live : ℕ → Bool
  pub pred : ℕ → ℕ
  pub next : ℕ → ℕ

abbrev pub null : ℕ
null = 0

abbrev pub write {ℓ} : {A : Type ℓ} → (ℕ → A) → ℕ → A → ℕ → A
write f a v b = if a == b then v else f b

unfoldable pub get_pred : Links → ℕ → Option ℕ
get_pred l a = if l.live a then some (l.pred a) else none

unfoldable pub get_next : Links → ℕ → Option ℕ
get_next l a = if l.live a then some (l.next a) else none

unfoldable pub set_pred : Links → ℕ → ℕ → Option Links
set_pred l a v = if l.live a then some (record l { pred = write l.pred a v }) else none

unfoldable pub set_next : Links → ℕ → ℕ → Option Links
set_next l a v = if l.live a then some (record l { next = write l.next a v }) else none

-- `new Node()`, at the address that it returns
unfoldable pub create : Links → ℕ → Links
create l a = record {
  live = write l.live a true;
  pred = write l.pred a null;
  next = write l.next a null;
}

-- `delete`
unfoldable pub free : Links → ℕ → Links
free l a = record l { live = write l.live a false }
