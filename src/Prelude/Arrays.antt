-- ===== src/Prelude/Arrays.antt =====
-- Arrays as lists under native indices.
use Prim.Native.Nat.{ℕ, zero, suc, ◌+◌, ◌<◌}
use mathlib.Core.Path.{◌≡◌, refl, sym, ap, ap₂, ◌∙◌}
use mathlib.Core.Logic.{◌≢◌}
use mathlib.Core.Option.{Option, none, some}
use mathlib.Core.List.{List, [], ◌∷◌, ◌++◌, Perm}
use mathlib.Core.List
use mathlib.Core.List.Perm
use native.Mathlib.Bridge.{from_ℕ}
use native.Mathlib.Omega.{arith}
use funcodes.Prelude.Tests.{◌==◌, if◌then◌else◌, ltb}
use funcodes.Prelude.Outcome.{◌>>=◌}
use funcodes.Prelude.Integer.{ℤ, pos}

module _ {ℓ} {A : Type ℓ} where
  abbrev pub length : List A → ℕ
  length [] = 0
  length (_ ∷ xs) = suc (length xs)

  abbrev pub get_elem? : List A → ℕ → Option A
  get_elem? [] k = none
  get_elem? (y ∷ xs) zero = some y
  get_elem? (y ∷ xs) (suc k) = get_elem? xs k

  -- A write out of bounds changes nothing.
  abbrev pub set : List A → ℕ → A → List A
  set [] k new = []
  set (y ∷ xs) zero new = new ∷ xs
  set (y ∷ xs) (suc k) new = y ∷ set xs k new

  pub length-append : (xs ys : List A) → length (xs ++ ys) ≡ length xs + length ys
  length-append [] ys = omega arith
  length-append (y ∷ xs) ys = omega (arith, length-append xs ys)

  pub length-set : (xs : List A) (k : ℕ) (new : A) → length (set xs k new) ≡ length xs
  length-set [] k new = refl
  length-set (y ∷ xs) zero new = refl
  length-set (y ∷ xs) (suc k) new = ap suc (length-set xs k new)

  -- `a[i]`
  unfoldable pub load : List A → ℕ → Option A
  load xs k = get_elem? xs k

  pub load-some : (xs : List A) (k : ℕ) → k < length xs → (y : A) × (load xs k ≡ some y)
  unfolding load
  load-some [] k bound = absurd (omega arith)
  load-some (y ∷ xs) zero bound = (y, refl)
  load-some (y ∷ xs) (suc k) bound = load-some xs k (omega arith)

  pub load-length : (xs : List A) (k : ℕ) {y : A} → load xs k ≡ some y → k < length xs
  unfolding load
  load-length [] k e = absurd (cc e)
  load-length (y ∷ xs) zero e = omega arith
  load-length (y ∷ xs) (suc k) e = omega (arith, load-length xs k e)

  pub load-append : (xs : List A) (y : A) (ys : List A) → load (xs ++ (y ∷ ys)) (length xs) ≡ some y
  unfolding load
  load-append [] y ys = refl
  load-append (x ∷ xs) y ys = load-append xs y ys

  pub load-set :
      (xs : List A) (k m : ℕ) (new : A)
      → k < length xs
      → load (set xs k new) m ≡ (if k == m then some new else load xs m)
  unfolding load
  load-set [] k m new bound = absurd (omega arith)
  load-set (y ∷ xs) zero zero new bound = refl
  load-set (y ∷ xs) (suc k) (suc m) new bound = ground (arith, load-set xs k m new)
  load-set (y ∷ xs) k m new bound = ground arith

  length-from_ℕ : (xs : List A) → from_ℕ (List.length xs) ≡ length xs
  length-from_ℕ [] = refl
  length-from_ℕ (_ ∷ xs) = ap suc (length-from_ℕ xs)

  pub length-perm : {xs ys : List A} → Perm xs ys → length xs ≡ length ys
  length-perm {xs} {ys} e = sym (length-from_ℕ xs) ∙ ap from_ℕ (Perm.length-eq e) ∙ length-from_ℕ ys

  -- `a[i] = v`
  unfoldable pub store : List A → ℕ → A → Option (List A)
  store xs k new = if ltb k (length xs) then some (set xs k new) else none

  -- `Swap(a[i], a[j])`
  pub swap : List A → ℕ → ℕ → Option (List A)
  swap xs k j = do c ← load xs k; y ← load xs j; ys ← store xs k y; store ys j c

  pub store-set :
      (xs : List A) (k : ℕ) (new : A) → k < length xs → store xs k new ≡ some (set xs k new)
  unfolding store
  store-set xs k new bound = ground arith

-- The entry at an index, for statements: `d` outside the array.
unfoldable pub get_or {ℓ} : {A : Type ℓ} → List A → ℕ → A → A
get_or [] i d = d
get_or (x ∷ a) zero d = x
get_or (x ∷ a) (suc i) d = get_or a i d

-- The laws of reading and writing, with what a read outside the array is taken for.
module _ {ℓ} {A : Type ℓ} (d : A) where
  pub load-get_or : (xs : List A) (k : ℕ) → k < length xs → load xs k ≡ some (get_or xs k d)
  unfolding load get_or
  load-get_or [] k bound = absurd (omega arith)
  load-get_or (y ∷ xs) zero bound = refl
  load-get_or (y ∷ xs) (suc k) bound = load-get_or xs k (omega arith)

  pub get_or-load : (xs : List A) (k : ℕ) {y : A} → load xs k ≡ some y → get_or xs k d ≡ y
  unfolding load get_or
  get_or-load [] k e = absurd (cc e)
  get_or-load (x ∷ xs) zero e = cc e
  get_or-load (x ∷ xs) (suc k) e = get_or-load xs k e

  pub get_or-set :
      (xs : List A) (k m : ℕ) (new : A)
      → k < length xs
      → get_or (set xs k new) m d ≡ (if k == m then new else get_or xs m d)
  unfolding get_or
  get_or-set [] k m new bound = absurd (omega arith)
  get_or-set (y ∷ xs) zero zero new bound = refl
  get_or-set (y ∷ xs) (suc k) (suc m) new bound = ground (arith, get_or-set xs k m new)
  get_or-set (y ∷ xs) k m new bound = ground arith

  -- The new array and the old entry hold what the old array and the new entry do.
  pub set-perm :
      (xs : List A) (k : ℕ) (new : A)
      → k < length xs
      → Perm (get_or xs k d ∷ set xs k new) (new ∷ xs)
  unfolding get_or
  set-perm [] k new bound = absurd (omega arith)
  set-perm (y ∷ xs) zero new bound = Perm.swap new y xs
  set-perm (y ∷ xs) (suc k) new bound =
      Perm.trans (Perm.swap y (get_or xs k d) (set xs k new))
        (Perm.trans (Perm.cons y (set-perm xs k new (omega arith))) (Perm.swap new y xs))

  unfoldable pub swapped_or : List A → ℕ → ℕ → List A
  swapped_or xs k m = set (set xs k (get_or xs m d)) m (get_or xs k d)

  pub length-swapped_or : (xs : List A) (k m : ℕ) → length (swapped_or xs k m) ≡ length xs
  unfolding swapped_or
  length-swapped_or xs k m = simp length-set

  module _ (xs : List A) (k m : ℕ) (bk : k < length xs) (bm : m < length xs) where
    pub swap-swapped_or : swap xs k m ≡ some (swapped_or xs k m)
    unfolding swap swapped_or
    swap-swapped_or =
        rw (load-get_or xs k bk, load-get_or xs m bm, store-set xs k (get_or xs m d) bk)
          (store-set (set xs k (get_or xs m d)) m (get_or xs k d) (rw length-set bm))

    pub get_or-swapped_or :
        (n : ℕ)
        → get_or (swapped_or xs k m) n d
          ≡ (if m == n then get_or xs k d else if k == n then get_or xs m d else get_or xs n d)
    unfolding swapped_or
    get_or-swapped_or n = rw (
      get_or-set (set xs k (get_or xs m d)) m n (get_or xs k d) (rw length-set bm),
      get_or-set xs k n (get_or xs m d) bk,
    )

    pub swapped_or-perm : Perm (swapped_or xs k m) xs
    unfolding swapped_or
    swapped_or-perm =
        let b = set xs k (get_or xs m d) in
        let same : get_or b m d ≡ get_or xs m d =
          ground (arith, get_or-set xs k m (get_or xs m d)) in
        let outer = set-perm b m (get_or xs k d) (rw length-set bm) in
        Perm.cons_inv (Perm.trans (rw same at outer) (set-perm xs k (get_or xs m d) bk))

-- The same over the integers, where a read outside an array is taken for 0.
unfoldable pub at : List ℤ → ℕ → ℤ
unfolding get_or
at a i = get_or a i (pos 0)

unfoldable pub swapped : List ℤ → ℕ → ℕ → List ℤ
swapped = swapped_or (pos 0)

pub load-at : (a : List ℤ) (i : ℕ) → i < length a → load a i ≡ some (at a i)
unfolding at
load-at = load-get_or (pos 0)

pub at-set :
    (a : List ℤ) (i j : ℕ) (v : ℤ)
    → i < length a
    → at (set a i v) j ≡ (if i == j then v else at a j)
unfolding at
at-set = get_or-set (pos 0)

pub length-swapped : (a : List ℤ) (i j : ℕ) → length (swapped a i j) ≡ length a
unfolding swapped
length-swapped = length-swapped_or (pos 0)

module _ (a : List ℤ) (i j : ℕ) (hi : i < length a) (hj : j < length a) where
  pub swap-swapped : swap a i j ≡ some (swapped a i j)
  unfolding swapped
  swap-swapped = swap-swapped_or (pos 0) a i j hi hj

  pub at-swapped :
      (c : ℕ)
      → at (swapped a i j) c ≡ (if j == c then at a i else if i == c then at a j else at a c)
  unfolding at swapped
  at-swapped = get_or-swapped_or (pos 0) a i j hi hj

  pub swapped-perm : Perm (swapped a i j) a
  unfolding swapped
  swapped-perm = swapped_or-perm (pos 0) a i j hi hj

pub at_ext :
    (a b : List ℤ) → length a ≡ length b → ((i : ℕ) → i < length a → at a i ≡ at b i) → a ≡ b
unfolding at
at_ext [] [] e h = refl
at_ext [] (y ∷ b) e h = absurd (omega arith)
at_ext (x ∷ a) [] e h = absurd (omega arith)
at_ext (x ∷ a) (y ∷ b) e h =
    ap₂ ◌∷◌ (h 0 (omega arith)) (at_ext a b (omega arith) λ i l. h (suc i) (omega arith))

pub set-at : (a : List ℤ) (i : ℕ) → i < length a → set a i (at a i) ≡ a
set-at a i h = at_ext _ _ (length-set a i (at a i)) λ c l. ground (arith, at-set a i c (at a i) h)

-- Moving an entry into a hole leaves a hole where it was: with the value that is held back put in
-- the hole, the move is an exchange.
pub set-hole :
    (a : List ℤ) (i j : ℕ) (v : ℤ)
    → i < length a
    → j < length a
    → i ≢ j
    → set (set a j (at a i)) i v ≡ swapped (set a j v) i j
set-hole a i j v hi hj ne = at_ext _ _ (simp (length-set, length-swapped)) λ c l. ground (
  arith,
  at-set (set a j (at a i)) i c v (rw length-set hi),
  at-set a j c (at a i) hj,
  at-swapped (set a j v) i j (rw length-set hi) (rw length-set hj) c,
  at-set a j c v hj,
  at-set a j i v hj,
  at-set a j j v hj,
)
