-- ===== src/Match.antt =====
-- c++/algos/kmp.cpp: the search of a pattern in a text by Knuth, Morris and Pratt. Characters are of
-- any type with a test for equality, and positions are int, so they can be -1.
pub mod Border
pub mod Table
pub mod Search
pub mod Charactor
mod Tests
use funcodes.Prelude.{
  ℕ, zero, suc, ◌+◌, ◌-◌, ◌*◌, Bool, true, false, ◌&&◌, ◌||◌, not, List, [], ◌∷◌, Option, some,
  none, ◌>>=◌, ltb, leb, ◌==◌, if◌then◌else◌, ℤ, pos, negsuc, eq, length, load, store,
}
use funcodes.Prelude.Loops.{Flow, again, stop, loop}

-- What `new int[n]` holds.
pub fresh_array : ℕ → ℤ → List ℤ
fresh_array zero v = []
fresh_array (suc n) v = v ∷ fresh_array n v

-- ++k
abbrev pub next_int : ℤ → ℤ
next_int (pos k) = pos (k + 1)
next_int (negsuc zero) = pos 0
next_int (negsuc (suc k)) = negsuc k

-- `a[k]` at an int
abbrev pub load_int {ℓ} : {A : Type ℓ} → List A → ℤ → Option A
load_int a (pos k) = load a k
load_int a (negsuc k) = none

-- j < tlen
abbrev pub inside : ℤ → ℕ → Bool
inside (pos j) n = ltb j n
inside (negsuc j) n = true

-- i - j where the whole pattern, not empty, was matched, and -1 otherwise
abbrev pub found {ℓ} : {A : Type ℓ} → List A → ℕ × ℤ → ℤ
found t (i, pos j) = if ltb 0 j && j == length t then pos (i - j) else negsuc 0
found t (i, negsuc j) = negsuc 0

module _ {ℓ} {A : Type ℓ} (same : A → A → Bool) where
  -- k == -1 || t[j] == t[k]
  pub extends : List A → ℕ → ℤ → Option Bool
  extends t j (negsuc zero) = some true
  extends t j k = do x ← load t j; y ← load_int t k; some (same x y)

  -- The body of the `while` of get_next; `entry` is what it writes to the array for `j` and `k`.
  pub table_round :
      (List A → List ℤ → ℕ → ℤ → Option ℤ)
      → List A
      → List ℤ × ℕ × ℤ
      → Option (Flow (List ℤ × ℕ × ℤ))
  table_round entry t (next, j, k) =
      let grow : Option (Flow (List ℤ × ℕ × ℤ)) = do
        v ← entry t next (j + 1) (next_int k)
        a ← store next (j + 1) v
        some (again (a, j + 1, next_int k))
      in let shrink : Option (Flow (List ℤ × ℕ × ℤ)) = do
        v ← load_int next k
        some (again (next, j, v))
        in let round : Option (Flow (List ℤ × ℕ × ℤ)) = do
          e ← extends t j k
          if e then grow else shrink
          in if ltb j (length t - 1) then round else some (stop (next, j, k))

  pub build_table : (List A → List ℤ → ℕ → ℤ → Option ℤ) → List A → List ℤ → Option (List ℤ)
  build_table entry t next = do
    first ← store next 0 (negsuc 0)
    (a, j, k) ← loop (2 * length t) (table_round entry t) (first, 0, negsuc 0)
    some a

  -- next[j] = k
  pub entry_next : List A → List ℤ → ℕ → ℤ → Option ℤ
  entry_next t next j k = some k

  pub get_next : List A → List ℤ → Option (List ℤ)
  get_next = build_table entry_next

  -- nextval[j] is k, or nextval[k] where t[j] and t[k] are equal.
  pub entry_nextval : List A → List ℤ → ℕ → ℤ → Option ℤ
  entry_nextval t nextval j k = do
    x ← load t j
    y ← load_int t k
    if same x y then load_int nextval k else some k

  pub get_nextval : List A → List ℤ → Option (List ℤ)
  get_nextval = build_table entry_nextval

  -- The body of the search's `while`, inside its condition.
  pub search_at : List A → List A → List ℤ → ℕ → ℤ → Option (Flow (ℕ × ℤ))
  search_at s t next i (negsuc zero) = some (again (i + 1, pos 0))
  search_at s t next i (negsuc (suc k)) =
      if leb (length t + (k + 2)) (length s - i) then none else some (stop (i, negsuc (suc k)))
  search_at s t next i (pos j) =
      let shift : Option (Flow (ℕ × ℤ)) = (do v ← load next j; some (again (i, v))) in
      let compared : Option (Flow (ℕ × ℤ)) = do
        x ← load s i
        y ← load t j
        if same x y then some (again (i + 1, pos (j + 1))) else shift
      in if leb (length t - j) (length s - i) then compared else some (stop (i, pos j))

  pub search_round : List A → List A → List ℤ → ℕ × ℤ → Option (Flow (ℕ × ℤ))
  search_round s t next (i, j) =
      if ltb i (length s) && inside j (length t) then search_at s t next i j else some (stop (i, j))

  pub search_with : List A → List A → List ℤ → Option ℤ
  search_with s t next = do
    r ← loop (2 * length s + 2) (search_round s t next) (0, pos 0)
    some (found t r)

  pub kmp_search : ℤ → List A → List A → Option ℤ
  kmp_search fresh s t = do
    next ← get_nextval t (fresh_array (length t) fresh)
    search_with s t next
