-- ===== src/Match/Search.antt =====
-- kmp_search of c++/algos/kmp.cpp, over any table.
use native.Mathlib.Decide.{dec_lt, ℕ_discrete}
use funcodes.Prelude.{
  ℕ, zero, suc, ◌+◌, ◌-◌, ◌*◌, ◌≤◌, ◌<◌, ◌≡◌, ◌≢◌, refl, sym, ap, ◌∙◌, Bool, true, false, ◌&&◌,
  List, [], store, some, none, ◌==◌, ltb, leb, ℤ, pos, negsuc, length, load, arith, load-length,
  load-some, Yields, yields, Yields-bind, Yields-if,
}
use funcodes.Prelude.Loops.{Flow, loop_inv, Round, go_on, leave}
use funcodes.Match.{
  search_at, inside, search_round, found, search_with, kmp_search, fresh_array, get_nextval,
  build_table,
}
use funcodes.Match.Border.{
  equal_entries, other_entries, IsEquality, width, Border, Candidate, nowhere, border,
  Candidate-width, Falls, Occurs,
}
use funcodes.Match.Table.{get_nextval-Falls}

module _ {ℓ} {A : Type ℓ} (s t : List A) where
  -- The first place, or -1 where there is none.
  pub data IsFirst : ℤ → Type ℓ where
    first : {p : ℕ} → Occurs s t p → ((q : ℕ) → Occurs s t q → p ≤ q) → IsFirst (pos p)
    absent : ((q : ℕ) → Occurs s t q → ⊥) → IsFirst (negsuc 0)

  Occurs-fits : (p : ℕ) → 0 < length t → Occurs s t p → p + length t ≤ length s
  unfolding Occurs
  Occurs-fits p some_left o =
      let (y, e) = load-some t (length t - 1) (omega arith) in
      omega (arith, load-length s (p + (length t - 1)) (o (length t - 1) (omega arith) ∙ e))

  -- `i` in the text and `j` in the pattern: the `j` entries before them agree, and the pattern stands
  -- nowhere before that.
  data Searching (i : ℕ) : ℤ → Type ℓ where
    matched :
        {k : ℕ}
        → k ≤ length t
        → k ≤ i
        → i ≤ length s
        → ((m : ℕ) → m < k → load s (i - k + m) ≡ load t m)
        → ((q : ℕ) → Occurs s t q → i ≤ q + k)
        → Searching i (pos k)
    passed : i < length s → ((q : ℕ) → Occurs s t q → i < q) → Searching i (negsuc 0)

  measure : ℕ × ℤ → ℕ
  measure (i, j) = 2 * (length s - i) + width j

  Searching-grow :
      (i k : ℕ)
      → Searching i (pos k)
      → i < length s
      → k < length t
      → load s i ≡ load t k
      → Searching (i + 1) (pos (k + 1))
  Searching-grow i k (matched bound back reached agrees earliest) l h e =
      matched (omega arith) (omega arith) (omega arith)
        (λ m f. elim (dec_lt m k) [
          | yes below ↦
              let place : i + 1 - (k + 1) + m ≡ i - k + m = omega arith in rw place (agrees m below)
          | no last ↦
              let place : i + 1 - (k + 1) + m ≡ i = omega arith in
              let at_k : m ≡ k = omega arith in rw (place, at_k) e
        ])
        (λ q o. omega (arith, earliest q o))

  Occurs-agrees :
      (p k : ℕ) → k ≡ length t → ((m : ℕ) → m < k → load s (p + m) ≡ load t m) → Occurs s t p
  unfolding Occurs
  Occurs-agrees p k e agrees m h = agrees m (omega arith)

  -- Where the pattern also stands after a mismatch, the table's entry does not lead past it.
  Searching-Border :
      (i k q : ℕ)
      → Searching i (pos k)
      → k < length t
      → load s i ≢ load t k
      → Occurs s t q
      → q ≤ i
      → Border t k (i - q) × (load t (i - q) ≢ load t k)
  unfolding Occurs
  Searching-Border i k q (matched bound back reached agrees earliest) h ne o l =
      let apart : i - q ≢ k =
        λ e. let place : q + k ≡ i = omega arith in ne (rw place at (o k h)) in
      let low : i - q < k = omega (arith, earliest q o) in
      (
        record {
          proper = low;
          agrees = λ m f.
              let place : i - k + (k - (i - q) + m) ≡ q + m = omega arith in
              sym (o m (omega arith)) ∙ rw place at (agrees (k - (i - q) + m) (omega arith));
        },
        λ e.
            let place : q + (i - q) ≡ i = omega arith in
            ne (rw place at (o (i - q) (omega arith)) ∙ e),
      )

  Searching-late :
      (i k q : ℕ) {v : ℤ}
      → Searching i (pos k)
      → k < length t
      → load s i ≢ load t k
      → Falls t k v
      → Occurs s t q
      → i < q + width v
  Searching-late i k q r h ne f o = elim (dec_lt i q) [
    | yes later ↦ omega arith
    | no earlier ↦
        let (g, m) = Searching-Border i k q r h ne o (omega arith) in
        omega (arith, f.longest (i - q) g m)
  ]

  Searching-shrink :
      (i k : ℕ) {v : ℤ}
      → Searching i (pos k)
      → i < length s
      → k < length t
      → Candidate t k v
      → ((q : ℕ) → Occurs s t q → i < q + width v)
      → Searching i v
  Searching-shrink i k r l h nowhere late = passed l (λ q o. omega (arith, late q o))
  Searching-shrink i k (matched bound back reached agrees earliest) l h (border {b} g) late =
      matched (omega (arith, g.proper)) (omega (arith, g.proper)) reached
        (λ m f.
          let low : m < b = f in
          let place : i - k + (k - b + m) ≡ i - b + m = omega (arith, g.proper) in
          rw place at (agrees (k - b + m) (omega (arith, g.proper))) ∙ sym (g.agrees m f))
        (λ q o. omega (arith, late q o))

  Searching-end :
      (i : ℕ) (j : ℤ)
      → 0 < length t
      → Searching i j
      → (ltb i (length s) && inside j (length t)) ≡ false
      → IsFirst (found t (i, j))
  Searching-end i j some_left (passed l earliest) e = absurd (ground arith)
  Searching-end i j some_left (matched {k} bound back reached agrees earliest) e =
      elim (ℕ_discrete k (length t)) [
        | yes whole ↦
            let test : (ltb 0 k && k == length t) ≡ true = ground arith in
            rw test
              (first (Occurs-agrees (i - k) k whole agrees) (λ q o. omega (arith, earliest q o)))
        | no part ↦
            let test : (ltb 0 k && k == length t) ≡ false = ground arith in
            let over : i ≡ length s = ground arith in
            rw test (absent λ q o. omega (arith, earliest q o, Occurs-fits q some_left o))
      ]

  -- The text that is left is shorter than the rest of the pattern.
  Searching-break :
      (i k : ℕ)
      → 0 < length t
      → Searching i (pos k)
      → k < length t
      → length s - i < length t - k
      → IsFirst (found t (i, pos k))
  Searching-break i k some_left (matched bound back reached agrees earliest) h l =
      let test : (ltb 0 k && k == length t) ≡ false = ground arith in
      rw test (absent λ q o. omega (arith, earliest q o, Occurs-fits q some_left o))

module _ {ℓ} {A : Type ℓ} (same : A → A → Bool) (equality : IsEquality same) (s t : List A)
    (next : List ℤ) (some_left : 0 < length t)
    (table : (q : ℕ) → q < length t → (v : ℤ) × (load next q ≡ some v) × Falls t q v) where
  Goes : ℕ × ℤ → Flow (ℕ × ℤ) → Type ℓ
  Goes = Round (λ u. Searching s t u.0 u.1) (λ u. IsFirst s t (found t u)) (measure s t)

  search_at-Goes :
      (i : ℕ) (j : ℤ)
      → Searching s t i j
      → i < length s
      → inside j (length t) ≡ true
      → Yields (Goes (i, j)) (search_at same s t next i j)
  unfolding search_at Goes measure
  search_at-Goes i j (passed l earliest) h e = yields (
      go_on
        (matched (omega arith) (omega arith) (omega arith) (λ m f. absurd (omega arith))
          (λ q o. omega (arith, earliest q o)))
        (omega arith))
  search_at-Goes i j (matched {k} bound back reached agrees earliest) h e =
      let r = matched bound back reached agrees earliest in
      let low : k < length t = ground arith in
      let (x, f) = load-some s i h in
      let (y, g) = load-some t k low in
      let (v, n, fv) = table k low in
      Yields-if (leb (length t - k) (length s - i))
        (λ m.
          rw (f, g, n)
            (Yields-if (same x y)
              (λ p. yields (
                go_on (Searching-grow s t i k r h low (equal_entries equality f g p))
                  (omega arith)))
              (λ p.
                let differ : load s i ≢ load t k = other_entries equality f g p in
                yields (
                  go_on
                    (Searching-shrink s t i k r h low fv.candidate
                      (λ q o. Searching-late s t i k q r low differ fv o))
                    (omega (arith, Candidate-width fv.candidate))))))
        (λ m. yields (leave (Searching-break s t i k some_left r low (ground arith))))

  search_round-Goes :
      (u : ℕ × ℤ) → Searching s t u.0 u.1 → Yields (Goes u) (search_round same s t next u)
  unfolding search_round Goes
  search_round-Goes (i, j) r =
      Yields-if (ltb i (length s) && inside j (length t))
        (λ e. search_at-Goes i j r (ground (arith, e)) (ground (arith, e)))
        (λ e. yields (leave (Searching-end s t i j some_left r e)))

  -- Any table whose entries are positions to go on from.
  pub search_with-IsFirst : Yields (IsFirst s t) (search_with same s t next)
  unfolding search_with Goes measure
  search_with-IsFirst =
      Yields-bind
        (loop_inv (search_round same s t next) search_round-Goes (2 * length s + 2) (0, pos 0)
          (omega arith)
          (matched (omega arith) (omega arith) (omega arith) (λ m f. absurd (omega arith))
            (λ q o. omega arith)))
        λ u f. yields f

pub length-fresh_array : (n : ℕ) (v : ℤ) → length (fresh_array n v) ≡ n
unfolding fresh_array
length-fresh_array zero v = refl
length-fresh_array (suc n) v = ap suc (length-fresh_array n v)

module _ {ℓ} {A : Type ℓ} (same : A → A → Bool) (equality : IsEquality same) where
  -- For a test for equality and a pattern that is not empty, whatever memory new gives: kmp_search
  -- comes back, and it returns the first position in the text at which the pattern stands, or -1 if
  -- there is none.
  pub kmp_search-IsFirst :
      (fresh : ℤ) (s t : List A) → 0 < length t → Yields (IsFirst s t) (kmp_search same fresh s t)
  unfolding kmp_search
  kmp_search-IsFirst fresh s t some_left =
      Yields-bind
        (get_nextval-Falls same equality t some_left (fresh_array (length t) fresh)
          (length-fresh_array (length t) fresh))
        λ next table. search_with-IsFirst same equality s t next some_left table

  -- With an empty pattern kmp_search writes outside its table.
  pub kmp_search_empty : (fresh : ℤ) (s : List A) → kmp_search same fresh s [] ≡ none
  unfolding kmp_search get_nextval build_table fresh_array store
  kmp_search_empty fresh s = refl
