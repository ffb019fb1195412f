-- ===== src/Match/Table.antt =====
-- The tables of get_next and get_nextval of c++/algos/kmp.cpp.
use native.Mathlib.Decide.{ℕ_discrete}
use funcodes.Prelude.{
  load-set, ℕ, zero, suc, ◌+◌, ◌-◌, ◌*◌, ◌≤◌, ◌<◌, ◌≡◌, ◌≢◌, refl, sym, ◌∙◌, Bool, true, false,
  List, Option, some, ◌>>=◌, ltb, if◌then◌else◌, ℤ, pos, negsuc, length, load, set, store, arith,
  load-some, length-set, store-set, Yields, yields, Yields-bind, Yields-if,
}
use funcodes.Prelude.Loops.{again, loop_inv, Round, go_on, leave}
use funcodes.Match.{
  next_int, load_int, extends, table_round, build_table, entry_next, get_next, entry_nextval,
  get_nextval,
}
use funcodes.Match.Border.{
  equal_entries, other_entries, IsEquality, width, Border, Border-empty, Border-grow, Border-shrink,
  Border-nest, Candidate-trans, Candidate-width, Candidate, nowhere, border, Falls, IsNext,
  IsNext-Falls,
}

module _ {ℓ} {A : Type ℓ} (same : A → A → Bool) (equality : IsEquality same) where
  -- How two entries of `t` compare, for positions inside it.
  data Compared (t : List A) (j k : ℕ) : Bool → Type ℓ where
    equal : load t j ≡ load t k → Compared t j k true
    other : load t j ≢ load t k → Compared t j k false

  compare_entries :
      {t : List A} {j k : ℕ} (x y : A)
      → load t j ≡ some x
      → load t k ≡ some y
      → (b : Bool) → same x y ≡ b
      → Compared t j k b
  compare_entries x y e f true h = equal (equal_entries equality e f h)
  compare_entries x y e f false h = other (other_entries equality e f h)

  module _ (t : List A) (Spec : ℕ → ℤ → Type ℓ)
      (spec : (q : ℕ) (v : ℤ) → Spec q v → Falls t q v) where
    -- The table is right up to `j`, and no border for the entry at `j + 1` grows out of a longer one
    -- than `k`.
    record Scan (table : List ℤ) (j : ℕ) (k : ℤ) : Type ℓ where
      size : length table ≡ length t
      inside : j < length t
      filled : (q : ℕ) → q ≤ j → (v : ℤ) × (load table q ≡ some v) × Spec q v
      candidate : Candidate t j k
      longest : (b : ℕ) → Border t (j + 1) (b + 1) → b < width k

    measure : List ℤ × ℕ × ℤ → ℕ
    measure (table, j, k) = 2 * (length t - 1 - j) + width k

    data Extended (j : ℕ) : ℤ → Bool → Type ℓ where
      grows : {k : ℤ} → IsNext t (j + 1) (next_int k) → Extended j k true
      differs : {b : ℕ} → Border t j b → load t b ≢ load t j → Extended j (pos b) false

    grown-le :
        (w j : ℕ)
        → ((b : ℕ) → Border t (j + 1) (b + 1) → b < w)
        → (c : ℕ) → Border t (j + 1) c
        → c < suc w
    grown-le w j h zero f = omega arith
    grown-le w j h (suc c) f =
        let next : suc c ≡ c + 1 = omega arith in omega (arith, h c (rw next at f))

    extended :
        {table : List ℤ} {j b : ℕ} {e : Bool}
        → Scan table j (pos b)
        → Border t j b
        → Compared t j b e
        → Extended j (pos b) e
    extended s h (other ne) = differs h λ m. ne (sym m)
    extended s h (equal m) = grows (record {
      candidate = border (Border-grow h (sym m));
      longest = λ c f. omega (arith, grown-le _ _ s.longest c f);
    })

    extends-Extended :
        {table : List ℤ} {j : ℕ} {k : ℤ}
        → Scan table j k
        → Candidate t j k
        → Yields (Extended j k) (extends same t j k)
    unfolding extends
    extends-Extended s nowhere = yields (
        grows (record {
          candidate = border (Border-empty (omega arith));
          longest = grown-le 0 _ s.longest;
        }))
    extends-Extended {j = j} s (border {b} h) =
        let (x, e) = load-some t j s.inside in
        let (y, f) = load-some t b (omega (arith, s.inside, h.proper)) in
        rw (e, f) (yields (extended s h (compare_entries x y e f (same x y) refl)))

    Scan-grow :
        {table : List ℤ} {j : ℕ} {k v : ℤ}
        → Scan table j k
        → j < length t - 1
        → IsNext t (j + 1) (next_int k)
        → Spec (j + 1) v
        → Scan (set table (j + 1) v) (j + 1) (next_int k)
    Scan-grow {table} {j} {k} {v} s l n sv =
        let bound : j + 1 < length table = omega (arith, s.size) in
        record {
          size = rw length-set s.size;
          inside = omega arith;
          filled = λ q h. elim (ℕ_discrete (j + 1) q) [
            | yes e ↦ (v, ground (arith, load-set table (j + 1) q v bound, e), rw e at sv)
            | no ne ↦
                let (w, f, sw) = s.filled q (omega arith) in
                (w, ground (arith, load-set table (j + 1) q v bound, f, ne), sw)
          ];
          candidate = n.candidate;
          longest = λ b f. let (proper, g, _) = Border-shrink f in n.longest b g;
        }

    Scan-shrink :
        {table : List ℤ} {j b : ℕ} {v : ℤ}
        → Scan table j (pos b)
        → Border t j b
        → load t b ≢ load t j
        → Falls t b v
        → Scan table j v
    Scan-shrink {table} {j} {b} {v} s h ne f = record {
      size = s.size;
      inside = s.inside;
      filled = s.filled;
      candidate = Candidate-trans h f.candidate;
      longest = λ c g.
          let (proper, k, m) = Border-shrink g in
          let differs : load t c ≢ load t b = λ e. ne (sym e ∙ m) in
          let apart : c ≢ b = λ e. ne (rw e at m) in
          f.longest c (Border-nest k h (omega (arith, s.longest c g))) differs;
    }

    measure-grow :
        (table new : List ℤ) {j : ℕ} {k : ℤ}
        → j < length t - 1
        → Candidate t j k
        → measure (new, j + 1, next_int k) < measure (table, j, k)
    unfolding measure
    measure-grow a b l nowhere = omega arith
    measure-grow a b l (border h) = omega arith

    measure-shrink :
        (table : List ℤ) (j : ℕ) {b : ℕ} {v : ℤ}
        → Candidate t b v
        → measure (table, j, v) < measure (table, j, pos b)
    unfolding measure
    measure-shrink a j h = omega (arith, Candidate-width h)

    Filled : List ℤ → Type ℓ
    Filled table = (q : ℕ) → q < length t → (v : ℤ) × (load table q ≡ some v) × Spec q v

    module _ (entry : List A → List ℤ → ℕ → ℤ → Option ℤ)
        (enters : (table : List ℤ) (j : ℕ) (k : ℤ)
          → 0 < j
          → j < length t
          → ((q : ℕ) → q < j → (v : ℤ) × (load table q ≡ some v) × Spec q v)
          → IsNext t j k
          → Yields (Spec j) (entry t table j k)) where
      table_go :
          {table : List ℤ} {j : ℕ} {k : ℤ} {e : Bool}
          → Scan table j k
          → j < length t - 1
          → Extended j k e
          → Yields (Round (λ u. Scan u.0 u.1 u.2) (λ u. Filled u.0) measure (table, j, k)) (
              if e
              then (do
                v ← entry t table (j + 1) (next_int k)
                a ← store table (j + 1) v
                some (again (a, j + 1, next_int k)))
              else (do v ← load_int table k; some (again (table, j, v))))
      table_go {table} {j} {k} s l (grows n) =
          Yields-bind
            (enters table (j + 1) (next_int k) (omega arith) (omega arith)
              (λ q h. s.filled q (omega arith)) n)
            λ v sv.
              rw (store-set table (j + 1) v (omega (arith, s.size)))
                (yields (go_on (Scan-grow s l n sv) (measure-grow table _ l s.candidate)))
      table_go {table} {j} s l (differs {b} h ne) =
          let (v, e, sv) = s.filled b (omega (arith, h.proper)) in
          let f = spec b v sv in
          rw e (yields (go_on (Scan-shrink s h ne f) (measure-shrink table j f.candidate)))

      table_round-Round :
          (u : List ℤ × ℕ × ℤ)
          → Scan u.0 u.1 u.2
          → Yields
              (Round (λ u. Scan u.0 u.1 u.2) (λ u. Filled u.0) measure u)
              (table_round same entry t u)
      unfolding table_round Filled
      table_round-Round (table, j, k) s =
          Yields-if (ltb j (length t - 1))
            (λ e. Yields-bind (extends-Extended s s.candidate) λ m x. table_go s (ground arith) x)
            (λ e. yields (leave λ q h. s.filled q (ground (arith, s.inside))))

      table-Filled :
          (next : List ℤ)
          → 0 < length t
          → length next ≡ length t
          → Spec 0 (negsuc 0)
          → Yields Filled (build_table same entry t next)
      unfolding build_table measure
      table-Filled next some_left size first =
          let start : Scan (set next 0 (negsuc 0)) 0 (negsuc 0) = record {
            size = rw length-set size;
            inside = some_left;
            filled = λ q h.
                let e : q ≡ 0 = omega arith in
                rw e (negsuc 0, load-set next 0 0 (negsuc 0) (omega arith), first);
            candidate = nowhere;
            longest = λ b f. absurd (omega (arith, f.proper));
          } in
          rw (store-set next 0 (negsuc 0) (omega arith)) (
            Yields-bind
              (loop_inv (table_round same entry t) table_round-Round (2 * length t)
                (set next 0 (negsuc 0), 0, negsuc 0) (omega arith) start)
              λ u f. yields f)

  module _ (t : List A) (some_left : 0 < length t) where
    at_start : IsNext t 0 (negsuc 0)
    at_start = record { candidate = nowhere; longest = λ b f. absurd (omega (arith, f.proper)) }

    -- For a test for equality and a pattern that is not empty: get_next comes back, and each entry of
    -- its table is the length of the longest border of the pattern's prefix of that length, or -1 for
    -- the empty prefix.
    pub get_next-IsNext :
        (next : List ℤ)
        → length next ≡ length t
        → Yields
            (λ a. (q : ℕ) → q < length t → (v : ℤ) × (load a q ≡ some v) × IsNext t q v)
            (get_next same t next)
    unfolding get_next entry_next Filled
    get_next-IsNext next size =
        table-Filled t (IsNext t) (λ q v. IsNext-Falls) (entry_next same)
          (λ a j k p l f n. yields n) next some_left size at_start

    -- Where the entry behind the longest border is the same, the table's entry for it serves.
    Falls-repeat :
        {j b : ℕ} {v : ℤ}
        → IsNext t j (pos b)
        → Border t j b
        → load t j ≡ load t b
        → Falls t b v
        → Falls t j v
    Falls-repeat {j} {b} n h e f = record {
      candidate = Candidate-trans h f.candidate;
      longest = λ c g ne.
          let apart : c ≢ b = λ m. ne (rw m (sym e)) in
          let differs : load t c ≢ load t b = λ m. ne (m ∙ sym e) in
          f.longest c (Border-nest g h (omega (arith, n.longest c g))) differs;
    }

    entry_at :
        (a : List ℤ) (j : ℕ) {k : ℤ}
        → 0 < j
        → j < length t
        → ((q : ℕ) → q < j → (v : ℤ) × (load a q ≡ some v) × Falls t q v)
        → IsNext t j k
        → Candidate t j k
        → Yields (Falls t j) (entry_nextval same t a j k)
    unfolding entry_nextval
    entry_at a j p l f n nowhere = absurd (omega (arith, n.longest 0 (Border-empty p)))
    entry_at a j p l f n (border {b} h) =
        let (x, e) = load-some t j l in
        let (y, g) = load-some t b (omega (arith, h.proper)) in
        let (v, r, fv) = f b h.proper in
        rw (e, g, r)
          (Yields-if (same x y) (λ m. yields (Falls-repeat n h (equal_entries equality e g m) fv))
            (λ m. yields (IsNext-Falls n)))

    entry_nextval-Falls :
        (a : List ℤ) (j : ℕ) (k : ℤ)
        → 0 < j
        → j < length t
        → ((q : ℕ) → q < j → (v : ℤ) × (load a q ≡ some v) × Falls t q v)
        → IsNext t j k
        → Yields (Falls t j) (entry_nextval same t a j k)
    entry_nextval-Falls a j k p l f n = entry_at a j p l f n n.candidate

    -- For a test for equality and a pattern that is not empty: get_nextval comes back, and each entry
    -- of its table is -1 or the length of a border of the pattern's prefix of that length, and no
    -- border of that prefix is longer unless the entry behind it is the one behind the prefix again.
    pub get_nextval-Falls :
        (next : List ℤ)
        → length next ≡ length t
        → Yields
            (λ a. (q : ℕ) → q < length t → (v : ℤ) × (load a q ≡ some v) × Falls t q v)
            (get_nextval same t next)
    unfolding get_nextval Filled
    get_nextval-Falls next size =
        table-Filled t (Falls t) (λ q v f. f) (entry_nextval same) entry_nextval-Falls next
          some_left size (IsNext-Falls at_start)
