-- ===== src/Match/Border.antt =====
-- Borders of a pattern's prefixes, occurrences of a pattern, and what an entry of the table is for.
use native.Mathlib.Decide.{dec_lt}
use funcodes.Prelude.{
  ℕ, suc, ◌+◌, ◌-◌, ◌≤◌, ◌<◌, ◌≡◌, ◌≢◌, sym, ap, ◌∙◌, Bool, true, false, List, Option, some, ℤ, pos,
  negsuc, length, load, arith,
}

-- A test for equality.
pub record IsEquality {ℓ} {A : Type ℓ} (same : A → A → Bool) : Type ℓ where
  pub sound : (x y : A) → same x y ≡ true → x ≡ y
  pub complete : (x : A) → same x x ≡ true

module _ {ℓ} {A : Type ℓ} {same : A → A → Bool} (equality : IsEquality same) {x y : A}
    {a b : Option A} where
  pub equal_entries : a ≡ some x → b ≡ some y → same x y ≡ true → a ≡ b
  equal_entries e f h = e ∙ ap some (equality.sound x y h) ∙ sym f

  pub other_entries : a ≡ some x → b ≡ some y → same x y ≡ false → a ≢ b
  other_entries e f h m = let one : x ≡ y = cc (m, e, f) in cc (equality.complete y, rw one at h)

-- v + 1, for a position v that is -1 or more.
abbrev pub width : ℤ → ℕ
width (pos k) = suc k
width (negsuc k) = 0

module _ {ℓ} {A : Type ℓ} where
  -- Reading `t` from `b` entries before `q` on is reading it from the start, for `b` entries.
  pub record Border (t : List A) (q b : ℕ) : Type ℓ where
    pub proper : b < q
    pub agrees : (m : ℕ) → m < b → load t m ≡ load t (q - b + m)

  pub Border-empty : {t : List A} {q : ℕ} → 0 < q → Border t q 0
  Border-empty h = record { proper = h; agrees = λ m l. absurd (omega arith) }

  -- A border of a prefix that is longer by an entry.
  pub Border-grow :
      {t : List A} {q b : ℕ} → Border t q b → load t b ≡ load t q → Border t (q + 1) (b + 1)
  Border-grow {t} {q} {b} h e = record {
    proper = omega (arith, h.proper);
    agrees = λ m l. elim (dec_lt m b) [
      | yes below ↦
          let place : q + 1 - (b + 1) + m ≡ q - b + m = omega arith in rw place (h.agrees m below)
      | no last ↦
          let place : q + 1 - (b + 1) + m ≡ q = omega (arith, h.proper) in
          let at_b : m ≡ b = omega arith in rw (place, at_b) e
    ];
  }

  pub Border-shrink :
      {t : List A} {q b : ℕ}
      → Border t (q + 1) (b + 1)
      → (b < q) × Border t q b × (load t b ≡ load t q)
  Border-shrink {t} {q} {b} h = (
    omega (arith, h.proper),
    record {
      proper = omega (arith, h.proper);
      agrees = λ m l.
          let place : q + 1 - (b + 1) + m ≡ q - b + m = omega arith in
          rw place at (h.agrees m (omega arith));
    },
    let place : q + 1 - (b + 1) + b ≡ q = omega (arith, h.proper) in
        rw place at (h.agrees b (omega arith)),
  )

  -- The shorter of two borders is a border of the longer one.
  pub Border-nest : {t : List A} {q b c : ℕ} → Border t q b → Border t q c → b < c → Border t c b
  Border-nest {t} {q} {b} {c} f g l = record {
    proper = l;
    agrees = λ m h.
        let place : q - c + (c - b + m) ≡ q - b + m = omega (arith, g.proper) in
        f.agrees m h ∙ sym (rw place at (g.agrees (c - b + m) (omega arith)));
  }

  pub Border-trans : {t : List A} {q b c : ℕ} → Border t q c → Border t c b → Border t q b
  Border-trans {t} {q} {b} {c} f g = record {
    proper = omega (arith, f.proper, g.proper);
    agrees = λ m h.
        let place : q - c + (c - b + m) ≡ q - b + m = omega (arith, f.proper, g.proper) in
        g.agrees m h ∙ rw place at (f.agrees (c - b + m) (omega (arith, g.proper)));
  }

  -- Position -1, or a border.
  pub data Candidate (t : List A) (q : ℕ) : ℤ → Type ℓ where
    nowhere : Candidate t q (negsuc 0)
    border : {b : ℕ} → Border t q b → Candidate t q (pos b)

  pub Candidate-trans :
      {t : List A} {q b : ℕ} {v : ℤ} → Border t q b → Candidate t b v → Candidate t q v
  Candidate-trans h nowhere = nowhere
  Candidate-trans h (border g) = border (Border-trans h g)

  pub Candidate-width : {t : List A} {q : ℕ} {v : ℤ} → Candidate t q v → width v ≤ q
  Candidate-width nowhere = omega arith
  Candidate-width (border h) = omega (arith, h.proper)

  -- Where to go on when the entry at `q` does not fit: to a border that no border passed over fits
  -- better, unless the entry behind it is again the one that did not fit.
  pub record Falls (t : List A) (q : ℕ) (v : ℤ) : Type ℓ where
    pub candidate : Candidate t q v
    pub longest : (b : ℕ) → Border t q b → load t b ≢ load t q → b < width v

  -- The longest border itself.
  pub record IsNext (t : List A) (q : ℕ) (v : ℤ) : Type ℓ where
    pub candidate : Candidate t q v
    pub longest : (b : ℕ) → Border t q b → b < width v

  pub IsNext-Falls : {t : List A} {q : ℕ} {v : ℤ} → IsNext t q v → Falls t q v
  IsNext-Falls h = record { candidate = h.candidate; longest = λ b f ne. h.longest b f }

  -- The pattern `t` stands in `s` at `p`.
  unfoldable pub Occurs : List A → List A → ℕ → Type ℓ
  Occurs s t p = (m : ℕ) → m < length t → load s (p + m) ≡ load t m
