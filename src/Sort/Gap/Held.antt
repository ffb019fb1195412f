-- ===== src/Sort/Gap/Held.antt =====
-- The moves of Insertsort2, shellsort1 and shellsort2, which hold the entry in `temp`.
use funcodes.Prelude.{
  ℕ, ◌+◌, ◌-◌, ◌≤◌, ◌<◌, ◌≡◌, List, arith, leb, ℤ, lt, ◌≤ℤ◌, length, at, load-at, set, set-at,
  set-hole, at-set, length-set, store-set, Yields, yields, Yields-bind, Yields-if,
}
use funcodes.Prelude.Loops.{loop_inv, Round, go_on, leave}
use funcodes.Sort.Gap.{shift_body, gap_insert}
use funcodes.Sort.Gap.Sinking.{Inserted, Sinking, Sinking-start, Sinking-swap, Sinking-end}

-- The array with `temp` put in the hole at `h` is the array that exchanges would have made.
abbrev pub Held : ℕ → ℕ → List ℤ → ℤ → List ℤ × ℕ → Type 0
Held gap j a temp (b, h) = Sinking gap j a (set b h temp) h

abbrev pub Filled : ℕ → ℕ → List ℤ → ℤ → List ℤ × ℕ → Type 0
Filled gap j a temp (b, h) = Inserted gap j a (set b h temp) × (h < length b)

module _ (gap j : ℕ) (a : List ℤ) (temp : ℤ) (g : 1 ≤ gap) (bound : j < length a) where
  module _ (b : List ℤ) (h : ℕ) (s : Held gap j a temp (b, h)) where
    pub Held-bound : h < length b
    Held-bound = omega (arith, s.inside, s.size, length-set b h temp)

    -- What the loop reads is what it would read with the hole filled.
    Held-reads :
        gap ≤ h → (at (set b h temp) (h - gap) ≡ at b (h - gap)) × (at (set b h temp) h ≡ temp)
    Held-reads l = (
      ground (arith, at-set b h (h - gap) temp Held-bound),
      ground (arith, at-set b h h temp Held-bound),
    )

    pub Held-shift :
        gap ≤ h → temp ≤ℤ at b (h - gap) → Held gap j a temp (set b h (at b (h - gap)), h - gap)
    Held-shift l lower =
        rw (set-hole b (h - gap) h temp (omega (arith, Held-bound)) Held-bound (omega arith))
          (Sinking-swap s bound g l (ground (arith, Held-reads l)))

    pub Held-end : (gap ≤ h → at b (h - gap) ≤ℤ temp) → Filled gap j a temp (b, h)
    Held-end done = (Sinking-end s bound λ l. ground (arith, done l, Held-reads l), Held-bound)

  shift_body-Held :
      (s : List ℤ × ℕ)
      → Held gap j a temp s
      → Yields
          (Round (Held gap j a temp) (Filled gap j a temp) (λ t. t.1) s)
          (shift_body gap temp s)
  unfolding shift_body
  shift_body-Held (b, h) s =
      let hh = Held-bound b h s in
      Yields-if (leb gap h)
        (λ e. rw (load-at b (h - gap) (omega arith)) (
          Yields-if (lt temp (at b (h - gap)))
            (λ l.
              rw (store-set b h (at b (h - gap)) hh)
                (yields (go_on (Held-shift b h s (ground arith) (ground arith)) (ground arith))))
            (λ l. yields (leave (Held-end b h s λ _. ground arith)))))
        (λ e. yields (leave (Held-end b h s λ l. absurd (ground arith))))

-- Inserting by moves stays inside the array and ends, for every gap.
pub gap_insert-Inserted :
    (gap j : ℕ) (a : List ℤ)
    → 1 ≤ gap
    → gap ≤ j
    → j < length a
    → Yields (Inserted gap j a) (gap_insert gap j a)
unfolding gap_insert
gap_insert-Inserted gap j a g below bound =
    let held : Sinking gap j a (set a j (at a j)) j =
      rw (set-at a j bound) (Sinking-start gap j a) in
    rw (load-at a j bound, load-at a (j - gap) (omega arith))
      (Yields-if (lt (at a j) (at a (j - gap)))
        (λ l.
          Yields-bind
            (loop_inv (shift_body gap (at a j)) (shift_body-Held gap j a (at a j) g bound) (j + 1)
              (a, j) (omega arith) held)
            λ (b, h) s. rw (store-set b h (at a j) s.1) (yields s.0))
        (λ l. yields (Sinking-end (Sinking-start gap j a) bound λ _. ground arith)))
