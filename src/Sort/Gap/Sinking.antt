-- ===== src/Sort/Gap/Sinking.antt =====
-- The exchanges of Insertsort3 and shellsort3.
use mathlib.Core.List.Perm
use funcodes.Prelude.{
  ℕ, ◌+◌, ◌-◌, ◌≤◌, ◌<◌, ◌≡◌, ◌≢◌, refl, List, Perm, arith, leb, ℤ, lt, ◌≤ℤ◌, length, at, load-at,
  swapped, swap-swapped, at-swapped, length-swapped, swapped-perm, Yields, yields, Yields-bind,
  Yields-if,
}
use funcodes.Prelude.Loops.{loop_inv, Round, go_on, leave}
use funcodes.Sort.Order.{IsSortedTo}
use funcodes.Sort.Gap.{sink_body, gap_sink}

-- `b` is the input with the entry `j` inserted among those `gap` apart below it; at gap 1 the
-- ascending front of the array grows by it.
pub record Inserted (gap j : ℕ) (a b : List ℤ) : Type 0 where
  pub size : length b ≡ length a
  pub perm : Perm b a
  pub front : gap ≡ 1 → IsSortedTo j a → IsSortedTo (j + 1) b

-- The entry that is being inserted stands at `h`. Only it can be below an entry before it.
pub record Sinking (gap j : ℕ) (a : List ℤ) (b : List ℤ) (h : ℕ) : Type 0 where
  pub size : length b ≡ length a
  pub perm : Perm b a
  pub inside : h ≤ j
  pub front : gap ≡ 1 → IsSortedTo j a → (p q : ℕ) → p ≤ q → q < j + 1 → q ≢ h → at b p ≤ℤ at b q

pub Sinking-start : (gap j : ℕ) (a : List ℤ) → Sinking gap j a a j
Sinking-start gap j a = record {
  size = refl;
  perm = Perm.rfl;
  inside = omega arith;
  front = λ e s p q l m n. s p q l (omega arith);
}

module _ {gap j : ℕ} {a b : List ℤ} {h : ℕ} (s : Sinking gap j a b h) (bound : j < length a) where
  pub Sinking-swap :
      1 ≤ gap
      → gap ≤ h
      → at b h ≤ℤ at b (h - gap)
      → Sinking gap j a (swapped b (h - gap) h) (h - gap)
  Sinking-swap g l lt =
      let hh : h < length b = omega (arith, s.inside, s.size) in
      let hk : h - gap < length b = omega arith in
      record {
        size = omega (arith, s.size, length-swapped b (h - gap) h);
        perm = Perm.trans (swapped-perm b (h - gap) h hk hh) s.perm;
        inside = omega (arith, s.inside);
        front = λ e t p q m n r. ground (
          arith,
          at-swapped b (h - gap) h hk hh p,
          at-swapped b (h - gap) h hk hh q,
          s.front e t p q,
          s.front e t p (h - gap),
          s.front e t (h - gap) q,
          s.front e t h q,
        );
      }

  -- The loop ends at the first place or at an entry that is not above the one to insert.
  pub Sinking-end : (gap ≤ h → at b (h - gap) ≤ℤ at b h) → Inserted gap j a b
  Sinking-end done = record {
    size = s.size;
    perm = s.perm;
    front = λ e t p q m n. ground (arith, done, s.front e t p q, s.front e t p (h - gap));
  }

abbrev Sunk : ℕ → ℕ → List ℤ → List ℤ × ℕ → Type 0
Sunk gap j a (b, h) = Sinking gap j a b h

sink_body-Sinking :
    (gap j : ℕ) (a : List ℤ)
    → 1 ≤ gap
    → j < length a
    → (s : List ℤ × ℕ) → Sunk gap j a s
    → Yields (Round (Sunk gap j a) (λ t. Inserted gap j a t.0) (λ t. t.1) s) (sink_body gap s)
unfolding sink_body
sink_body-Sinking gap j a g bound (b, h) s =
    let hh : h < length b = omega (arith, s.inside, s.size) in
    Yields-if (leb gap h)
      (λ e.
        let hk : h - gap < length b = omega arith in
        rw (load-at b (h - gap) hk, load-at b h hh)
          (Yields-if (lt (at b h) (at b (h - gap)))
            (λ l. rw (swap-swapped b (h - gap) h hk hh) (
              yields (go_on (Sinking-swap s bound g (ground arith) (ground arith)) (ground arith))))
            (λ l. yields (leave (Sinking-end s bound λ _. ground arith)))))
      (λ e. yields (leave (Sinking-end s bound λ l. absurd (ground arith))))

-- Inserting by exchanges stays inside the array and ends, for every gap.
pub gap_sink-Inserted :
    (gap j : ℕ) (a : List ℤ) → 1 ≤ gap → j < length a → Yields (Inserted gap j a) (gap_sink gap j a)
unfolding gap_sink
gap_sink-Inserted gap j a g bound =
    Yields-bind
      (loop_inv (sink_body gap) (sink_body-Sinking gap j a g bound) (j + 1) (a, j) (omega arith)
        (Sinking-start gap j a))
      λ t s. yields s
