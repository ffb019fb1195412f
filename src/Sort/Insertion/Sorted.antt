-- ===== src/Sort/Insertion/Sorted.antt =====
-- The three insertion sorts, by rounds.
use mathlib.Core.List.Perm
use funcodes.Prelude.{
  ℕ, suc, ◌+◌, ◌-◌, ◌≤◌, ◌<◌, ◌≡◌, refl, inl, inr, Bool-cases, List, Option, Perm, arith, ltb, ◌==◌,
  ℤ, lt, ◌≤ℤ◌, ◌<ℤ◌, length, at, load-at, set-at, at-set, store-set, Yields, yields, Yields-bind,
  Yields-map, Yields-if,
}
use funcodes.Prelude.Loops.{for_up, for_up_inv, for_down_inv, loop_inv, Round, go_on, leave}
use funcodes.Sort.Order.{IsSortedTo, Sorts}
use funcodes.Sort.Gap.{gap_insert, gap_sink}
use funcodes.Sort.Gap.Sinking.{Inserted, Sinking-start, Sinking-end, gap_sink-Inserted}
use funcodes.Sort.Gap.Held.{Held, Held-bound, Held-shift, Held-end, gap_insert-Inserted}
use funcodes.Sort.Insertion.{
  scan_body, move_up, insert_round1, insert_sort1, insert_sort2, insert_sort3,
}

-- Before round `i`.
record Front (a : List ℤ) (i : ℕ) (b : List ℤ) : Type 0 where
  size : length b ≡ length a
  perm : Perm b a
  front : IsSortedTo i b

Front-Inserted : {a b c : List ℤ} {i : ℕ} → Front a i b → Inserted 1 i b c → Front a (i + 1) c
Front-Inserted f s = record {
  size = omega (arith, f.size, s.size);
  perm = Perm.trans s.perm f.perm;
  front = s.front refl f.front;
}

-- Any body that inserts its entry makes an insertion sort.
insertions-Sorts :
    (body : ℕ → List ℤ → Option (List ℤ))
    → ((i : ℕ) (b : List ℤ) → 1 ≤ i → i < length b → Yields (Inserted 1 i b) (body i b))
    → (a : List ℤ) → Yields (Sorts a) (for_up (length a - 1) 1 body a)
insertions-Sorts body inserts a =
    Yields-map
      (for_up_inv (Front a) 1 (length a - 1 + 1) body
        (λ i b l h f. Yields-map (inserts i b l (omega (arith, f.size))) λ c s. Front-Inserted f s)
        (length a - 1) 1 a (omega arith) (omega arith)
        (record {
          size = refl;
          perm = Perm.rfl;
          front = λ p q l h. let e : p ≡ q = omega arith in rw e (omega arith);
        }))
      λ b f. (λ i j l h. f.front i j l (omega (arith, f.size)), f.perm)

-- Insertsort2(a, n), for an array of n entries, ends without an access outside the array and leaves its
-- entries in ascending order.
insert_sort2-Sorts : (a : List ℤ) → Yields (Sorts a) (insert_sort2 a (length a))
unfolding insert_sort2
insert_sort2-Sorts =
    insertions-Sorts (gap_insert 1) λ i b l h. gap_insert-Inserted 1 i b (omega arith) l h

-- Insertsort3(a, n), for an array of n entries, ends without an access outside the array and leaves its
-- entries in ascending order.
insert_sort3-Sorts : (a : List ℤ) → Yields (Sorts a) (insert_sort3 a (length a))
unfolding insert_sort3
insert_sort3-Sorts =
    insertions-Sorts (gap_sink 1) λ i b l h. gap_sink-Inserted 1 i b (omega arith) h

-- The places from `place` on hold entries that are not below the entry `i`.
record Above (a : List ℤ) (i place : ℕ) : Type 0 where
  inside : place ≤ i
  above : (q : ℕ) → place ≤ q → q < i → at a i ≤ℤ at a q

abbrev Found : List ℤ → ℕ → ℕ → Type 0
Found a i place = Above a i place × (1 ≤ place → at a (place - 1) <ℤ at a i)

module _ (a : List ℤ) (i : ℕ) (bound : i < length a) where
  scan_body-Above :
      (place : ℕ)
      → Above a i place
      → Yields (Round (Above a i) (Found a i) (λ p. p) place) (scan_body a i place)
  unfolding scan_body
  scan_body-Above place v =
      Yields-if (ltb 0 place)
        (λ e.
          let inside = v.inside in
          rw (load-at a (place - 1) (omega arith), load-at a i bound)
            (yields (elim (Bool-cases (lt (at a (place - 1)) (at a i))) [
              | inl lower ↦ rw lower (leave (v, λ _. ground arith))
              | inr higher ↦ rw higher (
                  go_on
                    (record { inside = omega arith; above = λ q l r. ground (arith, v.above q) })
                    (ground arith))
            ])))
        (λ e. yields (leave (v, λ l. absurd (ground arith))))

  -- While entries move up, with the hole at `h`: those below the hole are as they were.
  abbrev Moved : ℕ → List ℤ → Type 0
  Moved h b = Held 1 i a (at a i) (b, h) × ((q : ℕ) → q < h → at b q ≡ at a q)

  move_up-Moved :
      (k : ℕ) (b : List ℤ) → at a i ≤ℤ at a k → Moved (k + 1) b → Yields (Moved k) (move_up k b)
  unfolding move_up
  move_up-Moved k b above (held, same) =
      let hh = Held-bound 1 i a (at a i) (omega arith) bound b (k + 1) held in
      let e : k + 1 - 1 ≡ k = omega arith in
      let shifted =
        Held-shift 1 i a (at a i) (omega arith) bound b (k + 1) held (omega arith)
          (ground (arith, same k)) in
      rw (load-at b k (omega arith), store-set b (k + 1) (at b k) hh)
        (yields (rw e at shifted, λ q l. ground (arith, same q, at-set b (k + 1) q (at b k) hh)))

  insert_round1-Inserted : Yields (Inserted 1 i a) (insert_round1 i a)
  unfolding insert_round1
  insert_round1-Inserted =
      Yields-bind
        (loop_inv (scan_body a i) scan_body-Above (i + 1) i (omega arith)
          (record { inside = omega arith; above = λ q l r. absurd (omega arith) }))
        λ place (v, found).
          let start : Held 1 i a (at a i) (a, i) = rw (set-at a i bound) (Sinking-start 1 i a) in
          let full : place + (i - place) ≡ i = omega (arith, v.inside) in
          let first : Moved (place + (i - place)) a = rw full (start, λ q l. refl) in
          Yields-if (place == i)
            (λ e. yields (Sinking-end (Sinking-start 1 i a) bound λ l. ground (arith, found)))
            (λ e. rw (load-at a i bound) (
              Yields-bind
                (for_down_inv (λ t b. Moved (place + t) b) (i - place) (λ t. move_up (place + t))
                  (λ t b l m.
                    let hole : place + suc t ≡ place + t + 1 = omega arith in
                    move_up-Moved (place + t) b (v.above _ (omega arith) (omega arith))
                      (rw hole at m))
                  (i - place) a (omega arith) first)
                λ b m.
                  let z : place + 0 ≡ place = omega arith in
                  let (held, same) = rw z at m in
                  let filled =
                    Held-end 1 i a (at a i) (omega arith) bound b place held
                      λ l. ground (arith, found l, same (place - 1)) in
                  rw (store-set b place (at a i) filled.1) (yields filled.0)))

-- Insertsort1(a, n), for an array of n entries, ends without an access outside the array and leaves its
-- entries in ascending order.
insert_sort1-Sorts : (a : List ℤ) → Yields (Sorts a) (insert_sort1 a (length a))
unfolding insert_sort1
insert_sort1-Sorts = insertions-Sorts insert_round1 λ i b l h. insert_round1-Inserted b i h

-- Insertsort1, Insertsort2 and Insertsort3, called with an array and its length n, end without an access outside
-- the array, and each leaves the entries of the array in ascending order.
pub all_insert-Sorts :
    (a : List ℤ)
    → Yields (Sorts a) (insert_sort1 a (length a))
      × Yields (Sorts a) (insert_sort2 a (length a))
      × Yields (Sorts a) (insert_sort3 a (length a))
all_insert-Sorts a = (insert_sort1-Sorts a, insert_sort2-Sorts a, insert_sort3-Sorts a)
