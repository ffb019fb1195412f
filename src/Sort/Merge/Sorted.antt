-- ===== src/Sort/Merge/Sorted.antt =====
-- mergesort and MergeSort.
use mathlib.Core.List.Perm
use funcodes.Prelude.{
  ℕ, zero, suc, ◌+◌, ◌-◌, ◌/◌, ◌≤◌, ◌<◌, ◌≡◌, refl, inl, inr, true, List, [], ◌∷◌, Perm, ltb, ℤ,
  length, arith, Yields, yields, Yields-bind, Yields-elim, Yields-map,
}
use funcodes.Sort.Order.{Sorts}
use funcodes.Sort.Merge.{merge_sort_range, merge_sort}
use funcodes.Sort.Merge.Segment.{seg, seg_ext, seg-append, seg-whole}
use funcodes.Sort.Merge.Merging.{Ascends, Ranged, merge_array-Ranged}

Ranged-one : (a : List ℤ) (first last : ℕ) → last ≤ first → Ranged a first last a
Ranged-one a first last h = record {
  same_size = refl;
  outside = λ p m. refl;
  perm = Perm.rfl;
  ascends = λ p q l m n. let e : p ≡ q = omega arith in rw e (omega arith);
}

module _ {a b c : List ℤ} {first mid last : ℕ} (low : first ≤ mid) (high : mid < last)
    (f : Ranged a first mid b) (g : Ranged b (mid + 1) last c) where
  Ranged-left : Ascends c first (mid + 1)
  Ranged-left p q l m n =
      ground (arith, g.outside p (inl (omega arith)), g.outside q (inl n), f.ascends p q l m n)

  halves-perm : Perm (seg c first (last + 1 - first)) (seg a first (last + 1 - first))
  halves-perm =
      let c1 = mid + 1 - first in
      let c2 = last + 1 - (mid + 1) in
      let whole : c1 + c2 ≡ last + 1 - first = omega arith in
      let next : first + c1 ≡ mid + 1 = omega arith in
      let front : seg c first c1 ≡ seg b first c1 =
        seg_ext c b first first c1 λ q l. g.outside (first + q) (inl (omega arith)) in
      let back : seg b (mid + 1) c2 ≡ seg a (mid + 1) c2 =
        seg_ext b a (mid + 1) (mid + 1) c2 λ q l. f.outside (mid + 1 + q) (inr (omega arith)) in
      rw
        (
          rw (whole, next) at (seg-append c first c1 c2),
          rw (whole, next) at (seg-append a first c1 c2),
        )
        (Perm.append (rw front f.perm) (rw back at g.perm))

  Ranged-both : {d : List ℤ} → Ranged c first last d → Ranged a first last d
  Ranged-both h = record {
    same_size = omega (arith, f.same_size, g.same_size, h.same_size);
    outside = λ p m. ground (arith, m, f.outside p, g.outside p, h.outside p);
    perm = Perm.trans h.perm halves-perm;
    ascends = h.ascends;
  }

merge_sort_range-Ranged :
    (depth : ℕ) (a : List ℤ) (first last : ℕ) (temp : List ℤ)
    → first ≤ last
    → last < first + depth
    → last < length a
    → last < length temp
    → Yields
        (λ r. Ranged a first last r.0 × (length r.1 ≡ length temp))
        (merge_sort_range depth a first last temp)
unfolding merge_sort_range
merge_sort_range-Ranged zero a first last temp along deep fits room = absurd (omega arith)
merge_sort_range-Ranged (suc depth) a first last temp along deep fits room =
    let mid = (first + last) / 2 in
    Yields-elim (ltb first last)
      (λ e.
        let low : first ≤ mid = ground (arith, e) in
        let high : mid < last = ground (arith, e) in
        Yields-bind
          (merge_sort_range-Ranged depth a first mid temp low (omega arith) (omega arith)
            (omega arith))
          λ (b, t) (f, long).
            Yields-bind
              (merge_sort_range-Ranged depth b (mid + 1) last t (omega arith) (omega arith)
                (omega (arith, f.same_size)) (omega arith))
              λ (c, u) (g, long').
                Yields-map
                  (merge_array-Ranged c first mid last (length temp) low high
                    (omega (arith, f.same_size, g.same_size)) (omega arith)
                    (Ranged-left low high f g) g.ascends u (omega arith))
                  λ r (h, n). (Ranged-both low high f g h, n))
      (λ e. yields (Ranged-one a first last (ground (arith, e)), refl))

Ranged-Sorts : (a : List ℤ) {b : List ℤ} → 0 < length a → Ranged a 0 (length a - 1) b → Sorts a b
Ranged-Sorts a {b} some_left r =
    let size = r.same_size in
    let all : length a - 1 + 1 - 0 ≡ length a = omega arith in
    let whole : seg b 0 (length a) ≡ b = rw size at (seg-whole b) in
    (
      λ p q l m. r.ascends p q (omega arith) l (omega arith),
      rw whole at (rw (all, seg-whole a) at r.perm),
    )

merge_sort_range-empty :
    (p : List ℤ) → Yields (λ r. Sorts [] r.0) (merge_sort_range (0 + 1) [] 0 (0 - 1) p)
unfolding merge_sort_range
merge_sort_range-empty p = yields (λ i j l m. absurd (omega arith), Perm.rfl)

merge_sort_range-Sorts :
    (a p : List ℤ)
    → length p ≡ length a
    → Yields (λ r. Sorts a r.0) (merge_sort_range (length a + 1) a 0 (length a - 1) p)
merge_sort_range-Sorts [] p room = merge_sort_range-empty p
merge_sort_range-Sorts (x ∷ a) p room =
    Yields-map
      (merge_sort_range-Ranged (length (x ∷ a) + 1) (x ∷ a) 0 (length (x ∷ a) - 1) p (omega arith)
        (omega arith) (omega arith) (omega arith))
      λ r h. Ranged-Sorts (x ∷ a) (omega arith) h.0

-- MergeSort(a, n), for an array of n entries, with any memory of n entries from new: it ends without
-- an access outside an array, returns true and leaves its entries in ascending order.
pub merge_sort-Sorts :
    (a p : List ℤ)
    → length p ≡ length a
    → Yields (λ r. Sorts a r.0 × (r.1 ≡ true)) (merge_sort a (length a) p)
unfolding merge_sort
merge_sort-Sorts a p room = Yields-bind (merge_sort_range-Sorts a p room) λ r h. yields (h, refl)
