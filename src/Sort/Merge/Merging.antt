-- ===== src/Sort/Merge/Merging.antt =====
-- mergearray, by rounds.
use native.Mathlib.Decide.{ℕ_discrete}
use mathlib.Core.List.{append-nil, append_assoc, perm_middle}
use mathlib.Core.List.Perm
use funcodes.Prelude.{
  ℕ, suc, ◌+◌, ◌-◌, ◌≤◌, ◌<◌, ◌≡◌, ◌⊎◌, inr, refl, sym, ◌&&◌, List, [], ◌∷◌, ◌++◌, Perm, leb, ℤ, lt,
  ◌≤ℤ◌, length, at, load-at, store-set, at-set, set, length-set, arith, Yields, yields, Yields-bind,
  Yields-if,
}
use funcodes.Prelude.Loops.{loop_inv, for_up_inv, Round, go_on, leave}
use funcodes.Sort.Merge.{merge_body, rest_body, back_body, merge_array}
use funcodes.Sort.Merge.Segment.{seg, seg_ext, seg-append, seg-set}

-- The entries from `first` up to `last` ascend.
abbrev pub Ascends : List ℤ → ℕ → ℕ → Type 0
Ascends a first last = (p q : ℕ) → first ≤ p → p ≤ q → q < last → at a p ≤ℤ at a q

-- `b` is `a` with the entries from `first` to `last` in ascending order.
pub record Ranged (a : List ℤ) (first last : ℕ) (b : List ℤ) : Type 0 where
  pub same_size : length b ≡ length a
  pub outside : (p : ℕ) → (p < first) ⊎ (last < p) → at b p ≡ at a p
  pub perm : Perm (seg b first (last + 1 - first)) (seg a first (last + 1 - first))
  pub ascends : Ascends b first (last + 1)

-- `a`, with the parts first … mid and mid + 1 … last, and room in the scratch array.
module _ (a : List ℤ) (first mid last size : ℕ) (low : first ≤ mid) (high : mid < last)
    (fits : last < length a) (room : last < size + first) (left : Ascends a first (mid + 1))
    (right : Ascends a (mid + 1) (last + 1)) where
  record Merged (t : List ℤ) (i j k : ℕ) : Type 0 where
    long : length t ≡ size
    from_left : (first ≤ i) × (i ≤ mid + 1)
    from_right : (mid + 1 ≤ j) × (j ≤ last + 1)
    count : k + (mid + 1 - i) + (last + 1 - j) ≡ last + 1 - first
    perm :
        Perm
          (seg t 0 k ++ (seg a i (mid + 1 - i) ++ seg a j (last + 1 - j)))
          (seg a first (last + 1 - first))
    sorted : Ascends t 0 k
    below_left : (p q : ℕ) → p < k → i ≤ q → q ≤ mid → at t p ≤ℤ at a q
    below_right : (p q : ℕ) → p < k → j ≤ q → q ≤ last → at t p ≤ℤ at a q

  Merged-left :
      {t : List ℤ} {i j k : ℕ}
      → Merged t i j k
      → i ≤ mid
      → ((q : ℕ) → j ≤ q → q ≤ last → at a i ≤ℤ at a q)
      → Merged (set t k (at a i)) (i + 1) j (k + 1)
  unfolding seg
  Merged-left {t} {i} {j} {k} s h least =
      let inside : k < length t = omega (arith, s.long, s.count, s.from_left, s.from_right) in
      let new = λ (q : ℕ). at-set t k q (at a i) inside in
      let I = seg a (i + 1) (mid + 1 - (i + 1)) in
      let J = seg a j (last + 1 - j) in
      let head : seg a i (mid + 1 - i) ≡ at a i ∷ I =
        (let e : mid + 1 - i ≡ suc (mid + 1 - (i + 1)) = omega arith in rw e refl) in
      record {
        long = rw length-set s.long;
        from_left = omega (arith, s.from_left);
        from_right = s.from_right;
        count = omega (arith, s.count, s.from_left);
        perm =
            rw (seg-set t k (at a i) inside, append_assoc (seg t 0 k) (at a i ∷ []) (I ++ J))
              (rw head at s.perm);
        sorted = λ p q l m n. ground (arith, new p, new q, s.sorted p q, s.below_left p i);
        below_left = λ p q l m n. ground (arith, new p, s.below_left p q, left i q, s.from_left);
        below_right = λ p q l m n. ground (arith, new p, s.below_right p q, least q);
      }

  Merged-right :
      {t : List ℤ} {i j k : ℕ}
      → Merged t i j k
      → j ≤ last
      → ((q : ℕ) → i ≤ q → q ≤ mid → at a j ≤ℤ at a q)
      → Merged (set t k (at a j)) i (j + 1) (k + 1)
  unfolding seg
  Merged-right {t} {i} {j} {k} s h least =
      let inside : k < length t = omega (arith, s.long, s.count, s.from_left, s.from_right) in
      let new = λ (q : ℕ). at-set t k q (at a j) inside in
      let I = seg a i (mid + 1 - i) in
      let J = seg a (j + 1) (last + 1 - (j + 1)) in
      let head : seg a j (last + 1 - j) ≡ at a j ∷ J =
        (let e : last + 1 - j ≡ suc (last + 1 - (j + 1)) = omega arith in rw e refl) in
      record {
        long = rw length-set s.long;
        from_left = s.from_left;
        from_right = omega (arith, s.from_right);
        count = omega (arith, s.count, s.from_right);
        perm =
            rw (seg-set t k (at a j) inside, append_assoc (seg t 0 k) (at a j ∷ []) (I ++ J))
              (Perm.trans (Perm.append_left (seg t 0 k) (Perm.symm (perm_middle I J)))
                (rw head at s.perm));
        sorted = λ p q l m n. ground (arith, new p, new q, s.sorted p q, s.below_right p j);
        below_left = λ p q l m n. ground (arith, new p, s.below_left p q, least q);
        below_right =
            λ p q l m n. ground (arith, new p, s.below_right p q, right j q, s.from_right);
      }

  merge_body-Merged :
      (u : List ℤ × ℕ × ℕ × ℕ)
      → Merged u.0 u.1 u.2 u.3
      → Yields
          (Round
            (λ u. Merged u.0 u.1 u.2 u.3)
            (λ u. Merged u.0 u.1 u.2 u.3 × ((mid < u.1) ⊎ (last < u.2)))
            (λ u. last + 1 - u.3)
            u)
          (merge_body a mid last u)
  unfolding merge_body
  merge_body-Merged (t, i, j, k) s =
      Yields-if (leb i mid && leb j last)
        (λ e.
          let inside : k < length t =
            ground (arith, s.long, s.count, s.from_left, s.from_right, e) in
          let more : k < last + 1 = ground (arith, s.count, e) in
          rw (load-at a i (ground (arith, e)), load-at a j (ground (arith, e)))
            (Yields-if (lt (at a i) (at a j))
              (λ f. rw (store-set t k (at a i) inside) (
                yields (
                  go_on
                    (Merged-left s (ground (arith, e))
                      (λ q l m. ground (arith, e, f, right j q, s.from_right)))
                    (omega arith))))
              (λ f. rw (store-set t k (at a j) inside) (
                yields (
                  go_on
                    (Merged-right s (ground (arith, e))
                      (λ q l m. ground (arith, e, f, left i q, s.from_left)))
                    (omega arith))))))
        (λ e. yields (leave (s, ground (arith, e))))

  left_body-Merged :
      (j : ℕ) (u : List ℤ × ℕ × ℕ)
      → Merged u.0 u.1 j u.2 × ((mid < u.1) ⊎ (last < j))
      → Yields
          (Round
            (λ u. Merged u.0 u.1 j u.2 × ((mid < u.1) ⊎ (last < j)))
            (λ u. Merged u.0 u.1 j u.2 × (mid < u.1))
            (λ u. last + 1 - u.2)
            u)
          (rest_body a mid u)
  unfolding rest_body
  left_body-Merged j (t, i, k) (s, over) =
      Yields-if (leb i mid)
        (λ e.
          let inside : k < length t =
            ground (arith, s.long, s.count, s.from_left, s.from_right, e) in
          let more : k < last + 1 = ground (arith, s.count, e) in
          let done : last < j = ground (arith, e, over) in
          rw (load-at a i (ground (arith, e)), store-set t k (at a i) inside)
            (yields (
              go_on (Merged-left s (ground (arith, e)) (λ q l m. absurd (omega arith)), inr done)
                (omega arith))))
        (λ e. yields (leave (s, ground (arith, e))))

  right_body-Merged :
      (i : ℕ) (u : List ℤ × ℕ × ℕ)
      → Merged u.0 i u.1 u.2 × (mid < i)
      → Yields
          (Round
            (λ u. Merged u.0 i u.1 u.2 × (mid < i))
            (λ u. Merged u.0 i u.1 u.2 × (mid < i) × (last < u.1))
            (λ u. last + 1 - u.2)
            u)
          (rest_body a last u)
  unfolding rest_body
  right_body-Merged i (t, j, k) (s, over) =
      Yields-if (leb j last)
        (λ e.
          let inside : k < length t =
            ground (arith, s.long, s.count, s.from_left, s.from_right, e) in
          let more : k < last + 1 = ground (arith, s.count, e) in
          rw (load-at a j (ground (arith, e)), store-set t k (at a j) inside)
            (yields (
              go_on (Merged-right s (ground (arith, e)) (λ q l m. absurd (omega arith)), over)
                (omega arith))))
        (λ e. yields (leave (s, over, ground (arith, e))))

  -- Before round `i` of the last loop.
  record Copied (v : List ℤ) (i : ℕ) (b : List ℤ) : Type 0 where
    size_kept : length b ≡ length a
    copied : (q : ℕ) → q < i → at b (first + q) ≡ at v q
    others : (p : ℕ) → (p < first) ⊎ (first + i ≤ p) → at b p ≡ at a p

  back_body-Copied :
      (v : List ℤ) (k : ℕ)
      → k ≤ last + 1 - first
      → length v ≡ size
      → (i : ℕ) (b : List ℤ) → 0 ≤ i
      → i < k
      → Copied v i b
      → Yields (Copied v (i + 1)) (back_body v first i b)
  unfolding back_body
  back_body-Copied v k h long i b z l s =
      let place : first + i < length b = omega (arith, s.size_kept) in
      let new = λ (q : ℕ). at-set b (first + i) q (at v i) place in
      rw (load-at v i (omega arith), store-set b (first + i) (at v i) place)
        (yields (record {
          size_kept = rw length-set s.size_kept;
          copied = λ q m. elim (ℕ_discrete i q) [
            | yes e ↦ rw (← e) (ground (arith, new (first + i)))
            | no ne ↦ ground (arith, new (first + q), s.copied q)
          ];
          others = λ p m. ground (arith, m, new p, s.others p);
        }))

  Merged-start : (temp : List ℤ) → length temp ≡ size → Merged temp first (mid + 1) 0
  unfolding seg
  Merged-start temp long =
      let c = mid + 1 - first in
      let d = last + 1 - (mid + 1) in
      let whole : c + d ≡ last + 1 - first = omega arith in
      let next : first + c ≡ mid + 1 = omega arith in
      let split = seg-append a first c d in
      record {
        long = long;
        from_left = omega arith;
        from_right = omega arith;
        count = omega arith;
        perm = rw (sym (rw (whole, next) at split)) Perm.rfl;
        sorted = λ p q l m n. absurd (omega arith);
        below_left = λ p q l m n. absurd (omega arith);
        below_right = λ p q l m n. absurd (omega arith);
      }

  Copied-Ranged :
      {v b : List ℤ} {i j k : ℕ}
      → Merged v i j k
      → mid < i
      → last < j
      → Copied v k b
      → Ranged a first last b
  unfolding seg
  Copied-Ranged {v} {b} {i} {j} {k} s over_left over_right c =
      let none_left : mid + 1 - i ≡ 0 = omega arith in
      let none_right : last + 1 - j ≡ 0 = omega arith in
      let all : k ≡ last + 1 - first = omega (arith, s.count) in
      let same : seg b first k ≡ seg v 0 k =
        seg_ext b v first 0 k λ q l. let e : 0 + q ≡ q = omega arith in rw e (c.copied q l) in
      let back = λ (p : ℕ) (l : first ≤ p) (m : p < last + 1).
        let place : first + (p - first) ≡ p = omega arith in
        rw place at (c.copied (p - first) (omega arith)) in
      record {
        same_size = c.size_kept;
        outside = λ p m. c.others p (omega (arith, m));
        perm =
            rw (← all, same) (rw (none_left, none_right, append-nil (seg v 0 k), ← all) at s.perm);
        ascends = λ p q l m n. ground (
          arith,
          back p l (omega arith),
          back q (omega arith) n,
          s.sorted (p - first) (q - first),
        );
      }

  pub merge_array-Ranged :
      (temp : List ℤ)
      → length temp ≡ size
      → Yields
          (λ r. Ranged a first last r.0 × (length r.1 ≡ size))
          (merge_array a first mid last temp)
  unfolding merge_array
  merge_array-Ranged temp long =
      Yields-bind
        (loop_inv (merge_body a mid last) merge_body-Merged (last + 2) (temp, first, mid + 1, 0)
          (omega arith) (Merged-start temp long))
        λ (t, i, j, k) (s, over).
          Yields-bind
            (loop_inv (rest_body a mid) (left_body-Merged j) (last + 2) (t, i, k) (omega arith)
              (s, over))
            λ (u, i, k) (s, left_over).
              Yields-bind
                (loop_inv (rest_body a last) (right_body-Merged i) (last + 2) (u, j, k)
                  (omega arith) (s, left_over))
                λ (v, j, k) (s, left_over, right_over).
                  let few : k ≤ last + 1 - first = omega (arith, s.count) in
                  Yields-bind
                    (for_up_inv (Copied v) 0 k (back_body v first) (back_body-Copied v k few s.long)
                      k 0 a (omega arith) (omega arith)
                      (record {
                        size_kept = refl;
                        copied = λ q m. absurd (omega arith);
                        others = λ p m. refl;
                      }))
                    λ b c. yields (Copied-Ranged s left_over right_over c, s.long)
