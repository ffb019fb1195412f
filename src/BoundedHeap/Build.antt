-- ===== src/BoundedHeap/Build.antt =====
-- build_heap of both heaps: one exchange at most per inner place, from the last to the first.
use mathlib.Core.List.Perm
use funcodes.Prelude.{
  ℕ, suc, ◌+◌, ◌-◌, ◌*◌, ◌/◌, ◌≤◌, ◌<◌, ◌≡◌, ◌⊎◌, inl, inr, refl, Bool, true, false, List, Perm,
  arith, ltb, ◌==◌, if◌then◌else◌, length, get_or, load-get_or, get_or-load, swapped_or,
  get_or-swapped_or, length-swapped_or, swap-swapped_or, swapped_or-perm, Yields, yields,
  Yields-bind, Yields-if, Yields-map,
}
use funcodes.Prelude.Loops.{for_down_inv}
use funcodes.BoundedHeap.{build_child, build_round, build_loop}
use funcodes.BoundedHeap.Compare.{IsOrder, IsTop}
use funcodes.BoundedHeap.Climb.{
  parent, Climbs, Through, Climbs-le, Climbs-stays, Climbs-cases, Climbs-root, children_cases,
}

module _ {ℓ} {A : Type ℓ} (d : A) (n : ℕ) where
  -- `b` is `a` with its first `n` entries in another order.
  pub record Shuffled (a b : List A) : Type ℓ where
    pub size : length b ≡ length a
    pub perm : Perm b a
    pub rest : (q : ℕ) → n ≤ q → get_or b q d ≡ get_or a q d

  pub Shuffled-refl : {a : List A} → Shuffled a a
  Shuffled-refl = record { size = refl; perm = Perm.rfl; rest = λ q l. refl }

  pub Shuffled-swap :
      {a b : List A}
      → Shuffled a b
      → n ≤ length b
      → (i j : ℕ) → i < n
      → j < n
      → Shuffled a (swapped_or d b i j)
  Shuffled-swap {b = b} f fits i j hi hj =
      let li : i < length b = omega arith in
      let lj : j < length b = omega arith in
      record {
        size = omega (arith, f.size, length-swapped_or d b i j);
        perm = Perm.trans (swapped_or-perm d b i j li lj) f.perm;
        rest = λ q l. ground (arith, get_or-swapped_or d b i j li lj q, f.rest q l);
      }

module _ {ℓ} {A : Type ℓ} (compare : A → A → Bool) (order : IsOrder compare) (d : A) (n : ℕ) where
  -- No place in use has an entry that the comparison puts behind the one to which it climbs.
  record Rising (a : List A) (lo : ℕ) (b : List A) : Type ℓ where
    shuffled : Shuffled d n a b
    fits : n ≤ length b
    below : (c g : ℕ) → c < n → Climbs lo c g → compare (get_or b g d) (get_or b c d) ≡ false

  record IsLastChild (b : List A) (i m : ℕ) : Type ℓ where
    child : (m ≡ 2 * i + 1) ⊎ (m ≡ 2 * i + 2)
    last :
        (c : ℕ)
        → 0 < c
        → c < n
        → parent c ≡ i
        → (m < n) × (compare (get_or b m d) (get_or b c d) ≡ false)

  left_or_right :
      (b : List A) (i : ℕ)
      → 2 * (i + 1) < n
      → (t : Bool) → compare (get_or b (2 * i + 1) d) (get_or b (2 * (i + 1)) d) ≡ t
      → IsLastChild b i (if t then 2 * (i + 1) else 2 * i + 1)
  left_or_right b i h true e = record {
    child = inr (omega arith);
    last = λ c p l f. elim (children_cases c i p f) [
      | inl g ↦ rw g (h, order.asymm _ _ e)
      | inr g ↦ rw g (h, order.irrefl _)
    ];
  }
  left_or_right b i h false e = record {
    child = inl refl;
    last = λ c p l f. elim (children_cases c i p f) [
      | inl g ↦ rw g (omega arith, order.irrefl _)
      | inr g ↦ rw g (omega arith, e)
    ];
  }

  build_child-IsLastChild :
      (b : List A) (i : ℕ) → n ≤ length b → Yields (IsLastChild b i) (build_child compare n i b)
  unfolding build_child
  build_child-IsLastChild b i fits =
      Yields-if (ltb (2 * (i + 1)) n)
        (λ e.
          rw
            (
              load-get_or d b (2 * i + 1) (ground arith),
              load-get_or d b (2 * (i + 1)) (ground arith),
            )
            (yields (left_or_right b i (ground arith) _ refl)))
        (λ e. yields (record {
          child = inl refl;
          last =
              λ c p l m. let s : c ≡ 2 * i + 1 = ground arith in rw s (omega arith, order.irrefl _);
        }))

  Rising-start : {a : List A} → n ≤ length a → Rising a ((n - 1) / 2 + 1) a
  Rising-start fits = record {
    shuffled = Shuffled-refl d n;
    fits = fits;
    below = λ c g l s. let e : g ≡ c = Climbs-stays (omega arith) s in rw e (order.irrefl _);
  }

  module _ {a : List A} {i : ℕ} {b : List A} {m : ℕ} (r : Rising a (suc i) b)
      (s : IsLastChild b i m) where
    Rising-child :
        {c g : ℕ}
        → c < n
        → Through i c g
        → (compare (get_or b i d) (get_or b c d) ≡ false)
          ⊎ ((m < n) × (compare (get_or b m d) (get_or b c d) ≡ false))
    Rising-child {c} l (e, h, k, inl f) = inl (r.below c i l (rw f at k))
    Rising-child {c} l (e, h, k, inr (p, f)) =
        let (inside, u) = s.last h p (omega (arith, Climbs-le k)) f in
        inr (inside, order.trans _ _ _ (r.below c h l k) u)

    Rising-settle : (m < n → compare (get_or b i d) (get_or b m d) ≡ false) → Rising a i b
    Rising-settle h = record {
      shuffled = r.shuffled;
      fits = r.fits;
      below = λ c g l f. elim (Climbs-cases f) [
        | inl t ↦ rw t.0 (elim (Rising-child l t) [
          | inl u ↦ u
          | inr (inside, u) ↦ order.trans _ _ _ u (h inside)
        ])
        | inr (f', e, k) ↦ r.below c g l f'
      ];
    }

    module _ (inside : m < n) (h : compare (get_or b i d) (get_or b m d) ≡ true) where
      not_behind : {c g : ℕ} → c < n → Through i c g → compare (get_or b m d) (get_or b c d) ≡ false
      not_behind l t = elim (Rising-child l t) [
        | inl u ↦ order.trans _ _ _ u (order.asymm _ _ h)
        | inr (_, u) ↦ u
      ]

      exchanged :
          (c : ℕ)
          → get_or (swapped_or d b i m) c d
            ≡ (if m == c then get_or b i d else if i == c then get_or b m d else get_or b c d)
      exchanged = get_or-swapped_or d b i m (omega (arith, r.fits, s.child)) (omega (arith, r.fits))

      Rising-exchange : Rising a i (swapped_or d b i m)
      Rising-exchange = record {
        shuffled = Shuffled-swap d n r.shuffled r.fits i m (omega (arith, s.child)) inside;
        fits = rw length-swapped_or r.fits;
        below = λ c g l f. elim (Climbs-cases f) [
          | inl t ↦ ground (
            arith,
            t.0,
            exchanged g,
            exchanged c,
            s.child,
            not_behind l t,
            order.asymm _ _ h,
            order.irrefl (get_or b m d),
          )
          | inr (f', e, k) ↦
              let low : parent c < suc i → g ≡ c = λ p. Climbs-stays p f' in
              ground (arith, exchanged g, exchanged c, s.child, r.below c g l f', low, e, k)
        ];
      }

  build_round-Rising :
      (a : List A) (i : ℕ) (b : List A)
      → i < n
      → Rising a (suc i) b
      → Yields (Rising a i) (build_round compare n i b)
  unfolding build_round
  build_round-Rising a i b l r = Yields-bind (build_child-IsLastChild b i r.fits) λ m s.
      Yields-if (ltb m n)
        (λ e.
          rw (load-get_or d b i (omega (arith, r.fits)), load-get_or d b m (ground (arith, r.fits)))
            (Yields-if (compare (get_or b i d) (get_or b m d))
              (λ h.
                rw (swap-swapped_or d b i m (omega (arith, r.fits)) (ground (arith, r.fits)))
                  (yields (Rising-exchange r s (ground arith) h)))
              (λ h. yields (Rising-settle r s (λ _. h)))))
        (λ e. yields (Rising-settle r s (λ h. absurd (ground arith))))

  pub build_loop-top :
      (a : List A)
      → 0 < n
      → n ≤ length a
      → Yields
          (λ b.
            Shuffled d n a b × ((c : ℕ) → c < n → compare (get_or b 0 d) (get_or b c d) ≡ false))
          (build_loop compare n a)
  unfolding build_loop
  build_loop-top a some_used fits =
      Yields-map
        (for_down_inv (Rising a) n (build_round compare n) (λ i b l r. build_round-Rising a i b l r)
          ((n - 1) / 2 + 1) a (omega arith) (Rising-start fits))
        λ b r. (r.shuffled, λ c l. r.below c 0 l (Climbs-root n c l))

  pub build_loop-IsTop :
      (a : List A)
      → 0 < n
      → n ≤ length a
      → Yields (λ b. Shuffled d n a b × IsTop compare n b (get_or b 0 d)) (build_loop compare n a)
  build_loop-IsTop a used fits = Yields-map (build_loop-top a used fits) λ b r.
      let size : n ≤ length b = omega (arith, fits, r.0.size) in
      (
        r.0,
        record {
          first = load-get_or d b 0 (omega arith);
          last = λ q y l e. let f = get_or-load d b q e in rw (← f) (r.1 q l);
        },
      )
