-- ===== src/BoundedHeap/Fix.antt =====
-- fix_heap of both heaps.
use funcodes.Prelude.{
  ℕ, ◌+◌, ◌-◌, ◌*◌, ◌≤◌, ◌<◌, ◌≡◌, ◌≢◌, ◌⊎◌, refl, Bool, true, false, ◌&&◌, List, some, arith, ltb,
  if◌then◌else◌, length, get_or, load-get_or, swapped_or, get_or-swapped_or, length-swapped_or,
  swap-swapped_or, Yields, yields, Yields-bind, Yields-if,
}
use funcodes.Prelude.Loops.{again, loop_again, loop_inv, Round, go_on, leave}
use funcodes.BoundedHeap.{fix_test, fix_below, fix_round, fix_loop}
use funcodes.BoundedHeap.Build.{Shuffled, Shuffled-refl, Shuffled-swap}

module _ {ℓ} {A : Type ℓ} (compare : A → A → Bool) (d : A) (n : ℕ) where
  abbrev State : Type ℓ
  State = List A × ℕ × Bool

  -- How far `ind` is from the end of the entries in use.
  left_over : State → ℕ
  left_over (b, ind, _) = n - ind

  fix_test-Yields :
      (b : List A) (ind : ℕ)
      → n ≤ length b
      → Yields
          (λ t. t ≡ (
            if ltb (2 * (ind + 1)) n
            then compare (get_or b (2 * ind + 1) d) (get_or b ind d)
            else false))
          (fix_test compare n b ind)
  unfolding fix_test
  fix_test-Yields b ind fits =
      Yields-if (ltb (2 * (ind + 1)) n)
        (λ e.
          rw (load-get_or d b (2 * ind + 1) (ground arith), load-get_or d b ind (ground arith), e)
            (yields refl))
        (λ e. rw e (yields refl))

  fix_below-Yields :
      (b : List A) (ind tmp : ℕ)
      → n ≤ length b
      → ind < n
      → Yields
          (λ t. t ≡ (if ltb tmp n then compare (get_or b ind d) (get_or b tmp d) else false))
          (fix_below compare n b ind tmp)
  unfolding fix_below
  fix_below-Yields b ind tmp fits l =
      Yields-if (ltb tmp n)
        (λ e.
          rw (load-get_or d b ind (omega arith), load-get_or d b tmp (ground arith), e)
            (yields refl))
        (λ e. rw e (yields refl))

  step_measure :
      (b c : List A) (ind tmp : ℕ) (t u : Bool)
      → ind < n
      → (tmp ≡ 2 * ind + 1) ⊎ (tmp ≡ 2 * (ind + 1))
      → left_over (c, tmp, t) < left_over (b, ind, u)
  unfolding left_over
  step_measure b c ind tmp t u l h = omega (arith, h)

  -- What a round has to show: that an exchange of `ind` with a child and a step to it keep `P`.
  fix_round-keeps {κ} :
      (P : List A → ℕ → Type κ) (Q : State → Type κ) (after : Bool → Bool)
      → ((b : List A) (ind : ℕ) → P b ind → n ≤ length b)
      → ((b : List A) (ind : ℕ) (c : Bool) → P b ind → Q (b, ind, c))
      → ((b : List A) (ind tmp : ℕ)
          → P b ind
          → ind < n
          → (tmp ≡ 2 * ind + 1) ⊎ (tmp ≡ 2 * (ind + 1))
          → P b tmp × (tmp < n → P (swapped_or d b ind tmp) tmp))
      → (s : State) → P s.0 s.1
      → Yields (Round (λ t. P t.0 t.1) Q left_over s) (fix_round compare after n s)
  unfolding fix_round
  fix_round-keeps P Q after fits out step (b, ind, has_child) p =
      Yields-if (ltb ind n && has_child)
        (λ e. Yields-bind (fix_test-Yields b ind (fits b ind p)) λ other _.
          let tmp = if other then 2 * (ind + 1) else 2 * ind + 1 in
          let inside : ind < n = ground arith in
          let child : (tmp ≡ 2 * ind + 1) ⊎ (tmp ≡ 2 * (ind + 1)) = ground arith in
          let (moved, exchanged) = step b ind tmp p inside child in
          Yields-bind (fix_below-Yields b ind tmp (fits b ind p) inside) λ below f.
            Yields-if below
              (λ g.
                let low : tmp < n = ground arith in
                rw
                  (swap-swapped_or d b ind tmp (omega (arith, fits b ind p))
                    (omega (arith, fits b ind p)))
                  (yields (go_on (exchanged low) (step_measure b _ ind tmp _ _ inside child))))
              (λ g. yields (go_on moved (step_measure b _ ind tmp _ _ inside child))))
        (λ e. yields (leave (out b ind has_child p)))

  pub fix_loop-Shuffled :
      (after : Bool → Bool) (a : List A)
      → n ≤ length a
      → Yields (Shuffled d n a) (fix_loop compare after n a)
  unfolding fix_loop left_over
  fix_loop-Shuffled after a fits =
      Yields-bind
        (loop_inv (fix_round compare after n)
          (fix_round-keeps (λ b _. Shuffled d n a b × (n ≤ length b)) (λ t. Shuffled d n a t.0)
            after (λ b i p. p.1) (λ b i c p. p.0)
            λ b i m p l e. (p, λ h. (Shuffled-swap d n p.0 p.1 i m l h, rw length-swapped_or p.1)))
          (n + 1) (a, 0, true) (omega arith) (Shuffled-refl d n, fits))
        λ t q. yields q

  -- With the first child above the top entry and below the second child, the first child comes to
  -- the top and the second stays where it is.
  record Passes (x y : A) (b : List A) (ind : ℕ) : Type ℓ where
    fits : n ≤ length b
    inner : 1 ≤ ind
    aside : ind ≢ 2
    top : get_or b 0 d ≡ x
    second : get_or b 2 d ≡ y

  Passes-step :
      {x y : A} (b : List A) (ind tmp : ℕ)
      → Passes x y b ind
      → ind < n
      → (tmp ≡ 2 * ind + 1) ⊎ (tmp ≡ 2 * (ind + 1))
      → Passes x y b tmp × (tmp < n → Passes x y (swapped_or d b ind tmp) tmp)
  Passes-step b ind tmp p l e = (
    record {
      fits = p.fits;
      inner = omega (arith, e);
      aside = omega (arith, e, p.inner);
      top = p.top;
      second = p.second;
    },
    λ h.
        let moved = get_or-swapped_or d b ind tmp (omega (arith, p.fits)) (omega (arith, p.fits)) in
        record {
          fits = rw length-swapped_or p.fits;
          inner = omega (arith, e);
          aside = omega (arith, e, p.inner);
          top = ground (arith, moved 0, e, p.inner, p.top);
          second = ground (arith, moved 2, e, p.inner, p.aside, p.second);
        },
  )

  module _ (a : List A) (three : 3 ≤ n) (fits : n ≤ length a)
      (lower : compare (get_or a 1 d) (get_or a 0 d) ≡ false)
      (upper : compare (get_or a 0 d) (get_or a 1 d) ≡ true) where
    first_test : fix_test compare n a 0 ≡ some false
    unfolding fix_test
    first_test =
        let second : ltb 2 n ≡ true = ground arith in
        rw (second, load-get_or d a 1 (omega arith), load-get_or d a 0 (omega arith), lower)

    first_below : fix_below compare n a 0 1 ≡ some true
    unfolding fix_below
    first_below =
        let first : ltb 1 n ≡ true = ground arith in
        rw (first, load-get_or d a 1 (omega arith), load-get_or d a 0 (omega arith), upper)

    first_round :
        (after : Bool → Bool)
        → fix_round compare after n (a, 0, true) ≡ some (again (swapped_or d a 0 1, 1, after true))
    unfolding fix_round
    first_round after =
        let used : ltb 0 n ≡ true = ground arith in
        rw (used, first_test, first_below, swap-swapped_or d a 0 1 (omega arith) (omega arith))

    Passes-start : Passes (get_or a 1 d) (get_or a 2 d) (swapped_or d a 0 1) 1
    Passes-start =
        let moved = get_or-swapped_or d a 0 1 (omega arith) (omega arith) in
        record {
          fits = rw length-swapped_or fits;
          inner = omega arith;
          aside = omega arith;
          top = moved 0;
          second = moved 2;
        }

    pub fix_loop_first :
        (after : Bool → Bool)
        → Yields
            (λ b. (n ≤ length b) × (get_or b 0 d ≡ get_or a 1 d) × (get_or b 2 d ≡ get_or a 2 d))
            (fix_loop compare after n a)
    unfolding fix_loop left_over
    fix_loop_first after =
        let run =
          loop_inv (fix_round compare after n)
            (fix_round-keeps (Passes (get_or a 1 d) (get_or a 2 d))
              (λ t.
                (n ≤ length t.0)
                × (get_or t.0 0 d ≡ get_or a 1 d)
                × (get_or t.0 2 d ≡ get_or a 2 d))
              after (λ b i p. p.fits) (λ b i c p. (p.fits, p.top, p.second)) Passes-step)
            n (swapped_or d a 0 1, 1, after true) (omega arith) Passes-start in
        rw (loop_again (fix_round compare after n) n (first_round after))
          (Yields-bind run λ t q. yields q)
