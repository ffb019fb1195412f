-- ===== src/Sort/HeapSort/Heap.antt =====
-- MinHeapFixdown, on a heap in which one entry may be out of order.
use mathlib.Core.List.Perm
use funcodes.Prelude.{
  ℕ, ◌+◌, ◌-◌, ◌*◌, ◌/◌, ◌≤◌, ◌<◌, ◌≡◌, ◌≢◌, ◌⊎◌, inl, refl, List, Perm, arith, ltb, ◌==◌,
  if◌then◌else◌, ℤ, lt, ◌≤ℤ◌, length, at, load-at, set, set-hole, set-at, at-set, length-set,
  store-set, swapped, at-swapped, length-swapped, swapped-perm, Yields, yields, Yields-bind,
  Yields-if,
}
use funcodes.Prelude.Loops.{loop_inv, Round, go_on, leave}
use funcodes.Sort.HeapSort.{larger_child, fixdown_body, min_heap_fixdown}

abbrev pub parent : ℕ → ℕ
parent c = (c - 1) / 2

-- Every edge among the first `n` entries whose parent is at `lo` or later is in order.
abbrev pub IsHeapFrom : ℕ → ℕ → List ℤ → Type 0
IsHeapFrom lo n a = (c : ℕ) → 0 < c → c < n → lo ≤ parent c → at a c ≤ℤ at a (parent c)

-- `b` is `a` with its first `n` entries in another order.
pub record Shuffled (n : ℕ) (a b : List ℤ) : Type 0 where
  pub size : length b ≡ length a
  pub perm : Perm b a
  pub rest : (q : ℕ) → n ≤ q → at b q ≡ at a q
  pub below : (v : ℤ) → ((q : ℕ) → q < n → at a q ≤ℤ v) → (q : ℕ) → q < n → at b q ≤ℤ v

pub Shuffled-refl : {n : ℕ} {a : List ℤ} → Shuffled n a a
Shuffled-refl = record { size = refl; perm = Perm.rfl; rest = λ q l. refl; below = λ v h. h }

pub Shuffled-trans : {n : ℕ} {a b c : List ℤ} → Shuffled n a b → Shuffled n b c → Shuffled n a c
Shuffled-trans f g = record {
  size = omega (arith, f.size, g.size);
  perm = Perm.trans g.perm f.perm;
  rest = λ q l. ground (arith, f.rest q l, g.rest q l);
  below = λ v h. g.below v (f.below v h);
}

pub Shuffled-swap :
    {n i j : ℕ} {a b : List ℤ}
    → Shuffled n a b
    → n ≤ length b
    → i < n
    → j < n
    → Shuffled n a (swapped b i j)
Shuffled-swap {n} {i} {j} {b = b} f fits hi hj =
    let li : i < length b = omega arith in
    let lj : j < length b = omega arith in
    record {
      size = omega (arith, f.size, length-swapped b i j);
      perm = Perm.trans (swapped-perm b i j li lj) f.perm;
      rest = λ q l. ground (arith, f.rest q, at-swapped b i j li lj q);
      below = λ v h q l.
          ground (arith, at-swapped b i j li lj q, f.below v h q, f.below v h i, f.below v h j);
    }

-- Only the edges below `i` may be out of order.
pub record Falling (lo n : ℕ) (a b : List ℤ) (i : ℕ) : Type 0 where
  pub shuffled : Shuffled n a b
  pub fits : n ≤ length b
  pub inside : i < n
  pub edges : (c : ℕ) → 0 < c → c < n → lo ≤ parent c → parent c ≢ i → at b c ≤ℤ at b (parent c)
  pub bridged :
      (c : ℕ) → 0 < c → c < n → parent c ≡ i → 0 < i → lo ≤ parent i → at b c ≤ℤ at b (parent i)

-- `m` is the child of `i` with the larger entry.
record IsLargerChild (n : ℕ) (b : List ℤ) (i m : ℕ) : Type 0 where
  inside : m < n
  child : (m ≡ 2 * i + 1) ⊎ (m ≡ 2 * i + 2)
  greatest : (c : ℕ) → 0 < c → c < n → parent c ≡ i → at b c ≤ℤ at b m

larger_child-IsLargerChild :
    (n : ℕ) (b : List ℤ) (i : ℕ)
    → n ≤ length b
    → 2 * i + 1 < n
    → Yields (IsLargerChild n b i) (larger_child n b (2 * i + 1))
unfolding larger_child
larger_child-IsLargerChild n b i fits h =
    Yields-if (ltb (2 * i + 1 + 1) n)
      (λ e.
        rw (load-at b (2 * i + 1 + 1) (ground arith), load-at b (2 * i + 1) (omega arith))
          (yields (record {
            inside = ground arith;
            child = ground arith;
            greatest = λ c p q r. ground arith;
          })))
      (λ e. yields (record {
        inside = h;
        child = inl refl;
        greatest = λ c p q r. let s : c ≡ 2 * i + 1 = ground arith in rw s (omega arith);
      }))

Falling-swap :
    {lo n : ℕ} {a b : List ℤ} {i m : ℕ}
    → Falling lo n a b i
    → IsLargerChild n b i m
    → at b i ≤ℤ at b m
    → Falling lo n a (swapped b m i) m
Falling-swap {b = b} {i} {m} f s h =
    let li : i < length b = omega (arith, f.inside, f.fits) in
    let lm : m < length b = omega (arith, s.inside, f.fits) in
    let size = length-swapped b m i in
    let swaps = at-swapped b m i lm li in
    record {
      shuffled = Shuffled-swap f.shuffled f.fits s.inside f.inside;
      fits = omega (arith, size, f.fits);
      inside = s.inside;
      edges = λ c p q r t.
          ground (arith, s.child, swaps c, swaps (parent c), f.edges c, f.bridged m, s.greatest c);
      bridged = λ c p q r t u. ground (arith, s.child, swaps c, swaps (parent m), f.edges c);
    }

Falling-end :
    {lo n : ℕ} {a b : List ℤ} {i : ℕ}
    → Falling lo n a b i
    → ((c : ℕ) → 0 < c → c < n → parent c ≡ i → at b c ≤ℤ at b i)
    → IsHeapFrom lo n b
Falling-end f h c p q r = ground (arith, f.edges c, h c)

abbrev Held : ℕ → ℕ → List ℤ → ℤ → List ℤ × ℕ → Type 0
Held lo n a temp (b, i) = Falling lo n a (set b i temp) i

abbrev Filled : ℕ → ℕ → List ℤ → ℤ → List ℤ × ℕ → Type 0
Filled lo n a temp (b, i) =
    Shuffled n a (set b i temp) × IsHeapFrom lo n (set b i temp) × (i < length b)

module _ (lo n : ℕ) (a : List ℤ) (temp : ℤ) where
  module _ (b : List ℤ) (i : ℕ) (f : Held lo n a temp (b, i)) where
    Held-fits : n ≤ length b
    Held-fits = omega (arith, f.fits, length-set b i temp)

    Held-reads : (c : ℕ) → at (set b i temp) c ≡ (if i == c then temp else at b c)
    Held-reads c = at-set b i c temp (omega (arith, Held-fits, f.inside))

    Held-child : {m : ℕ} → IsLargerChild n b i m → IsLargerChild n (set b i temp) i m
    Held-child {m} s = record {
      inside = s.inside;
      child = s.child;
      greatest = λ c p q r. ground (arith, s.child, s.greatest c, Held-reads c, Held-reads m);
    }

    Held-shift :
        {m : ℕ} → IsLargerChild n b i m → temp ≤ℤ at b m → Held lo n a temp (set b i (at b m), m)
    Held-shift {m} s h =
        rw
          (set-hole b m i temp (omega (arith, s.inside, Held-fits))
            (omega (arith, f.inside, Held-fits)) (ground (arith, s.child)))
          (Falling-swap f (Held-child s) (ground (arith, s.child, Held-reads i, Held-reads m)))

    Held-end : ((c : ℕ) → 0 < c → c < n → parent c ≡ i → at b c ≤ℤ temp) → Filled lo n a temp (b, i)
    Held-end h = (
      f.shuffled,
      Falling-end f (λ c p q r. ground (arith, h c, Held-reads i, Held-reads c)),
      omega (arith, f.inside, Held-fits),
    )

  fixdown_body-Held :
      (s : List ℤ × ℕ)
      → Held lo n a temp s
      → Yields
          (Round (Held lo n a temp) (Filled lo n a temp) (λ t. n - t.1) s)
          (fixdown_body n temp s)
  unfolding fixdown_body
  fixdown_body-Held (b, i) f =
      let fits = Held-fits b i f in
      let hi : i < length b = omega (arith, f.inside) in
      Yields-if (ltb (2 * i + 1) n)
        (λ e. Yields-bind (larger_child-IsLargerChild n b i fits (ground arith)) λ m s.
          rw (load-at b m (omega (arith, s.inside))) (
            Yields-if (lt temp (at b m))
              (λ l. rw (store-set b i (at b m) hi) (
                yields
                  (go_on (Held-shift b i f s (ground arith)) (ground (arith, s.child, f.inside)))))
              (λ l. yields (leave (Held-end b i f λ c p q r. ground (arith, s.greatest c))))))
        (λ e. yields (leave (Held-end b i f λ c p q r. absurd (ground arith))))

-- MinHeapFixdown(a, i, n), where all edges from `i` + 1 on are in order, stays inside the array,
-- ends, permutes the first n entries and puts the edges from `lo` on in order.
pub min_heap_fixdown-Shuffled :
    {lo n : ℕ} {a : List ℤ} {i : ℕ}
    → Falling lo n a a i
    → Yields (λ b. Shuffled n a b × IsHeapFrom lo n b) (min_heap_fixdown a i n)
unfolding min_heap_fixdown
min_heap_fixdown-Shuffled {lo} {n} {a} {i} f =
    let hi : i < length a = omega (arith, f.inside, f.fits) in
    let held : Falling lo n a (set a i (at a i)) i = rw (set-at a i hi) f in
    rw (load-at a i hi) (
      Yields-bind
        (loop_inv (fixdown_body n (at a i)) (fixdown_body-Held lo n a (at a i)) (n + 1) (a, i)
          (omega arith) held)
        λ (b, h) s. rw (store-set b h (at a i) s.2) (yields (s.0, s.1)))
