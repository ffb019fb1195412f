-- ===== src/Sort/Bubble/Pass.antt =====
-- One pass of the inner `for`, which both bubble sorts make: what holds before round `j`.
use mathlib.Core.List.Perm
use funcodes.Prelude.{
  ℕ, ◌+◌, ◌-◌, ◌≤◌, ◌<◌, ◌≡◌, List, Perm, arith, ℤ, ◌≤ℤ◌, ◌<ℤ◌, length, at, swapped, length-swapped,
  at-swapped, swapped-perm,
}

-- From index `k` on, each entry is at least every entry before it.
abbrev pub HasTail : ℕ → List ℤ → Type 0
HasTail k a = (i c : ℕ) → i ≤ c → k ≤ c → c < length a → at a i ≤ℤ at a c

-- `a` is the input, `b` the array now; `m` is where the last exchange was made, or 0.
pub record Pass (a : List ℤ) (k m j : ℕ) (b : List ℤ) : Type 0 where
  pub size : length b ≡ length a
  pub perm : Perm b a
  pub tail : HasTail k b
  pub since : m < j
  pub ordered : (i c : ℕ) → i ≤ c → m ≤ c → c < j → at b i ≤ℤ at b c

pub Pass-start :
    {a b : List ℤ} {k : ℕ} → Perm b a → length b ≡ length a → HasTail k b → Pass a k 0 1 b
Pass-start p s t = record {
  size = s;
  perm = p;
  tail = t;
  since = omega arith;
  ordered = λ i c l m n. let e : i ≡ c = omega arith in ground arith;
}

module _ {a b : List ℤ} {k m j : ℕ} (p : Pass a k m j b) where
  pub Pass-keep : at b (j - 1) ≤ℤ at b j → Pass a k m (j + 1) b
  Pass-keep h = record {
    size = p.size;
    perm = p.perm;
    tail = p.tail;
    since = omega (arith, p.since);
    ordered = λ i c l n q. ground (arith, p.since, p.ordered i c, p.ordered i (j - 1));
  }

  -- Forgetting what was in order before the last place.
  pub Pass-forget : Pass a k (j - 1) j b
  Pass-forget = record {
    size = p.size;
    perm = p.perm;
    tail = p.tail;
    since = omega (arith, p.since);
    ordered = λ i c l n q. p.ordered i c l (omega (arith, p.since)) q;
  }

  pub Pass-swap :
      0 < j
      → j < k
      → j < length b
      → at b j <ℤ at b (j - 1)
      → Pass a k j (j + 1) (swapped b (j - 1) j)
  Pass-swap h q r lt = record {
    size = omega (arith, length-swapped b (j - 1) j, p.size);
    perm = Perm.trans (swapped-perm b (j - 1) j (omega arith) r) p.perm;
    tail = λ i c l n s. ground (
      arith,
      length-swapped b (j - 1) j,
      at-swapped b (j - 1) j (omega arith) r i,
      at-swapped b (j - 1) j (omega arith) r c,
      p.tail i c,
      p.tail (j - 1) c,
      p.tail j c,
    );
    since = omega arith;
    ordered = λ i c l n s. ground (
      arith,
      p.since,
      at-swapped b (j - 1) j (omega arith) r i,
      at-swapped b (j - 1) j (omega arith) r c,
      p.ordered i (j - 1),
    );
  }

  -- At the end of the pass only what lies before the last exchange can be out of order.
  pub Pass-end : k ≤ j → HasTail m b
  Pass-end h i c l n q = ground (arith, p.ordered i c, p.tail i c)
