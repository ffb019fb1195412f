-- ===== src/Sort/Shell/Sorted.antt =====
-- The three shell sorts, by passes.
use mathlib.Core.List.Perm
use funcodes.Prelude.{
  ℕ, ◌+◌, ◌-◌, ◌/◌, ◌≤◌, ◌<◌, ◌≡◌, refl, List, Option, Perm, arith, ltb, if◌then◌else◌, ℤ, length,
  Yields, yields, Yields-bind, Yields-map, Yields-if,
}
use funcodes.Prelude.Loops.{for_up_inv, for_up, loop, loop_inv, Round, go_on, leave}
use funcodes.Sort.Order.{IsSortedTo, IsSorted, Sorts}
use funcodes.Sort.Gap.{gap_insert, gap_sink}
use funcodes.Sort.Gap.Sinking.{Inserted, gap_sink-Inserted}
use funcodes.Sort.Gap.Held.{gap_insert-Inserted}
use funcodes.Sort.Shell.{
  stride_body, stride, shell_pass1, shell_pass2, shell_pass3, gap_body, shell_sort1, shell_sort2,
  shell_sort3,
}

-- What a pass has done before the entry `i`: at gap 1, an insertion sort of the front.
record Combed (gap : ℕ) (a : List ℤ) (i : ℕ) (b : List ℤ) : Type 0 where
  size : length b ≡ length a
  perm : Perm b a
  front : gap ≡ 1 → IsSortedTo i b

Combed-start : {gap i : ℕ} {a : List ℤ} → (gap ≡ 1 → i ≤ 1) → Combed gap a i a
Combed-start h = record {
  size = refl;
  perm = Perm.rfl;
  front = λ e p q l m. let s : p ≡ q = omega (arith, h e) in rw s (omega arith);
}

-- What is in order up to `i` is so up to any place before it; at other gaps nothing is said.
Combed-cut : {gap i n : ℕ} {a b : List ℤ} → (gap ≡ 1 → n ≤ i) → Combed gap a i b → Combed gap a n b
Combed-cut h f = record {
  size = f.size;
  perm = f.perm;
  front = λ e p q l m. f.front e p q l (omega (arith, h e));
}

Combed-trans :
    {gap i n : ℕ} {a b c : List ℤ} → Combed gap a i b → Combed gap b n c → Combed gap a n c
Combed-trans f g = record {
  size = omega (arith, f.size, g.size);
  perm = Perm.trans g.perm f.perm;
  front = g.front;
}

Combed-Inserted :
    {gap i : ℕ} {a b c : List ℤ} → Combed gap a i b → Inserted gap i b c → Combed gap a (i + 1) c
Combed-Inserted f s = record {
  size = omega (arith, f.size, s.size);
  perm = Perm.trans s.perm f.perm;
  front = λ e. s.front e (f.front e);
}

abbrev Pass : List ℤ → (ℕ → List ℤ → Option (List ℤ)) → Type 0
Pass a pass =
    (gap : ℕ) (b : List ℤ)
    → 1 ≤ gap
    → gap ≤ length a
    → length b ≡ length a
    → Yields (Combed gap b (length a)) (pass gap b)

-- A body that inserts each entry from `gap` on makes a pass.
insertions-Combed :
    (gap : ℕ) (body : ℕ → List ℤ → Option (List ℤ))
    → ((i : ℕ) (b : List ℤ) → gap ≤ i → i < length b → Yields (Inserted gap i b) (body i b))
    → (a : List ℤ) (n : ℕ) → gap ≤ n
    → length a ≡ n
    → Yields (Combed gap a n) (for_up (n - gap) gap body a)
insertions-Combed gap body inserts a n l e =
    for_up_inv (Combed gap a) gap n body
      (λ i b r s f. Yields-map (inserts i b r (omega (arith, f.size))) λ c t. Combed-Inserted f t)
      (n - gap) gap a (omega arith) (omega arith) (Combed-start (λ o. omega arith))

pass2-Combed : (a : List ℤ) → Pass a (shell_pass2 (length a))
unfolding shell_pass2
pass2-Combed a gap b g l e =
    insertions-Combed gap (gap_insert gap) (λ i c r s. gap_insert-Inserted gap i c g r s) b
      (length a) l e

pass3-Combed : (a : List ℤ) → Pass a (shell_pass3 (length a))
unfolding shell_pass3
pass3-Combed a gap b g l e =
    insertions-Combed gap (gap_sink gap) (λ i c r s. gap_sink-Inserted gap i c g s) b (length a) l e

-- One stride of shellsort1, with gap 1 the only one.
abbrev Striding : ℕ → ℕ → List ℤ → List ℤ × ℕ → Type 0
Striding n gap a (b, j) = Combed gap a j b × (gap ≤ j) × (gap ≡ 1 → j ≤ n)

stride_body-Striding :
    (n gap : ℕ) (a : List ℤ)
    → 1 ≤ gap
    → length a ≡ n
    → (s : List ℤ × ℕ) → Striding n gap a s
    → Yields
        (Round (Striding n gap a) (λ t. Combed gap a n t.0) (λ t. n - t.1) s)
        (stride_body n gap s)
unfolding stride_body
stride_body-Striding n gap a g e (b, j) (f, low, high) =
    Yields-if (ltb j n)
      (λ t. Yields-bind (gap_insert-Inserted gap j b g low (ground (arith, f.size))) λ c s. yields (
        go_on (Combed-cut (λ o. omega arith) (Combed-Inserted f s), omega arith, λ o. ground arith)
          (ground arith)))
      (λ t. yields (leave (Combed-cut (λ o. ground arith) f)))

stride-Combed :
    (n gap i : ℕ) (a : List ℤ)
    → 1 ≤ gap
    → gap ≤ n
    → i < gap
    → length a ≡ n
    → Yields (Combed gap a n) (stride n gap i a)
unfolding stride
stride-Combed n gap i a g l m e =
    Yields-bind
      (loop_inv (stride_body n gap) (stride_body-Striding n gap a g e) (n + 1) (a, i + gap)
        (omega arith) (Combed-start (λ o. omega arith), omega arith, λ o. omega arith))
      λ t f. yields f

-- Before the stride `i` of shellsort1: with gap 1 the first stride sorts.
abbrev Strode : ℕ → ℕ → List ℤ → ℕ → List ℤ → Type 0
Strode n gap a i b = Combed gap a (if ltb 0 i then n else 0) b

pass1-Combed : (a : List ℤ) → Pass a (shell_pass1 (length a))
unfolding shell_pass1
pass1-Combed a gap b g l e =
    Yields-map
      (for_up_inv (Strode (length a) gap b) 0 gap (stride (length a) gap)
        (λ i c r s f.
          Yields-map (stride-Combed (length a) gap i c g l s (omega (arith, f.size, e)))
            λ d t. Combed-cut (λ o. ground arith) (Combed-trans f t))
        gap 0 b (omega arith) (omega arith) (Combed-start λ o. omega arith))
      λ c f. Combed-cut (λ o. ground arith) f

-- Between two passes; the last was made with gap 1, if any was needed.
record Shelled (a : List ℤ) (s : List ℤ × ℕ) : Type 0 where
  size : length s.0 ≡ length a
  perm : Perm s.0 a
  fits : s.1 ≤ length a / 2
  done : s.1 ≡ 0 → IsSorted s.0

module _ (a : List ℤ) (pass : ℕ → List ℤ → Option (List ℤ)) (combs : Pass a pass) where
  gap_body-Shelled :
      (s : List ℤ × ℕ)
      → Shelled a s
      → Yields (Round (Shelled a) (λ t. Sorts a t.0) (λ t. t.1) s) (gap_body pass s)
  unfolding gap_body
  gap_body-Shelled (b, gap) s =
      Yields-if (ltb 0 gap)
        (λ e. Yields-bind (combs gap b (ground arith) (omega (arith, s.fits)) s.size) λ c f.
          yields (
            go_on
              (record {
                size = omega (arith, f.size, s.size);
                perm = Perm.trans f.perm s.perm;
                fits = omega (arith, s.fits);
                done = λ z p q l m. f.front (ground arith) p q l (omega (arith, f.size, s.size));
              })
              (ground arith)))
        (λ e. yields (leave (s.done (ground arith), s.perm)))

  -- Every choice of pass makes a sort.
  gap_loop-Sorts :
      Yields
        (λ (t : List ℤ × ℕ). Sorts a t.0)
        (loop (length a + 1) (gap_body pass) (a, length a / 2))
  gap_loop-Sorts =
      loop_inv (gap_body pass) gap_body-Shelled (length a + 1) (a, length a / 2) (omega arith)
        (record {
          size = refl;
          perm = Perm.rfl;
          fits = omega arith;
          done = λ z p q l m. let e : p ≡ q = omega arith in rw e (omega arith);
        })

-- shellsort1(a, n), for an array of n entries, ends without an access outside the array and leaves its
-- entries in ascending order.
shell_sort1-Sorts : (a : List ℤ) → Yields (Sorts a) (shell_sort1 a (length a))
unfolding shell_sort1
shell_sort1-Sorts a =
    Yields-bind (gap_loop-Sorts a (shell_pass1 (length a)) (pass1-Combed a)) λ t s. yields s

-- shellsort2(a, n), for an array of n entries, ends without an access outside the array and leaves its
-- entries in ascending order.
shell_sort2-Sorts : (a : List ℤ) → Yields (Sorts a) (shell_sort2 a (length a))
unfolding shell_sort2
shell_sort2-Sorts a =
    Yields-bind (gap_loop-Sorts a (shell_pass2 (length a)) (pass2-Combed a)) λ t s. yields s

-- shellsort3(a, n), for an array of n entries, ends without an access outside the array and leaves its
-- entries in ascending order.
shell_sort3-Sorts : (a : List ℤ) → Yields (Sorts a) (shell_sort3 a (length a))
unfolding shell_sort3
shell_sort3-Sorts a =
    Yields-bind (gap_loop-Sorts a (shell_pass3 (length a)) (pass3-Combed a)) λ t s. yields s

-- shellsort1, shellsort2 and shellsort3, called with an array and its length n, end without an access outside
-- the array, and each leaves the entries of the array in ascending order.
pub all_shell-Sorts :
    (a : List ℤ)
    → Yields (Sorts a) (shell_sort1 a (length a))
      × Yields (Sorts a) (shell_sort2 a (length a))
      × Yields (Sorts a) (shell_sort3 a (length a))
all_shell-Sorts a = (shell_sort1-Sorts a, shell_sort2-Sorts a, shell_sort3-Sorts a)
