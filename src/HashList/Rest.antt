-- ===== src/HashList/Rest.antt =====
-- Reuse of c++/utils/cache/concurrent_hashlist.h: the nodes that have rested go to the other list.
use mathlib.Core.List.{append_assoc, append-nil}
use funcodes.Prelude.{
  not, ℕ, ◌<◌, ◌≡◌, refl, ap, ◌∙◌, Bool, true, false, List, [], ◌∷◌, ◌++◌, some, arith, ◌==◌,
  Yields, yields, Yields-map, Yields-inv, Bool-cases, inl, inr, length,
}
use funcodes.Links.{
  Links, get_pred, get_next, set_pred, set_next, has, Distinct, Distinct-apart, Distinct-splice,
  Distinct-suffix, Distinct-prefix, Chain, has-append, Chain-has, Chain-last, Chain-frame,
  Chain-drop, Chain-prefix, Chain-splice, Chain-pred, last_of, relink,
}
use funcodes.HashList.{Nodes, NodeManager, walk, reuse}
use funcodes.HashList.Order.{span}
use funcodes.HashList.Manager.{
  Managed, Linked-live, has-end, rested, waiting, append-rested, walk-rested,
}

module _ (l : Links) (g : NodeManager) (xs : List ℕ) (x : ℕ) (ps kept : List ℕ) (y : ℕ)
    (ys : List ℕ) (e : kept ++ g.reclaimer.end ∷ [] ≡ y ∷ ys)
    (all : Managed l g xs ((x ∷ ps) ++ kept)) where
  gap : (ps ++ kept) ++ g.reclaimer.end ∷ [] ≡ ps ++ y ∷ ys
  gap = append_assoc ps kept (g.reclaimer.end ∷ []) ∙ ap (λ (t : List ℕ). ps ++ t) e

  -- The writes to the one list, then those to the other
  abbrev first : Links
  first = relink l g.reclaimer.begin y

  abbrev moved : Links
  moved = relink (relink first (first.pred g.resource.end) x) (last_of x ps) g.resource.end

  whole : Chain l g.reclaimer.begin ((x ∷ ps) ++ y ∷ ys) g.reclaimer.end
  whole = rw gap at all.reclaimed.chain

  whole_Distinct : Distinct (g.reclaimer.begin ∷ (x ∷ ps) ++ y ∷ ys)
  whole_Distinct = rw gap at all.reclaimed.distinct

  away :
      (k : ℕ)
      → has k (span g.resource xs) ≡ true
      → has k (g.reclaimer.begin ∷ (x ∷ ps) ++ y ∷ ys) ≡ false
  away k h = rw gap at (all.apart k h)

  run_apart : (k : ℕ) → has k (x ∷ ps) ≡ true → has k (y ∷ ys) ≡ false
  run_apart = Distinct-apart (x ∷ ps) (y ∷ ys) whole_Distinct.1

  run_Distinct : Distinct (x ∷ ps)
  run_Distinct = Distinct-prefix (x ∷ ps) (y ∷ ys) whole_Distinct.1

  kept_Distinct : Distinct (g.reclaimer.begin ∷ y ∷ ys)
  kept_Distinct = (
    ground (arith, whole_Distinct.0, has-append g.reclaimer.begin (x ∷ ps) (y ∷ ys)),
    Distinct-suffix (x ∷ ps) (y ∷ ys) whole_Distinct.1,
  )

  run : Chain first x ps (last_of x ps)
  run =
      let c = (Chain-prefix l x ps y ys g.reclaimer.end whole.3).0 in
      Chain-frame l first x ps (last_of x ps) c run_Distinct (λ k h. refl)
        (λ k h other.
          ground (arith, whole_Distinct.0, has-append g.reclaimer.begin (x ∷ ps) (y ∷ ys)))
        (λ k h. let o = run_apart k (ground arith) in ground arith)

  target : Chain first g.resource.begin (xs ++ g.resource.end ∷ []) g.resource.end
  target =
      Chain-frame l first g.resource.begin (xs ++ g.resource.end ∷ []) g.resource.end
        all.resting.chain all.resting.distinct (λ k h. refl)
        (λ k h other. let o = away k h in ground arith)
        (λ k h. let o = away k (ground arith) in ground (arith, has-append k (x ∷ ps) (y ∷ ys)))

  run_away : (k : ℕ) → has k (span g.resource xs) ≡ true → has k (x ∷ ps) ≡ false
  run_away k h = let o = away k h in ground (arith, has-append k (x ∷ ps) (y ∷ ys))

  last_in : has (last_of x ps) (x ∷ ps) ≡ true
  last_in = Chain-last first x ps (last_of x ps) run

  tail_in : has (first.pred g.resource.end) (g.resource.begin ∷ xs) ≡ true
  tail_in = Chain-pred first g.resource.begin xs g.resource.end [] g.resource.end target

  kept_away :
      (k : ℕ)
      → has k (g.reclaimer.begin ∷ y ∷ ys) ≡ true
      → (has k (span g.resource xs) ≡ false) × (has k (x ∷ ps) ≡ false)
  kept_away k h =
      let o = has-append k (x ∷ ps) (y ∷ ys) in
      (
        (elim (Bool-cases (has k (span g.resource xs))) [
          | inl i ↦ let a = away k i in ground arith
          | inr i ↦ i
        ]),
        (elim (Bool-cases (has k (x ∷ ps))) [
          | inl i ↦
              let a = run_apart k i in
              let d = whole_Distinct.0 in
              let b = has-append g.reclaimer.begin (x ∷ ps) (y ∷ ys) in ground arith
          | inr i ↦ i
        ]),
      )

  moved-Managed : Managed moved g (xs ++ x ∷ ps) kept
  moved-Managed =
      let close : (xs ++ x ∷ ps) ++ g.resource.end ∷ [] ≡ xs ++ x ∷ (ps ++ g.resource.end ∷ []) =
        append_assoc xs (x ∷ ps) (g.resource.end ∷ []) in
      record {
        resting = record {
          chain = rw close (
              Chain-splice first g.resource.begin xs x ps (last_of x ps) g.resource.end []
                g.resource.end target all.resting.distinct run run_Distinct run_away);
          distinct = rw close (
              Distinct-splice (g.resource.begin ∷ xs) (g.resource.end ∷ []) (x ∷ ps)
                all.resting.distinct run_Distinct run_away);
        };
        reclaimed = record {
          chain = rw e (
              Chain-frame first moved g.reclaimer.begin (y ∷ ys) g.reclaimer.end
                (Chain-drop l g.reclaimer.begin (x ∷ ps) y ys g.reclaimer.end whole whole_Distinct
                  kept_Distinct.1)
                kept_Distinct (λ k h. refl)
                (λ k h other.
                  let o = kept_away k h in
                  ground (arith, last_in, tail_in, has-append k xs (g.resource.end ∷ [])))
                (λ k h.
                  let o = kept_away k (ground arith) in
                  ground (arith, has-append k xs (g.resource.end ∷ []))));
          distinct = rw e kept_Distinct;
        };
        apart = λ k h. rw e (elim (Bool-cases (has k (g.reclaimer.begin ∷ y ∷ ys))) [
          | inl i ↦
              let o = kept_away k i in
              ground (
                arith,
                has-append k (xs ++ x ∷ ps) (g.resource.end ∷ []),
                has-append k xs (x ∷ ps),
                has-append k xs (g.resource.end ∷ []),
              )
          | inr i ↦ i
        ]);
        dead = all.dead;
      }

module _ (rounds now : ℕ) (g : NodeManager) (m m' : Nodes) where
  reuse-eq :
      (a x y : ℕ)
      → walk rounds now g.reclaimer g.reclaimer.begin m ≡ some (m', a)
      → (a == g.reclaimer.begin) ≡ false
      → m'.links.live g.reclaimer.begin ≡ true
      → m'.links.next g.reclaimer.begin ≡ x
      → m'.links.live a ≡ true
      → m'.links.next a ≡ y
      → m'.links.live y ≡ true
      → m'.links.live g.resource.end ≡ true
      → m'.links.live ((relink m'.links g.reclaimer.begin y).pred g.resource.end) ≡ true
      → m'.links.live x ≡ true
      → reuse rounds now g m
        ≡ some (
          record m' {
            links =
                let l = relink m'.links g.reclaimer.begin y in
                relink (relink l (l.pred g.resource.end) x) a g.resource.end;
          },
          true,
        )
  unfolding reuse get_next get_pred set_next set_pred
  reuse-eq a x y e on u n v p w s t q = rw (e, on, u, n, v, p, w, s, t, q, v, s) refl

append-cons : (xs : List ℕ) (b : ℕ) → (y : ℕ) × (ys : List ℕ) × (xs ++ b ∷ [] ≡ y ∷ ys)
append-cons [] b = (b, [], refl)
append-cons (x ∷ xs) b = (x, xs ++ b ∷ [], refl)

abbrev pub is_empty : List ℕ → Bool
is_empty [] = true
is_empty (x ∷ xs) = false

abbrev pub Reuses : ℕ → NodeManager → Nodes → List ℕ → List ℕ → Nodes × Bool → Type 0
Reuses now g m xs ys (m', b) =
    Managed m'.links g (xs ++ rested m.timeout now ys) (waiting m.timeout now ys)
    × (b ≡ not (is_empty (rested m.timeout now ys)))
    × (m'.timeout ≡ m.timeout)

reuse-rested :
    (rounds now : ℕ) (g : NodeManager) (m : Nodes) (xs : List ℕ) (x : ℕ) (ps kept : List ℕ)
    → Managed m.links g xs ((x ∷ ps) ++ kept)
    → (m' : Nodes) → m'.links ≡ m.links
    → walk rounds now g.reclaimer g.reclaimer.begin m ≡ some (m', last_of x ps)
    → Yields
        (λ (m'', b).
          Managed m''.links g (xs ++ x ∷ ps) kept × (b ≡ true) × (m''.timeout ≡ m'.timeout))
        (reuse rounds now g m)
reuse-rested rounds now g m xs x ps kept all m' same e =
    let (y, zs, f) = append-cons kept g.reclaimer.end in
    let l = m.links in
    let c = whole l g xs x ps kept y zs f all in
    let d = whole_Distinct l g xs x ps kept y zs f all in
    let live_all = Chain-has l g.reclaimer.begin ((x ∷ ps) ++ y ∷ zs) g.reclaimer.end c in
    let run_last = last_in l g xs x ps kept y zs f all in
    let h = has-append (last_of x ps) (x ∷ ps) (y ∷ zs) in
    let h' = has-append y (x ∷ ps) (y ∷ zs) in
    let live_end = Linked-live l g.resource xs g.resource.end all.resting (has-end g.resource xs) in
    let before = tail_in l g xs x ps kept y zs f all in
    let p = (relink l g.reclaimer.begin y).pred g.resource.end in
    let live_tail : l.live p ≡ true =
      Linked-live l g.resource xs p all.resting
        (ground (arith, has-append p xs (g.resource.end ∷ []))) in
    let next = (Chain-prefix l x ps y zs g.reclaimer.end c.3).1 in
    rw
      (reuse-eq rounds now g m m' (last_of x ps) x y e (ground (arith, d.0)) (rw same c.0)
        (rw same c.1) (rw same (live_all (last_of x ps) (ground arith))) (rw same next)
        (rw same (live_all y (ground arith))) (rw same live_end) (rw same live_tail)
        (rw same (live_all x (ground arith))))
      (yields (rw same (moved-Managed l g xs x ps kept y zs f all), refl, refl))

reuse-split :
    (rounds now : ℕ) (g : NodeManager) (m : Nodes) (xs r kept : List ℕ)
    → Managed m.links g xs (r ++ kept)
    → (m' : Nodes) → m'.links ≡ m.links
    → walk rounds now g.reclaimer g.reclaimer.begin m ≡ some (m', last_of g.reclaimer.begin r)
    → Yields
        (λ (m'', b).
          Managed m''.links g (xs ++ r) kept × (b ≡ not (is_empty r)) × (m''.timeout ≡ m'.timeout))
        (reuse rounds now g m)
unfolding reuse
reuse-split rounds now g m xs [] kept all m' same e =
    let stop : (g.reclaimer.begin == g.reclaimer.begin) ≡ true = ground arith in
    rw (e, stop, append-nil xs, same) (yields (all, refl, refl))
reuse-split rounds now g m xs (x ∷ ps) kept all m' same e =
    reuse-rested rounds now g m xs x ps kept all m' same e

-- With the nodes of the manager in its two lists, and more rounds than nodes wait: Reuse moves the
-- nodes at the front of the list of reclaimed nodes whose time is not after `now`, all of them and
-- in their order, behind the nodes that rest; the others wait on. It says whether it moved any.
pub reuse-Reuses :
    (rounds now : ℕ) (g : NodeManager) (m : Nodes) (xs ys : List ℕ)
    → Managed m.links g xs ys
    → length ys < rounds
    → Yields (Reuses now g m xs ys) (reuse rounds now g m)
reuse-Reuses rounds now g m xs ys all fuel =
    let ((m', a), e, (at_last, same, time)) = Yields-inv (
      walk-rested rounds now g.reclaimer g.reclaimer.begin ys m all.reclaimed.chain
        all.reclaimed.distinct fuel) in
    Yields-map
      (reuse-split rounds now g m xs (rested m.timeout now ys) (waiting m.timeout now ys)
        (rw (append-rested m.timeout now ys) all) m' same
        (e ∙ ap (λ (z : ℕ). some (m', z)) at_last))
      λ (m'', b) (h, said, t). (h, said, t ∙ time)
