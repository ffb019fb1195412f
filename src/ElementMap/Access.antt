-- ===== src/ElementMap/Access.antt =====
-- Find in a bucket of the map of c++/utils/cache/concurrent_hashmap_element_lock.h.
use funcodes.Prelude.{
  ℕ, zero, suc, ◌+◌, ◌%◌, ◌<◌, ◌≡◌, refl, true, false, List, [], ◌∷◌, ◌++◌, none, some, arith, ◌==◌,
  length,
}
use funcodes.Links.{null, get_next, has, Chain, Chain-live}
use funcodes.HashList.Order.{Linked, span}
use funcodes.HashList.Manager.{Managed}
use funcodes.HashMap.Contents.{look, node_or_null}
use funcodes.ElementMap.{ElementMap, hash_result, find_from, find_in, find}

module _ {ℓ} {V : Type ℓ} where
  -- The nodes of bucket `idx` are `order`, those that the manager keeps are `xs` and `ys`, and the
  -- three lists are apart. The sentinel behind the bucket has no entry and ends the search.
  pub record Stored (s : ElementMap V) (idx : ℕ) (order xs ys : List ℕ) : Type ℓ where
    pub listed : Linked s.nodes.links (s.buckets idx) order
    pub managed : Managed s.nodes.links s.manager xs ys
    pub no_entry : s.entry (s.buckets idx).end ≡ none
    pub stops : s.nodes.links.next (s.buckets idx).end ≡ null
    pub rests :
        (k : ℕ)
        → has k (span (s.buckets idx) order) ≡ true
        → has k (span s.manager.resource xs) ≡ false
    pub waits :
        (k : ℕ)
        → has k (span (s.buckets idx) order) ≡ true
        → has k (span s.manager.reclaimer ys) ≡ false

  find_from-look :
      (rounds key : ℕ) (s : ElementMap V) (a : ℕ) (order : List ℕ) (b : ℕ)
      → Chain s.nodes.links a (order ++ b ∷ []) b
      → s.entry b ≡ none
      → s.nodes.links.next b ≡ null
      → s.nodes.links.live null ≡ false
      → length order + 1 < rounds
      → find_from rounds key s (s.nodes.links.next a) ≡ some (node_or_null (look s.entry key order))
  unfolding find_from get_next look
  find_from-look zero key s a order b c e stops dead fuel = absurd (omega arith)
  find_from-look (suc zero) key s a order b c e stops dead fuel = absurd (omega arith)
  find_from-look (suc (suc rounds)) key s a [] b (u, n, p, (live, _)) e stops dead fuel =
      let node : (b == null) ≡ false = ground arith in rw (n, node, live, e, stops) refl
  find_from-look (suc rounds) key s a (x ∷ order) b (u, n, p, c) e stops dead fuel =
      let live = Chain-live s.nodes.links x (order ++ b ∷ []) b c in
      let node : (x == null) ≡ false = ground arith in
      let ih = find_from-look rounds key s x order b c e stops dead (omega arith) in
      rw (n, node, live) (ground (arith, ih))

  module _ (hash : ℕ → ℕ) (s : ElementMap V) (key : ℕ) (order xs ys : List ℕ)
      (some_bucket : 0 < s.bucket_count) where
    pub hash_result-eq : hash_result (hash key) s ≡ some (hash key % s.bucket_count)
    unfolding hash_result
    hash_result-eq =
        let nonzero : (s.bucket_count == 0) ≡ false = ground (arith, some_bucket) in rw nonzero refl

    pub find_in-look :
        (rounds : ℕ)
        → Stored s (hash key % s.bucket_count) order xs ys
        → length order + 1 < rounds
        → find_in rounds key (hash key % s.bucket_count) s
          ≡ some (node_or_null (look s.entry key order))
    unfolding find_in get_next
    find_in-look rounds stored fuel =
        let b = s.buckets (hash key % s.bucket_count) in
        let live =
          Chain-live s.nodes.links b.begin (order ++ b.end ∷ []) b.end stored.listed.chain in
        rw live (
          find_from-look rounds key s b.begin order b.end stored.listed.chain stored.no_entry
            stored.stops stored.managed.dead fuel)

    -- find returns the node of the bucket that has the key, or null when there is none.
    find-look :
        (rounds : ℕ)
        → Stored s (hash key % s.bucket_count) order xs ys
        → length order + 1 < rounds
        → find hash rounds key s ≡ some (node_or_null (look s.entry key order))
    unfolding find
    find-look rounds stored fuel = rw hash_result-eq (find_in-look rounds stored fuel)
