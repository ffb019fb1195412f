-- ===== src/HashMap/Access.antt =====
-- The map that the buckets stand for, and find, of c++/utils/cache/concurrent_hashmap.h.
use native.Mathlib.Nat.{mod-lt}
use funcodes.Prelude.{ℕ, ◌+◌, ◌%◌, ◌<◌, ◌≡◌, refl, false, List, Option, some, arith, ◌==◌, length}
use funcodes.Links.{null, get_next, Chain-live, Chain-has}
use funcodes.HashMap.{HashMap, bucket, find_in, hash_result, find}
use funcodes.HashMap.Family.{Family}
use funcodes.HashMap.Contents.{Keyed, look, look-has, node_or_null, value_of, find_from-look}

module _ {ℓ} {V : Type ℓ} (hash : ℕ → ℕ) where
  -- The lists are chains apart from each other, and each bucket has the keys that hash to it, once.
  pub record WellFormed (s : HashMap V) (xs : ℕ → List ℕ) : Type ℓ where
    pub family : Family (s.bucket_count + 2) s.links s.lists xs
    pub some_bucket : 0 < s.bucket_count
    pub keyed : (i : ℕ) → i < s.bucket_count → Keyed hash s.bucket_count s.entry i (xs (bucket i))

  abbrev pub home : HashMap V → ℕ → ℕ
  home s key = hash key % s.bucket_count

  -- The map that the nodes stand for: the node under a key
  abbrev pub node_at : HashMap V → (ℕ → List ℕ) → ℕ → Option ℕ
  node_at s xs key = look s.entry key (xs (bucket (home s key)))

  module _ (s : HashMap V) (xs : ℕ → List ℕ) (key : ℕ) (well : WellFormed s xs) where
    pub home_lt : home s key < s.bucket_count
    home_lt = mod-lt (hash key) well.some_bucket

    pub hash_result-home : hash_result (hash key) s ≡ some (home s key)
    unfolding hash_result
    hash_result-home =
        let nonzero : (s.bucket_count == 0) ≡ false = ground (arith, well.some_bucket) in
        rw nonzero refl

    pub find_in-node_at :
        (rounds : ℕ)
        → length (xs (bucket (home s key))) < rounds
        → find_in rounds key (home s key) s ≡ some (node_or_null (node_at s xs key))
    unfolding find_in get_next
    find_in-node_at rounds fuel =
        let e = well.family.ends (bucket (home s key)) (omega (arith, home_lt)) in
        let b = s.lists (bucket (home s key)) in
        let live = Chain-live s.links b.begin (xs (bucket (home s key))) b.end e.chain in
        rw live (
          find_from-look hash s.bucket_count rounds key s (home s key) b.begin
            (xs (bucket (home s key))) b.end e.chain e.stops well.family.dead
            (well.keyed (home s key) home_lt) fuel)

    pub node_at-node : (p : ℕ) → node_at s xs key ≡ some p → (p == null) ≡ false
    node_at-node p there =
        let e = well.family.ends (bucket (home s key)) (omega (arith, home_lt)) in
        let b = s.lists (bucket (home s key)) in
        let m = look-has s.entry key (xs (bucket (home s key))) p there in
        let live =
          Chain-has s.links b.begin (xs (bucket (home s key))) b.end e.chain p (ground arith) in
        ground (arith, well.family.dead)

    -- On a well-formed map, with more rounds than the bucket has nodes, find returns the node under
    -- the key, or null when there is none.
    pub find-node_at :
        (rounds : ℕ)
        → length (xs (bucket (home s key))) < rounds
        → find hash rounds key s ≡ some (node_or_null (node_at s xs key))
    unfolding find
    find-node_at rounds fuel = rw hash_result-home (find_in-node_at rounds fuel)

-- The map as a function from keys to values
abbrev pub contents {ℓ} : {V : Type ℓ} → (ℕ → ℕ) → HashMap V → (ℕ → List ℕ) → ℕ → Option V
contents hash s xs key = value_of s.entry (node_at hash s xs key)
