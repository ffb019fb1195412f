-- ===== src/ElementMap/Insert.antt =====
-- insert and emplace of the map of c++/utils/cache/concurrent_hashmap_element_lock.h.
use funcodes.Prelude.{
  ℕ, ◌%◌, ◌≡◌, Bool, true, false, List, [], ◌∷◌, ◌++◌, Option, none, some, ◌==◌, if◌then◌else◌,
}
use funcodes.Links.{write, SameOutside}
use funcodes.HashList.Order.{span}
use funcodes.HashMap.Contents.{look, value_of}
use funcodes.ElementMap.{ElementMap}
use funcodes.ElementMap.Access.{Stored}

module _ {ℓ} {V : Type ℓ} (hash : ℕ → ℕ) (s : ElementMap V) (key : ℕ) (v : V) (order : List ℕ)
    (x : ℕ) (xs ys : List ℕ) where
  abbrev pub home : ℕ
  home = hash key % s.bucket_count

  -- The bucket has the node at its end, with the entry; the manager has lost it.
  pub record Added (r : ElementMap V × ℕ × Bool) : Type ℓ where
    pub stored : Stored r.0 home (order ++ x ∷ []) xs ys
    pub node : r.1 ≡ x
    pub entry : r.0.entry ≡ write s.entry x (some (key, v))
    pub value :
        (j : ℕ)
        → value_of r.0.entry (look r.0.entry j (order ++ x ∷ []))
          ≡ (if j == key then some v else value_of s.entry (look s.entry j order))
    pub same :
        SameOutside
          (x ∷ span (s.buckets home) order ++ span s.manager.resource (x ∷ xs))
          s.nodes.links
          r.0.nodes.links

  abbrev pub Inserts : Option ℕ → ElementMap V × ℕ × Bool → Type ℓ
  Inserts none (s', node, b) = (b ≡ true) × Added (s', node, b)
  Inserts (some p) r = r ≡ (s, p, false)
