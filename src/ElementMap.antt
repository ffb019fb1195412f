-- ===== src/ElementMap.antt =====
-- c++/utils/cache/concurrent_hashmap_element_lock.h: a map whose buckets are lists of
-- c++/utils/cache/concurrent_hashlist.h, with nodes from that header's manager. One thread runs at a
-- time; the hash and the address of a new node are arguments. The header does not compile when
-- `erase` is used, which reads fields that those lists do not have.
pub mod Access
pub mod Insert
mod Tests
use funcodes.Prelude.{
  ℕ, zero, suc, ◌+◌, ◌%◌, Bool, true, false, Option, none, some, ◌==◌, ◌>>=◌, if◌then◌else◌,
}
use funcodes.Links.{null, write, get_next}
use funcodes.HashList.{HashList, Nodes, NodeManager, push_back, get_one}
use funcodes.HashMap.Contents.{matches}

-- A node has no entry until Reset gives it one.
pub record ElementMap {ℓ} (V : Type ℓ) : Type ℓ where
  pub nodes : Nodes
  pub entry : ℕ → Option (ℕ × V)
  pub buckets : ℕ → HashList
  pub bucket_count : ℕ
  pub manager : NodeManager

module _ {ℓ} {V : Type ℓ} where
  -- `Hasher()(key) % buckets_.size()`, for the hash of the key
  unfoldable pub hash_result : ℕ → ElementMap V → Option ℕ
  hash_result hash s = if s.bucket_count == 0 then none else some (hash % s.bucket_count)

  -- The loop of Find
  unfoldable pub find_from : ℕ → ℕ → ElementMap V → ℕ → Option ℕ
  find_from zero key s cursor = none
  find_from (suc rounds) key s cursor =
      let rest = (do q ← get_next s.nodes.links cursor; find_from rounds key s q) in
      if cursor == null
      then some null
      else if s.nodes.links.live cursor
      then (if matches (s.entry cursor) key then some cursor else rest)
      else none

  unfoldable pub find_in : ℕ → ℕ → ℕ → ElementMap V → Option ℕ
  find_in rounds key idx s = do
    cursor ← get_next s.nodes.links (s.buckets idx).begin
    find_from rounds key s cursor

  unfoldable pub insert_node : ℕ → ℕ → ElementMap V → Option (ElementMap V)
  insert_node node idx s = do
    m ← push_back (s.buckets idx) node s.nodes
    some (record s { nodes = m })

module _ {ℓ} {V : Type ℓ} (hash : ℕ → ℕ) where
  unfoldable pub find : ℕ → ℕ → ElementMap V → Option ℕ
  find rounds key s = do idx ← hash_result (hash key) s; find_in rounds key idx s

  -- `insert` and `emplace`
  unfoldable pub insert : ℕ → ℕ → ℕ → V → ElementMap V → Option (ElementMap V × ℕ × Bool)
  insert rounds fresh key v s = do
    idx ← hash_result (hash key) s
    found ← find_in rounds key idx s
    if found == null
        then (do
          (m, node) ← get_one fresh s.manager s.nodes
          s ←
              insert_node node idx
                (record s { nodes = m; entry = write s.entry node (some (key, v)) })
          some (s, node, true))
        else some (s, found, false)
