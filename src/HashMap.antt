-- ===== src/HashMap.antt =====
-- c++/utils/cache/concurrent_hashmap.h: lists of nodes with a sentinel at the front and a pointer to
-- the last node, the manager that keeps the spare nodes in two such lists, and the map that has one
-- for each bucket. One thread runs at a time, so a lock that the code takes is free; the hash, the
-- clock and the addresses of new nodes are arguments. The header does not compile as it stands: the
-- model reads `cursor->pred.next` as `cursor->pred->next`, the overrides as plain members, a bucket's
-- lock as its spin lock, and InsertNode in `insert` with the index that `emplace` passes.
pub mod Ends
pub mod Family
pub mod Spares
pub mod Contents
pub mod Access
pub mod Insert
pub mod Erase
pub mod Primes
mod Tests
use funcodes.Prelude.{
  ℕ, zero, suc, ◌+◌, ◌%◌, ◌^◌, Bool, true, false, Option, none, some, ltb, ◌==◌, ◌>>=◌,
  if◌then◌else◌,
}
use funcodes.Links.{Links, null, write, get_pred, get_next, set_pred, set_next, create, free}

-- ConcurrentHashList: the address of the field `begin`, and the pointer `end`
pub record Bucket : Type 0 where
  pub begin : ℕ
  pub end : ℕ

-- The fields of the nodes and those of the map and its manager. List 0 is the manager's resouce_,
-- list 1 its reclaimer_, and list i + 2 is buckets_[i]. A node has no entry until Reset gives it one.
pub record HashMap {ℓ} (V : Type ℓ) : Type ℓ where
  pub links : Links
  pub timeout : ℕ → ℕ
  pub entry : ℕ → Option (ℕ × V)
  pub lists : ℕ → Bucket
  pub bucket_count : ℕ
  pub window_in_seconds : ℕ
  pub running : Bool

abbrev pub resource : ℕ
resource = 0

abbrev pub reclaimer : ℕ
reclaimer = 1

abbrev pub bucket : ℕ → ℕ
bucket i = i + 2

-- The operations of one list change the links and may move `end`.
unfoldable pub push_back : Bucket → ℕ → Links → Option (Bucket × Links)
push_back b node l = if b.end == node then some (b, l) else (do
  l ← set_next l b.end node
  l ← set_pred l node b.end
  l ← set_next l node null
  some (record b { end = node }, l))

-- Both branches of PopHead and of DetachNode: a node that is the last, and one that is not
unfoldable pub drop_last : Bucket → Links → Option (Bucket × Links)
drop_last b l = do
  last ← get_pred l b.end
  l ← set_next l last null
  some (record b { end = last }, l)

unfoldable pub drop_inner : Bucket → ℕ → Links → Option (Bucket × Links)
drop_inner b node l = do
  p ← get_pred l node
  n ← get_next l node
  l ← set_next l p n
  n ← get_next l node
  p ← get_pred l node
  l ← set_pred l n p
  some (b, l)

unfoldable pub pop_head : Bucket → Links → Option (Bucket × Links × ℕ)
pop_head b l = if b.end == b.begin then some (b, l, null) else (do
  cur ← get_next l b.begin
  (b, l) ←
      (if cur == b.end then drop_last b l else (do
        n ← get_next l cur
        l ← set_next l b.begin n
        n ← get_next l cur
        l ← set_pred l n b.begin
        some (b, l)))
  some (b, l, cur))

unfoldable pub detach_node : Bucket → ℕ → Links → Option (Bucket × Links)
detach_node b node l = if node == b.end then drop_last b l else drop_inner b node l

module _ {ℓ} {V : Type ℓ} where
  -- A list of the map after an operation on it
  abbrev pub put_list : HashMap V → ℕ → Bucket → Links → HashMap V
  put_list s i b l = record s { lists = write s.lists i b; links = l }

  -- TNodeManager::GetOne, with the address of a new node
  unfoldable pub get_one : ℕ → HashMap V → Option (HashMap V × ℕ)
  get_one fresh s = do
    (b, l, ret) ← pop_head (s.lists resource) s.links
    if ret == null
        then some (
          put_list (record s { entry = write s.entry fresh none }) resource b (create l fresh),
          fresh,
        )
        else (do l ← set_next l ret null; some (put_list s resource b l, ret))

  unfoldable pub reclaim : ℕ → ℕ → HashMap V → Option (HashMap V × Bool)
  reclaim now node s =
      let s = record s { timeout = write s.timeout node ((now + s.window_in_seconds) % 2 ^ 64) } in
      if s.running
      then (do
        (b, l) ← push_back (s.lists reclaimer) node s.links
        some (put_list s reclaimer b l, true))
      else some (s, false)

  -- `Hasher()(key) % buckets_.size()`, for the hash of the key
  unfoldable pub hash_result : ℕ → HashMap V → Option ℕ
  hash_result hash s = if s.bucket_count == 0 then none else some (hash % s.bucket_count)

  -- The loop of Find
  unfoldable pub find_from : ℕ → ℕ → HashMap V → ℕ → Option ℕ
  find_from zero key s cursor = none
  find_from (suc rounds) key s cursor =
      let rest = (do q ← get_next s.links cursor; find_from rounds key s q) in
      if cursor == null
      then some null
      else (do (k, v) ← s.entry cursor; if key == k then some cursor else rest)

  unfoldable pub find_in : ℕ → ℕ → ℕ → HashMap V → Option ℕ
  find_in rounds key idx s = do
    cursor ← get_next s.links (s.lists (bucket idx)).begin
    find_from rounds key s cursor

  unfoldable pub insert_node : ℕ → ℕ → HashMap V → Option (HashMap V)
  insert_node node idx s = do
    let b = s.lists (bucket idx)
    l ← set_next s.links b.end node
    l ← set_pred l node b.end
    some (put_list s (bucket idx) (record b { end = node }) l)

  -- `delete` of a node that the manager does not take
  unfoldable pub reclaim_or_delete : ℕ → ℕ → HashMap V → Option (HashMap V)
  reclaim_or_delete now node s = do
    (s, kept) ← reclaim now node s
    if kept then some s else some (record s { links = free s.links node })

  unfoldable pub erase_in : ℕ → ℕ → ℕ → ℕ → HashMap V → Option (HashMap V × ℕ)
  erase_in rounds now key idx s = do
    cursor ← find_in rounds key idx s
    if cursor == null then some (s, 0) else (do
      (b, l) ← detach_node (s.lists (bucket idx)) cursor s.links
      s ← reclaim_or_delete now cursor (put_list s (bucket idx) b l)
      some (s, 1))

module _ {ℓ} {V : Type ℓ} (hash : ℕ → ℕ) where
  unfoldable pub find : ℕ → ℕ → HashMap V → Option ℕ
  find rounds key s = do idx ← hash_result (hash key) s; find_in rounds key idx s

  -- `insert` and `emplace`
  unfoldable pub insert : ℕ → ℕ → ℕ → V → HashMap V → Option (HashMap V × ℕ × Bool)
  insert rounds fresh key v s = do
    idx ← hash_result (hash key) s
    found ← find_in rounds key idx s
    if found == null
        then (do
          (s, node) ← get_one fresh s
          s ← insert_node node idx (record s { entry = write s.entry node (some (key, v)) })
          some (s, node, true))
        else some (s, found, false)

  unfoldable pub erase : ℕ → ℕ → ℕ → HashMap V → Option (HashMap V × ℕ)
  erase rounds now key s = do idx ← hash_result (hash key) s; erase_in rounds now key idx s
