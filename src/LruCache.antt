-- ===== src/LruCache.antt =====
-- c++/utils/cache/lru_cache.h: a map from keys to list nodes, and the list of the nodes from the one
-- used longest ago to the one used last. One thread runs at a time. The clock is an argument, once
-- for each call of std::time, and so is the address at which the map puts a new node.
pub mod Holds
pub mod Tail
pub mod Erasing
pub mod Head
pub mod Access
pub mod Insert
mod Tests
use funcodes.Prelude.{
  ℕ, zero, suc, ◌+◌, ◌%◌, ◌^◌, Bool, true, false, Option, none, some, ltb, leb, ◌==◌, ◌>>=◌,
  if◌then◌else◌,
}
use funcodes.Links.{Links, null, write, get_pred, get_next, set_pred, set_next, create, free}

-- `head_` and `tail_` are fields of the cache; they stand at addresses of their own.
abbrev pub head : ℕ
head = 1

abbrev pub tail : ℕ
tail = 2

abbrev pub never_timeout : ℕ
never_timeout = 2 ^ 63

-- The fields of the nodes, by address, and those of the cache. A lock of a node has no field: one
-- thread runs at a time.
pub record LruCache {ℓ} (V : Type ℓ) : Type ℓ where
  pub links : Links
  pub key : ℕ → ℕ
  pub value : ℕ → Option V
  pub expire_time : ℕ → ℕ
  pub underly : ℕ → Option ℕ
  pub max_size : ℕ
  pub current_size : ℕ
  pub timeout : ℕ

-- `std::time(nullptr) + timeout_`, in 64 bits
abbrev pub deadline : ℕ → ℕ → ℕ
deadline now timeout = (now + timeout) % 2 ^ 64

-- The first block of PutTail
unfoldable pub unlink : Links → ℕ → Option Links
unlink l node = do
  pred ← get_pred l node
  next ← get_next l node
  l ← set_next l pred next
  next ← get_next l node
  pred ← get_pred l node
  set_pred l next pred

-- The second block
unfoldable pub link_tail : Links → ℕ → Option Links
link_tail l node = do
  last ← get_pred l tail
  l ← set_pred l node last
  l ← set_pred l tail node
  l ← set_next l node tail
  pred ← get_pred l node
  set_next l pred node

unfoldable pub relink_tail : Links → ℕ → Option Links
relink_tail l node = do
  pred ← get_pred l node
  l ← (if pred == null then some l else unlink l node)
  last ← get_pred l tail
  if node == last then some l else link_tail l node

module _ {ℓ} {V : Type ℓ} where
  -- The constructor
  unfoldable pub init : ℕ → ℕ → LruCache V
  init capacity timeout_in_second = record {
    links = record {
      live = λ a. if a == head then true else (if a == tail then true else false);
      pred = write (λ _. null) tail head;
      next = write (λ _. null) head tail;
    };
    key = λ _. 0;
    value = λ _. none;
    expire_time = λ _. never_timeout;
    underly = λ _. none;
    max_size = capacity;
    current_size = 0;
    timeout = timeout_in_second;
  }

  unfoldable pub put_tail : ℕ → ℕ → LruCache V → Option (LruCache V)
  put_tail now node c = do
    l ← relink_tail c.links node
    some (record c { links = l; expire_time = write c.expire_time node (deadline now c.timeout) })

  -- `now` is the time of the test, `later` that of PutTail.
  unfoldable pub get : ℕ → ℕ → ℕ → LruCache V → Option (LruCache V × Option V)
  get now later k c = elim (c.underly k) [
    | none ↦ some (c, none)
    | some node ↦
        if ltb (c.expire_time node) now
        then (do c ← put_tail later node c; some (c, c.value node))
        else some (c, none)
  ]

  unfoldable pub expiry : LruCache V → ℕ → Option ℕ
  expiry c node = if c.links.live node then some (c.expire_time node) else none

  -- The first loop of PopHead: past the nodes whose time has run out
  unfoldable pub skip : ℕ → ℕ → LruCache V → ℕ → Option ℕ
  skip zero now c next = none
  skip (suc rounds) now c next =
      let rest = (do q ← get_next c.links next; skip rounds now c q) in
      (do t ← expiry c next; if ltb t now then rest else some next)

  -- The second loop: the nodes before `next` leave the map.
  unfoldable pub erase_until : ℕ → ℕ → ℕ → LruCache V → Option (LruCache V)
  erase_until zero next begin c = none
  erase_until (suc rounds) next begin c =
      let rest = (do
        bn ← get_next c.links begin
        erase_until rounds next bn (record c {
          links = free c.links begin;
          underly = write c.underly (c.key begin) none;
        })) in
      if begin == next then some c else rest

  unfoldable pub pop_head : ℕ → ℕ → LruCache V → Option (LruCache V)
  pop_head rounds now c = do
    first ← get_next c.links head
    if first == tail then some c else (do
      second ← get_next c.links first
      next ← skip rounds now c second
      begin ← get_next c.links head
      l ← set_next c.links head next
      l ← set_pred l next head
      erase_until rounds next begin (record c { links = l }))

  -- The node that `emplace` makes, with what Put writes into it
  unfoldable pub emplace : ℕ → ℕ → ℕ → Option V → LruCache V → LruCache V
  emplace now fresh k v c = record c {
    links = create c.links fresh;
    key = write c.key fresh k;
    value = write c.value fresh v;
    expire_time = write c.expire_time fresh (deadline now c.timeout);
    underly = write c.underly k (some fresh);
  }

  -- The test at the end of Put, with its two increments
  unfoldable pub count : ℕ → ℕ → LruCache V → Option (LruCache V)
  count rounds now c =
      let size = (c.current_size + 1) % 2 ^ 64 in
      if leb c.max_size size
      then pop_head rounds now (record c { current_size = size })
      else some (record c { current_size = (size + 1) % 2 ^ 64 })

  -- Both overloads of Put. `now`, `later` and `last` are the times of Put, PutTail and PopHead.
  unfoldable pub put : ℕ → ℕ → ℕ → ℕ → ℕ → ℕ → Option V → LruCache V → Option (LruCache V × Bool)
  put rounds now later last fresh k v c = elim (c.underly k) [
    | some node ↦ some (c, false)
    | none ↦ do
      c ← put_tail later fresh (emplace now fresh k v c)
      c ← count rounds last c
      some (c, true)
  ]
