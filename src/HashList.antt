-- ===== src/HashList.antt =====
-- c++/utils/cache/concurrent_hashlist.h: lists of nodes between two sentinels, and the manager that
-- hands out nodes, takes them back and lets them rest. One thread runs at a time, so a lock that the
-- code takes is free; the clock and the addresses of new nodes are arguments.
pub mod Order
pub mod Manager
pub mod Rest
mod Tests
use funcodes.Prelude.{
  ℕ, zero, suc, ◌+◌, ◌%◌, ◌^◌, Bool, true, false, List, [], ◌∷◌, Option, none, some, ltb, ◌==◌,
  ◌>>=◌, if◌then◌else◌,
}
use funcodes.Links.{Links, null, write, get_pred, get_next, set_pred, set_next, create}

-- The addresses of `begin_` and `end_`
pub record HashList : Type 0 where
  pub begin : ℕ
  pub end : ℕ

-- The fields of the nodes; `mode` is MODE_AVAILABLE where `available` is true.
pub record Nodes : Type 0 where
  pub links : Links
  pub available : ℕ → Bool
  pub timeout : ℕ → ℕ

unfoldable pub push_back : HashList → ℕ → Nodes → Option Nodes
push_back s node m = do
  ep ← get_pred m.links s.end
  l ← set_next m.links ep node
  l ← set_pred l node ep
  l ← set_next l node s.end
  l ← set_pred l s.end node
  some (record m { links = l; available = write m.available node true })

-- With the node that it returns: the first, or the sentinel of an empty list
unfoldable pub pop_head : HashList → Nodes → Option (Nodes × ℕ)
pop_head s m = do
  ret ← get_next m.links s.begin
  if ret == s.end then some (m, ret) else (do
    rn ← get_next m.links ret
    l ← set_next m.links s.begin rn
    l ← set_pred l rn s.begin
    some (record m { links = l; available = write m.available ret false }, ret))

unfoldable pub detach_node : ℕ → Nodes → Option (Nodes × Bool)
detach_node node m = do
  n ← get_next m.links node
  if m.available node
      then (do
        p ← get_pred m.links node
        l ← set_next m.links p n
        l ← set_pred l n p
        some (record m { links = l; available = write m.available node false }, true))
      else some (m, false)

-- NodeManager; its reclaim thread calls `reuse`.
pub record NodeManager : Type 0 where
  pub resource : HashList
  pub reclaimer : HashList
  pub window_in_seconds : ℕ
  pub running : Bool

-- The loop of the constructor, with the addresses of the nodes that it makes
unfoldable pub fill : HashList → List ℕ → Nodes → Option Nodes
fill s [] m = some m
fill s (node ∷ nodes) m = do
  m ←
      push_back s node
        (record m { links = create m.links node; available = write m.available node true })
  fill s nodes m

unfoldable pub get_one : ℕ → NodeManager → Nodes → Option (Nodes × ℕ)
get_one fresh g m = do
  (m, ret) ← pop_head g.resource m
  if ret == null
      then (do
        m ←
            push_back g.resource fresh
              (record m { links = create m.links fresh; available = write m.available fresh true })
        some (m, fresh))
      else (do l ← set_next m.links ret null; some (record m { links = l }, ret))

unfoldable pub reclaim : ℕ → ℕ → NodeManager → Nodes → Option (Nodes × Bool)
reclaim now node g m =
    let m = record m {
      available = write m.available node false;
      timeout = write m.timeout node ((now + g.window_in_seconds) % 2 ^ 64);
    } in
    if g.running then (do m ← push_back g.reclaimer node m; some (m, true)) else some (m, false)

-- The first loop of Reuse, with `last` where it stops
unfoldable pub walk : ℕ → ℕ → HashList → ℕ → Nodes → Option (Nodes × ℕ)
walk zero expired_time s last m = none
walk (suc rounds) expired_time s last m = do
  cur ← get_next m.links last
  let rest = walk rounds expired_time s cur (record m { available = write m.available cur true })
  if cur == s.end
      then some (m, last)
      else if ltb expired_time (m.timeout cur)
      then some (m, last)
      else rest

unfoldable pub reuse : ℕ → ℕ → NodeManager → Nodes → Option (Nodes × Bool)
reuse rounds now g m = do
  (m, last) ← walk rounds now g.reclaimer g.reclaimer.begin m
  if last == g.reclaimer.begin then some (m, false) else (do
    cur ← get_next m.links g.reclaimer.begin
    tmp ← get_next m.links last
    l ← set_next m.links g.reclaimer.begin tmp
    l ← set_pred l tmp g.reclaimer.begin
    tmp ← get_pred l g.resource.end
    l ← set_next l tmp cur
    l ← set_pred l cur tmp
    l ← set_next l last g.resource.end
    l ← set_pred l g.resource.end last
    some (record m { links = l }, true))
