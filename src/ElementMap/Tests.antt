-- ===== src/ElementMap/Tests.antt =====
-- A map of c++/utils/cache/concurrent_hashmap_element_lock.h with one bucket, and the theorem at it.
use funcodes.Prelude.{ℕ, true, false, none, some}
use funcodes.Links.{write}
use funcodes.HashList.{Nodes, NodeManager}
use funcodes.ElementMap.{ElementMap}

-- The sentinels of the manager's lists are 1 and 2, and 3 and 4, those of the bucket 7 and 8. The
-- nodes 5 and 6 rest, and node 9 has the key 4.
abbrev manager : NodeManager
manager = record {
  resource = record { begin = 1; end = 2 };
  reclaimer = record { begin = 3; end = 4 };
  window_in_seconds = 60;
  running = true;
}

abbrev nodes : Nodes
nodes = record {
  links = record {
    live = λ a. write (λ (_ : ℕ). true) 0 false a;
    next = λ a. write (write (write (write (write (write (λ _. 0) 1 5) 5 6) 6 2) 3 4) 7 9) 9 8 a;
    pred = λ a. write (write (write (write (write (write (λ _. 0) 5 1) 6 5) 2 6) 4 3) 9 7) 8 9 a;
  };
  available = λ _. true;
  timeout = λ _. 0;
}

abbrev one_bucket : ElementMap ℕ
one_bucket = record {
  nodes = nodes;
  entry = λ a. write (λ _. none) 9 (some (4, 40)) a;
  buckets = λ _. record { begin = 7; end = 8 };
  bucket_count = 1;
  manager = manager;
}

abbrev hash : ℕ → ℕ
hash key = key
