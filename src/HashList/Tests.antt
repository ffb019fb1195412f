-- ===== src/HashList/Tests.antt =====
-- The lists of c++/utils/cache/concurrent_hashlist.h at concrete nodes, and the theorems at them.
use funcodes.Prelude.{refl, true, false, [], ◌∷◌, ℕ, arith, Yields}
use funcodes.Links.{write}
use funcodes.HashList.{Nodes, NodeManager, get_one, reclaim, reuse}
use funcodes.HashList.Order.{Linked}
use funcodes.HashList.Manager.{Managed, Hands, Reclaims, get_one-Hands, reclaim-Reclaims}
use funcodes.HashList.Rest.{Reuses, reuse-Reuses}

-- The sentinels of the one list are 1 and 2, those of the other 3 and 4. The nodes 5 and 6 rest, 7
-- and 8 wait until the times 10 and 20, and 9 is in use.
abbrev manager : NodeManager
manager = record {
  resource = record { begin = 1; end = 2 };
  reclaimer = record { begin = 3; end = 4 };
  window_in_seconds = 60;
  running = true;
}

abbrev nodes : Nodes
nodes = record {
  links = record {
    live = λ a. write (λ (_ : ℕ). true) 0 false a;
    next = λ a. write (write (write (write (write (write (λ _. 0) 1 5) 5 6) 6 2) 3 7) 7 8) 8 4 a;
    pred = λ a. write (write (write (write (write (write (λ _. 0) 5 1) 6 5) 2 6) 7 3) 8 7) 4 8 a;
  };
  available = λ a. write (λ (_ : ℕ). true) 9 false a;
  timeout = λ a. write (write (λ _. 0) 7 10) 8 20 a;
}

nodes-Linked : Linked nodes.links manager.resource (5 ∷ 6 ∷ [])
nodes-Linked = record {
  chain = (refl, refl, refl, (refl, refl, refl, (refl, refl, refl, (refl, refl))));
  distinct = (refl, (refl, (refl, (refl, tt))));
}

nodes-Managed : Managed nodes.links manager (5 ∷ 6 ∷ []) (7 ∷ 8 ∷ [])
nodes-Managed = record {
  resting = nodes-Linked;
  reclaimed = record {
    chain = (refl, refl, refl, (refl, refl, refl, (refl, refl, refl, (refl, refl))));
    distinct = (refl, (refl, (refl, (refl, tt))));
  };
  apart = λ k h. ground arith;
  dead = refl;
}

get_one-Hands_example :
    Yields (Hands nodes manager (5 ∷ 6 ∷ []) (7 ∷ 8 ∷ [])) (get_one 10 manager nodes)
get_one-Hands_example = get_one-Hands nodes manager 10 (5 ∷ 6 ∷ []) (7 ∷ 8 ∷ []) nodes-Managed

reclaim-Reclaims_example :
    Yields (Reclaims nodes manager 11 9 (5 ∷ 6 ∷ []) (7 ∷ 8 ∷ [])) (reclaim 11 9 manager nodes)
reclaim-Reclaims_example =
    reclaim-Reclaims nodes manager 11 9 (5 ∷ 6 ∷ []) (7 ∷ 8 ∷ []) nodes-Managed refl refl refl

reuse-Reuses_example :
    Yields (Reuses 15 manager nodes (5 ∷ 6 ∷ []) (7 ∷ 8 ∷ [])) (reuse 9 15 manager nodes)
reuse-Reuses_example =
    reuse-Reuses 9 15 manager nodes (5 ∷ 6 ∷ []) (7 ∷ 8 ∷ []) nodes-Managed (omega arith)
