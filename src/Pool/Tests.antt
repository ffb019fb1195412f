-- ===== src/Pool/Tests.antt =====
-- A pool with one worker and one client.
use funcodes.Prelude.{ℕ, refl, false, [], ◌∷◌, load}
use funcodes.Locks.System.{move, Reaches, here, then}
use funcodes.Pool.{Shared, running, client, Step, submit, go_on, pop, initial}
use funcodes.Pool.Order.{Ordered, starting, Reaches-Ordered}

-- Two tasks are submitted, and the first one is running.
abbrev busy : Shared ℕ
busy = record {
  done = false;
  work_queue = 8 ∷ [];
  submitted = 7 ∷ 8 ∷ [];
  taken = 7 ∷ [];
  finished = [];
}

busy_run : Reaches Step (initial, starting 1 1) (busy, running 7 ∷ client ∷ [])
unfolding initial starting load
busy_run =
    then
      (then (then (then here (move 1 refl (submit 7))) (move 1 refl (submit 8)))
        (move 0 refl (go_on refl)))
      (move 0 refl (pop refl))

Reaches-Ordered_example : Ordered (busy, running 7 ∷ client ∷ [])
Reaches-Ordered_example = Reaches-Ordered 1 1 busy_run
