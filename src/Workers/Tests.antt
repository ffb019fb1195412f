-- ===== src/Workers/Tests.antt =====
-- A pool of c++/utils/cache/thread_pool.h with one thread and one client.
use funcodes.Prelude.{ℕ, refl, true, false, [], ◌∷◌, some, load, arith}
use funcodes.Links.{write}
use funcodes.Locks.System.{move, Reaches, here, then}
use funcodes.Workers.{
  Queue, Shared, running, client, stray, Step, submit, wait_and_pop, submit_in, submit_out, go_on,
  pop, initial,
}
use funcodes.Workers.Order.{InOrder, starting, Reaches-InOrder}

-- Two tasks are submitted, and the first one is running.
abbrev queues : ℕ → Queue ℕ
queues =
    write
      (write
        (write (λ _. record { data_queue = []; running = true }) 0
          (record { data_queue = 7 ∷ []; running = true }))
        0 (record { data_queue = 7 ∷ 8 ∷ []; running = true }))
      0 (record { data_queue = 8 ∷ []; running = true })

abbrev busy : Shared ℕ
busy = record {
  done = false;
  thread_count = 1;
  work_queues = queues;
  submitted = write (write (λ _. []) 0 (7 ∷ [])) 0 (7 ∷ 8 ∷ []);
  taken = write (λ _. []) 0 (7 ∷ []);
  finished = λ _. [];
}

busy_run : Reaches Step (initial 1, starting 0 1 1) (busy, running 0 (some 7) ∷ client ∷ [])
unfolding initial starting load submit wait_and_pop
busy_run =
    then
      (then
        (then (then here (move 1 refl (submit_in 0 7 (omega arith) refl)))
          (move 1 refl (submit_in 0 8 (omega arith) refl)))
        (move 0 refl (go_on refl)))
      (move 0 refl (pop refl))

Reaches-InOrder_example : InOrder (busy, running 0 (some 7) ∷ client ∷ [])
Reaches-InOrder_example = Reaches-InOrder 1 1 busy_run

-- The destructor has closed the queue, in which 8 is left. The thread ends its task and leaves.
abbrev closed : Shared ℕ
closed = record busy {
  done = true;
  work_queues = write queues 0 (record { data_queue = 8 ∷ []; running = false });
}

abbrev left : Shared ℕ
left = record closed { finished = write (λ _. []) 0 (7 ∷ []) }

-- The distribution includes the number of the queues, for which there is no queue.
stray_step : Step busy client busy stray
unfolding submit
stray_step = submit_out 1 9 (omega arith) refl
