-- ===== src/Workers.antt =====
-- c++/utils/cache/thread_pool.h: a thread pool with a queue for each of its threads. What stands
-- between the lock of a queue's mutex and its release is one step of a thread, and so is each access
-- to `done_`. A task is of any type; the task that does nothing is `none`.
pub mod Order
pub mod Closing
mod Tests
use funcodes.Prelude.{
  ℕ, zero, suc, ◌+◌, ◌≤◌, ◌<◌, ◌≡◌, Bool, true, false, not, ◌||◌, ◌&&◌, List, [], ◌∷◌, ◌++◌, Option,
  none, some, ltb, if◌then◌else◌,
}
use funcodes.Links.{write}

-- ThreadSafeQueue
pub record Queue {ℓ} (A : Type ℓ) : Type ℓ where
  pub data_queue : List A
  pub running : Bool

module _ {ℓ} {A : Type ℓ} where
  abbrev pub push : A → Queue A → Queue A
  push new_value q = record q { data_queue = q.data_queue ++ new_value ∷ [] }

  abbrev pub empty : Queue A → Bool
  empty q = elim q.data_queue [ [] ↦ true | front ∷ rest ↦ false ]

  -- The entry that leaves the queue, where there is one
  abbrev pub try_pop : Queue A → Option (A × Queue A)
  try_pop q = elim q.data_queue [
    | [] ↦ none
    | front ∷ rest ↦ some (front, record q { data_queue = rest })
  ]

  -- WaitAndPop after its wait, which goes on while this is `none`: with the task that `value` is
  -- then, which stays `none` where the queue is closed.
  unfoldable pub wait_and_pop : Queue A → Option (Option A × Queue A)
  wait_and_pop q =
      if not q.running || not (empty q)
      then (if q.running
          then elim q.data_queue [
            | [] ↦ none
            | front ∷ rest ↦ some (some front, record q { data_queue = rest })
          ]
          else some (none, q))
      else none

  abbrev pub close : Queue A → Queue A
  close q = record q { running = false }

-- ThreadPool, with the history of each queue: the tasks submitted to it, taken from it and finished.
pub record Shared {ℓ} (A : Type ℓ) : Type ℓ where
  pub done : Bool
  pub thread_count : ℕ
  pub work_queues : ℕ → Queue A
  pub submitted : ℕ → List A
  pub taken : ℕ → List A
  pub finished : ℕ → List A

module _ {ℓ} {A : Type ℓ} where
  -- Submit, for the queue that the random number says: undefined outside the vector of the queues
  unfoldable pub submit : ℕ → A → Shared A → Option (Shared A)
  submit i f s =
      if ltb i s.thread_count
      then some (record s {
        work_queues = write s.work_queues i (push f (s.work_queues i));
        submitted = write s.submitted i (s.submitted i ++ f ∷ []);
      })
      else none

  -- ThreadPool::Empty, for the first `count` queues
  unfoldable pub all_empty : ℕ → Shared A → Bool
  all_empty zero s = true
  all_empty (suc count) s = all_empty count s && empty (s.work_queues count)

  -- The pool as its constructor makes it
  unfoldable pub initial : ℕ → Shared A
  initial thread_count = record {
    done = false;
    thread_count = thread_count;
    work_queues = λ _. record { data_queue = []; running = true };
    submitted = λ _. [];
    taken = λ _. [];
    finished = λ _. [];
  }

-- Where a thread is: in Run with an index, at its test of done_, in WaitAndPop or in a task, or after
-- the loop; or a thread that uses the pool, one whose Submit left the vector of the queues, or one in
-- the destructor, before it closes a queue or after it has closed them all.
pub data Pc {ℓ} (A : Type ℓ) : Type ℓ where
  testing : ℕ → Pc A
  waiting : ℕ → Pc A
  running : ℕ → Option A → Pc A
  ended : Pc A
  client : Pc A
  stray : Pc A
  closing : ℕ → Pc A
  joining : Pc A

-- The random number is any from 0 to thread_count, which the distribution includes.
pub data Step {ℓ} {A : Type ℓ} : Shared A → Pc A → Shared A → Pc A → Type ℓ where
  submit_in :
      {s t : Shared A} (i : ℕ) (f : A)
      → i ≤ s.thread_count
      → submit i f s ≡ some t
      → Step s client t client
  submit_out :
      {s : Shared A} (i : ℕ) (f : A)
      → i ≤ s.thread_count
      → submit i f s ≡ none
      → Step s client s stray
  -- A task may submit others.
  submit_within :
      {s t : Shared A} {k : ℕ} {task : Option A} (i : ℕ) (f : A)
      → i ≤ s.thread_count
      → submit i f s ≡ some t
      → Step s (running k task) t (running k task)
  go_on : {s : Shared A} {k : ℕ} → s.done ≡ false → Step s (testing k) s (waiting k)
  leave : {s : Shared A} {k : ℕ} → s.done ≡ true → Step s (testing k) s ended
  pop :
      {s : Shared A} {k : ℕ} {task : A} {q : Queue A}
      → wait_and_pop (s.work_queues k) ≡ some (some task, q)
      → Step s
          (waiting k)
          (record s {
            work_queues = write s.work_queues k q;
            taken = write s.taken k (s.taken k ++ task ∷ []);
          })
          (running k (some task))
  pop_closed :
      {s : Shared A} {k : ℕ} {q : Queue A}
      → wait_and_pop (s.work_queues k) ≡ some (none, q)
      → Step s (waiting k) (record s { work_queues = write s.work_queues k q }) (running k none)
  finish :
      {s : Shared A} {k : ℕ} {task : A}
      → Step s
          (running k (some task))
          (record s { finished = write s.finished k (s.finished k ++ task ∷ []) })
          (testing k)
  finish_none : {s : Shared A} {k : ℕ} → Step s (running k none) s (testing k)
  -- ~ThreadPool
  destroy : {s : Shared A} → Step s client (record s { done = true }) (closing 0)
  close_next :
      {s : Shared A} {k : ℕ}
      → k < s.thread_count
      → Step s
          (closing k)
          (record s { work_queues = write s.work_queues k (close (s.work_queues k)) })
          (closing (k + 1))
  join : {s : Shared A} → Step s (closing s.thread_count) s joining
