-- ===== src/Pool.antt =====
-- c++/utils/thread_pool/thread_safe_queue.h and c++/utils/thread_pool/thread_pool.h: a queue under a
-- mutex, and the threads that take tasks from it. What stands between a lock of the mutex and its
-- release is one step, and so is each access to `done_`. A task is of any type.
pub mod Order
mod Tests
use funcodes.Prelude.{◌≡◌, Bool, true, false, List, [], ◌∷◌, ◌++◌, Option, none, some}

-- ThreadSafeQueue: push, try_pop and empty. wait_and_pop is try_pop, for which the thread waits until
-- there is an entry.
module _ {ℓ} {A : Type ℓ} where
  abbrev pub push : List A → A → List A
  push data_queue item = data_queue ++ item ∷ []

  abbrev pub try_pop : List A → Option (A × List A)
  try_pop [] = none
  try_pop (front ∷ data_queue) = some (front, data_queue)

  abbrev pub empty : List A → Bool
  empty [] = true
  empty (front ∷ data_queue) = false

-- What the threads share, with the history of the pool: the tasks submitted, taken from the queue and
-- finished, each in turn.
pub record Shared {ℓ} (A : Type ℓ) : Type ℓ where
  pub done : Bool
  pub work_queue : List A
  pub submitted : List A
  pub taken : List A
  pub finished : List A

-- Where a thread is: in `work`, at its test of done_, before the pop, in a task, before the yield or
-- after the loop; or a thread that uses the pool, or is in its destructor.
pub data Pc {ℓ} (A : Type ℓ) : Type ℓ where
  testing : Pc A
  popping : Pc A
  running : A → Pc A
  yielding : Pc A
  ended : Pc A
  client : Pc A
  joining : Pc A

pub data Step {ℓ} {A : Type ℓ} : Shared A → Pc A → Shared A → Pc A → Type ℓ where
  submit :
      {s : Shared A} (f : A)
      → Step s client
          (record s { work_queue = push s.work_queue f; submitted = s.submitted ++ f ∷ [] })
          client
  -- A task may submit others.
  submit_within :
      {s : Shared A} {task : A} (f : A)
      → Step s
          (running task)
          (record s { work_queue = push s.work_queue f; submitted = s.submitted ++ f ∷ [] })
          (running task)
  -- ~ThreadPool
  destroy : {s : Shared A} → Step s client (record s { done = true }) joining
  go_on : {s : Shared A} → s.done ≡ false → Step s testing s popping
  leave : {s : Shared A} → s.done ≡ true → Step s testing s ended
  pop :
      {s : Shared A} {task : A} {rest : List A}
      → try_pop s.work_queue ≡ some (task, rest)
      → Step s popping (record s { work_queue = rest; taken = s.taken ++ task ∷ [] }) (running task)
  pop_none : {s : Shared A} → try_pop s.work_queue ≡ none → Step s popping s yielding
  finish :
      {s : Shared A} {task : A}
      → Step s (running task) (record s { finished = s.finished ++ task ∷ [] }) testing
  yield_on : {s : Shared A} → Step s yielding s testing

-- The pool as its constructor makes it.
unfoldable pub initial {ℓ} : {A : Type ℓ} → Shared A
initial = record { done = false; work_queue = []; submitted = []; taken = []; finished = [] }
