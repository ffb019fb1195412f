-- ===== src/Workers/Closing.antt =====
-- A queue of c++/utils/cache/thread_pool.h after Close.
use funcodes.Prelude.{ℕ, ◌≡◌, false, List, ◌++◌}
use funcodes.Workers.{Queue}

module _ {ℓ} {A : Type ℓ} (k : ℕ) (l d : List A) where
  -- The queue is closed and has the entries `d` before others, and `l` is what was taken from it.
  pub record Shut (q : Queue A) (taken : List A) : Type ℓ where
    pub closed : q.running ≡ false
    pub untouched : taken ≡ l
    pub left : (more : List A) × (q.data_queue ≡ d ++ more)
