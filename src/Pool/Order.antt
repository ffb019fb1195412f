-- ===== src/Pool/Order.antt =====
-- The tasks of ThreadPool, from submit to the end of each.
use mathlib.Core.List.{append_assoc}
use funcodes.Prelude.{
  ℕ, zero, suc, ◌+◌, ◌≡◌, refl, sym, ap, ◌∙◌, List, [], ◌∷◌, ◌++◌, some, set, length, length-append,
  arith,
}
use funcodes.Locks.Total.{total, total-set}
use funcodes.Locks.System.{Moves, move, Reaches, Reaches-keeps}
use funcodes.Pool.{
  push, try_pop, Shared, Pc, testing, running, client, Step, submit, submit_within, destroy, go_on,
  leave, pop, pop_none, finish, yield_on, initial,
}

module _ {ℓ} {A : Type ℓ} where
  -- 1 for a thread that is in a task.
  abbrev pub runs : Pc A → ℕ
  runs (running task) = 1
  runs p = 0

  pub record Ordered (a : Shared A × List (Pc A)) : Type ℓ where
    pub in_turn : a.0.taken ++ a.0.work_queue ≡ a.0.submitted
    pub counted : total runs a.1 + length a.0.finished ≡ length a.0.taken

  -- The threads of a new pool: workers at their test of done_, and clients.
  unfoldable pub starting : ℕ → ℕ → List (Pc A)
  starting zero zero = []
  starting zero (suc clients) = client ∷ starting zero clients
  starting (suc workers) clients = testing ∷ starting workers clients

  pop-in_turn :
      (taken queue : List A) {task : A} {rest : List A}
      → try_pop queue ≡ some (task, rest)
      → taken ++ (task ∷ rest) ≡ taken ++ queue
  pop-in_turn taken [] e = absurd (cc e)
  pop-in_turn taken (front ∷ queue) {task} {rest} e =
      let pair : ◌≡◌ {A = A × List A} (front, queue) (task, rest) = cc e in
      ap (λ x. taken ++ (x.0 ∷ x.1)) (sym pair)

  submitted-in_turn :
      (s : Shared A) (f : A)
      → s.taken ++ s.work_queue ≡ s.submitted
      → s.taken ++ push s.work_queue f ≡ s.submitted ++ f ∷ []
  submitted-in_turn s f o =
      sym (append_assoc s.taken s.work_queue (f ∷ [])) ∙ ap (λ x. x ++ f ∷ []) o

  Ordered-Step :
      (n m : ℕ) {s t : Shared A} {p q : Pc A}
      → Step s p t q
      → n + runs p ≡ m + runs q
      → s.taken ++ s.work_queue ≡ s.submitted
      → m + length s.finished ≡ length s.taken
      → (t.taken ++ t.work_queue ≡ t.submitted) × (n + length t.finished ≡ length t.taken)
  Ordered-Step n m (submit {s} f) e o c = (submitted-in_turn s f o, omega arith)
  Ordered-Step n m (submit_within {s} f) e o c = (submitted-in_turn s f o, omega arith)
  Ordered-Step n m destroy e o c = (o, omega arith)
  Ordered-Step n m (go_on h) e o c = (o, omega arith)
  Ordered-Step n m (leave h) e o c = (o, omega arith)
  Ordered-Step n m (pop {s} {task} {rest} h) e o c = (
    append_assoc s.taken (task ∷ []) rest ∙ pop-in_turn s.taken s.work_queue h ∙ o,
    omega (arith, length-append s.taken (task ∷ [])),
  )
  Ordered-Step n m (pop_none h) e o c = (o, omega arith)
  Ordered-Step n m (finish {s} {task}) e o c =
      (o, omega (arith, length-append s.finished (task ∷ [])))
  Ordered-Step n m yield_on e o c = (o, omega arith)

  Ordered-Moves : (a b : Shared A × List (Pc A)) → Moves Step a b → Ordered a → Ordered b
  Ordered-Moves (s, threads) _ (move {q = q} i e step) o =
      let (turn, count) =
        Ordered-Step (total runs (set threads i q)) (total runs threads) step
          (total-set runs threads i q e) o.in_turn o.counted in
      record { in_turn = turn; counted = count }

starting-runs {ℓ} :
    (A : Type ℓ) (workers clients : ℕ) → total runs (starting {A = A} workers clients) ≡ 0
unfolding starting total
starting-runs A zero zero = refl
starting-runs A zero (suc clients) = omega (arith, starting-runs A zero clients)
starting-runs A (suc workers) clients = omega (arith, starting-runs A workers clients)

-- For any numbers of workers and of clients and any order of their steps: the tasks taken, and after
-- them the tasks in the queue, are the tasks submitted, in the order in which they were submitted and
-- each once; and as many tasks are taken as are finished or running.
pub Reaches-Ordered {ℓ} :
    {A : Type ℓ} (workers clients : ℕ) {a : Shared A × List (Pc A)}
    → Reaches Step (initial, starting workers clients) a
    → Ordered a
unfolding initial
Reaches-Ordered {A = A} workers clients run =
    Reaches-keeps Step Ordered-Moves run
      (record { in_turn = refl; counted = omega (arith, starting-runs A workers clients) })
