-- ===== src/Workers/Order.antt =====
-- The tasks of each queue of c++/utils/cache/thread_pool.h, from Submit to the end of each.
use mathlib.Core.List.{append_assoc}
use funcodes.Prelude.{
  ℕ, zero, suc, ◌+◌, ◌≡◌, refl, sym, ap, ◌∙◌, inl, inr, Bool, true, false, Bool-cases, List, [],
  ◌∷◌, ◌++◌, Option, none, some, set, length, length-append, ltb, ◌==◌, if◌then◌else◌, arith,
}
use funcodes.Links.{write}
use funcodes.Locks.Total.{total, total-set}
use funcodes.Locks.System.{Moves, move, Reaches, Reaches-keeps}
use funcodes.Workers.{
  Queue, push, wait_and_pop, Shared, submit, initial, Pc, testing, running, client, Step, submit_in,
  submit_out, submit_within, go_on, leave, pop, pop_closed, finish, finish_none, destroy,
  close_next, join,
}

-- What a write leaves to show: what holds at its place, and elsewhere what held before. The same for
-- two writes at one place.
write-all {ℓ μ} :
    {A : Type ℓ} (R : ℕ → A → Type μ) (f : ℕ → A) (i : ℕ) (a : A)
    → R i a
    → ((k : ℕ) → R k (f k))
    → (k : ℕ) → R k (write f i a k)
write-all R f i a new old k = elim (Bool-cases (i == k)) [
  | inl e ↦ let same : i ≡ k = ground arith in rw e (rw same at new)
  | inr e ↦ rw e (old k)
]

write-write {ℓ κ μ} :
    {A : Type ℓ} {B : Type κ} (R : ℕ → A → B → Type μ) (f : ℕ → A) (g : ℕ → B) (i : ℕ) (a : A)
    (b : B)
    → R i a b
    → ((k : ℕ) → R k (f k) (g k))
    → (k : ℕ) → R k (write f i a k) (write g i b k)
write-write R f g i a b new old k = elim (Bool-cases (i == k)) [
  | inl e ↦ let same : i ≡ k = ground arith in rw e (rw same at new)
  | inr e ↦ rw e (old k)
]

module _ {ℓ} {A : Type ℓ} where
  pub submit-inv :
      (i : ℕ) (f : A) (s : Shared A) {t : Shared A}
      → submit i f s ≡ some t
      → t ≡ record s {
        work_queues = write s.work_queues i (push f (s.work_queues i));
        submitted = write s.submitted i (s.submitted i ++ f ∷ []);
      }
  unfolding submit
  submit-inv i f s e = elim (Bool-cases (ltb i s.thread_count)) [
    | inl h ↦ sym (cc (rw h at e))
    | inr h ↦ absurd (cc (rw h at e))
  ]

  pub wait_and_pop-some :
      (d : List A) (b : Bool) {task : A} {q : Queue A}
      → wait_and_pop (record { data_queue = d; running = b }) ≡ some (some task, q)
      → (b ≡ true) × (d ≡ task ∷ q.data_queue)
  unfolding wait_and_pop
  wait_and_pop-some [] true e = absurd (cc e)
  wait_and_pop-some [] false e = absurd (cc e)
  wait_and_pop-some (front ∷ rest) true {task} {q} e =
      let pair : ◌≡◌ {A = Option A × Queue A}
          (some front, record { data_queue = rest; running = true }) (some task, q) =
        cc e in
      let first : front ≡ task = cc (ap (λ z. z.0) pair) in
      (refl, rw first (ap (λ z. task ∷ z.1.data_queue) pair))
  wait_and_pop-some (front ∷ rest) false e = absurd (cc e)

  pub wait_and_pop-none :
      (d : List A) (b : Bool) {q : Queue A}
      → wait_and_pop (record { data_queue = d; running = b }) ≡ some (none, q)
      → q ≡ record { data_queue = d; running = b }
  unfolding wait_and_pop
  wait_and_pop-none [] true e = absurd (cc e)
  wait_and_pop-none [] false e = sym (cc e)
  wait_and_pop-none (front ∷ rest) true e = absurd (cc e)
  wait_and_pop-none (front ∷ rest) false e = sym (cc e)

  length-write :
      (f : ℕ → List A) (i : ℕ) (x : A) (k : ℕ)
      → length (write f i (f i ++ x ∷ []) k) ≡ length (f k) + (if i == k then 1 else 0)
  length-write f i x k = elim (Bool-cases (i == k)) [
    | inl e ↦
        let same : i ≡ k = ground arith in rw e (rw (length-append (f i) (x ∷ [])) (rw same refl))
    | inr e ↦ rw e (omega arith)
  ]

  -- 1 for a thread that is in a task of queue `k`
  abbrev pub runs : ℕ → Pc A → ℕ
  runs k (running i (some task)) = if i == k then 1 else 0
  runs k p = 0

  abbrev InTurn : Shared A → ℕ → Type ℓ
  InTurn s k = s.taken k ++ (s.work_queues k).data_queue ≡ s.submitted k

  pub record InOrder (a : Shared A × List (Pc A)) : Type ℓ where
    pub in_turn : (k : ℕ) → a.0.taken k ++ (a.0.work_queues k).data_queue ≡ a.0.submitted k
    pub counted : (k : ℕ) → total (runs k) a.1 + length (a.0.finished k) ≡ length (a.0.taken k)

  submit-InTurn :
      (i : ℕ) (f : A) (s : Shared A) {t : Shared A}
      → submit i f s ≡ some t
      → ((k : ℕ) → InTurn s k)
      → ((k : ℕ) → InTurn t k) × (t.taken ≡ s.taken) × (t.finished ≡ s.finished)
  submit-InTurn i f s e o = rw (submit-inv i f s e) (
    write-write (λ k q u. s.taken k ++ q.data_queue ≡ u) s.work_queues s.submitted i _ _
        (sym (append_assoc (s.taken i) (s.work_queues i).data_queue (f ∷ []))
          ∙ ap (λ x. x ++ f ∷ []) (o i))
        o,
    refl,
    refl,
  )

  InTurn-Step :
      {s t : Shared A} {p q : Pc A} → Step s p t q → ((k : ℕ) → InTurn s k) → (k : ℕ) → InTurn t k
  InTurn-Step (submit_in {s} i f b e) o k = (submit-InTurn i f s e o).0 k
  InTurn-Step (submit_out i f b e) o k = o k
  InTurn-Step (submit_within {s} i f b e) o k = (submit-InTurn i f s e o).0 k
  InTurn-Step (go_on h) o k = o k
  InTurn-Step (leave h) o k = o k
  InTurn-Step (pop {s} {k = i} {task} {q} e) o k =
      write-write (λ j x y. y ++ x.data_queue ≡ s.submitted j) s.work_queues s.taken i q _
        (append_assoc (s.taken i) (task ∷ []) q.data_queue
          ∙ ap (λ z. s.taken i ++ z)
              (sym (wait_and_pop-some (s.work_queues i).data_queue (s.work_queues i).running e).1)
          ∙ o i)
        o k
  InTurn-Step (pop_closed {s} {k = i} {q} e) o k =
      write-all (λ j x. s.taken j ++ x.data_queue ≡ s.submitted j) s.work_queues i q
        (rw (wait_and_pop-none (s.work_queues i).data_queue (s.work_queues i).running e) (o i)) o k
  InTurn-Step finish o k = o k
  InTurn-Step finish_none o k = o k
  InTurn-Step destroy o k = o k
  InTurn-Step (close_next {s} {k = i} b) o k =
      write-all (λ j x. s.taken j ++ x.data_queue ≡ s.submitted j) s.work_queues i _ (o i) o k
  InTurn-Step join o k = o k

  counted-Step :
      (n m k : ℕ) {s t : Shared A} {p q : Pc A}
      → Step s p t q
      → n + runs k p ≡ m + runs k q
      → m + length (s.finished k) ≡ length (s.taken k)
      → n + length (t.finished k) ≡ length (t.taken k)
  counted-Step n m k (submit_in {s} i f b h) e c = rw (submit-inv i f s h) (omega arith)
  counted-Step n m k (submit_out i f b h) e c = omega arith
  counted-Step n m k (submit_within {s} i f b h) e c = rw (submit-inv i f s h) (omega (arith, e, c))
  counted-Step n m k (go_on h) e c = omega arith
  counted-Step n m k (leave h) e c = omega arith
  counted-Step n m k (pop {s} {k = i} {task} {q} h) e c =
      ground (arith, length-write s.taken i task k)
  counted-Step n m k (pop_closed h) e c = omega arith
  counted-Step n m k (finish {s} {k = i} {task}) e c =
      ground (arith, length-write s.finished i task k)
  counted-Step n m k finish_none e c = omega arith
  counted-Step n m k destroy e c = omega arith
  counted-Step n m k (close_next b) e c = omega arith
  counted-Step n m k join e c = omega arith

  InOrder-Moves : (a b : Shared A × List (Pc A)) → Moves Step a b → InOrder a → InOrder b
  InOrder-Moves (s, threads) _ (move {q = q} i e step) o = record {
    in_turn = InTurn-Step step o.in_turn;
    counted = λ k.
        counted-Step (total (runs k) (set threads i q)) (total (runs k) threads) k step
          (total-set (runs k) threads i q e) (o.counted k);
  }

  -- The threads of a new pool: those of Run, with the indices from `first` on, and clients.
  unfoldable pub starting : ℕ → ℕ → ℕ → List (Pc A)
  starting first zero zero = []
  starting first zero (suc clients) = client ∷ starting first zero clients
  starting first (suc workers) clients = testing first ∷ starting (first + 1) workers clients

starting-runs {ℓ} :
    (A : Type ℓ) (k first workers clients : ℕ)
    → total (runs k) (starting {A = A} first workers clients) ≡ 0
unfolding starting total
starting-runs A k first zero zero = refl
starting-runs A k first zero (suc clients) = omega (arith, starting-runs A k first zero clients)
starting-runs A k first (suc workers) clients =
    omega (arith, starting-runs A k (first + 1) workers clients)

-- For any number of workers, each with a queue, and of clients, and any order of their steps: for each
-- queue, the tasks taken from it, and after them the tasks in it, are the tasks submitted to it, in
-- the order in which they were submitted and each once; and as many tasks are taken from it as are
-- finished or running.
pub Reaches-InOrder {ℓ} :
    {A : Type ℓ} (workers clients : ℕ) {a : Shared A × List (Pc A)}
    → Reaches Step (initial workers, starting 0 workers clients) a
    → InOrder a
unfolding initial
Reaches-InOrder {A = A} workers clients run = Reaches-keeps Step InOrder-Moves run (record {
  in_turn = λ k. refl;
  counted = λ k. omega (arith, starting-runs A k 0 workers clients);
})
