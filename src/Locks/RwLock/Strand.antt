-- ===== src/Locks/RwLock/Strand.antt =====
-- TryWrite of c++/utils/cache/rwlock.h where its compare-exchange fails.
use funcodes.Prelude.{
  ℕ, ◌+◌, ◌≡◌, ◌≢◌, refl, ap, ◌∙◌, List, [], ◌∷◌, ◌<◌, some, true, load, set, arith,
}
use funcodes.Locks.Total.{total, total-set, total-one}
use funcodes.Locks.System.{Moves, move, Reaches, Reaches-keeps}
use funcodes.Locks.RwLock.{
  top_bit, Shared, idle, write_loaded, blocking, trying, Pc, writing, Step, call_read, read_load,
  read_refuse, read_enter, read_again, read_fail, read_done, call_write, claim, claim_refuse,
  write_load, write_announce, write_again, write_fail, write_wait, write_enter, write_store,
  write_clear,
}
use funcodes.Locks.RwLock.Invariant.{announces, claims, writes, start, Reaches-Consistent}

-- 1 for a thread that has claimed the lock for writing.
abbrev pub owns : Pc → ℕ
owns p = claims p + announces p + writes p

-- The flag is set, and no thread has claimed the lock.
abbrev pub Stranded : Shared × List Pc → Type 0
Stranded (s, threads) = (s.w ≡ true) × (total owns threads ≡ 0)

Step-strands :
    {s t : Shared} {p q : Pc} → Step s p t q → s.w ≡ true → owns p ≡ 0 → (t.w ≡ true) × (owns q ≡ 0)
Step-strands (call_read m) w e = (w, refl)
Step-strands (read_load h) w e = (w, refl)
Step-strands (read_refuse {m = blocking} h) w e = (w, refl)
Step-strands (read_refuse {m = trying} h) w e = (w, refl)
Step-strands (read_enter h) w e = (w, refl)
Step-strands read_again w e = (w, refl)
Step-strands (read_fail h) w e = (w, refl)
Step-strands read_done w e = (w, refl)
Step-strands (call_write m) w e = (w, refl)
Step-strands (claim h) w e = absurd (cc (h, w))
Step-strands (claim_refuse {m = blocking} h) w e = (w, refl)
Step-strands (claim_refuse {m = trying} h) w e = (w, refl)
Step-strands write_load w e = absurd (omega arith)
Step-strands (write_announce h) w e = absurd (omega arith)
Step-strands write_again w e = absurd (omega arith)
Step-strands (write_fail h) w e = absurd (omega arith)
Step-strands (write_wait h) w e = absurd (omega arith)
Step-strands (write_enter h) w e = absurd (omega arith)
Step-strands write_store w e = absurd (omega arith)
Step-strands write_clear w e = absurd (omega arith)

Moves-Stranded : (a b : Shared × List Pc) → Moves Step a b → Stranded a → Stranded b
Moves-Stranded (s, threads) _ (move {q = q} i e step) (w, none_owns) =
    let (w', o) = Step-strands step w (omega (arith, total-one owns threads i e)) in
    (w', omega (arith, total-set owns threads i q e))

Reaches-Stranded :
    {a : Shared × List Pc} {s : Shared} {threads : List Pc}
    → Stranded a
    → Reaches Step a (s, threads)
    → (s.w ≡ true) × ((i : ℕ) (p : Pc) → load threads i ≡ some p → p ≢ writing)
Reaches-Stranded stranded run =
    let (w, none_owns) = Reaches-keeps Step Moves-Stranded run stranded in
    (w, λ i p e m. absurd (omega (arith, total-one owns _ i (rw m at e))))

owns-eq :
    (threads : List Pc)
    → total owns threads ≡ total claims threads + total announces threads + total writes threads
unfolding total
owns-eq [] = omega arith
owns-eq (p ∷ threads) = omega (arith, owns-eq threads)

write_fail-eq : {cnt : ℕ} {s u : Shared} → Step s (write_loaded trying cnt) u idle → u ≡ s
write_fail-eq (write_fail h) = refl

-- For fewer than 2^31 threads: when a thread that is in TryWrite and has the writers' flag and a
-- value of `l_` takes a step with which it returns false, then from that step on, however the threads
-- go on, the flag stays set and no thread ever is in a write section.
pub write_fail-strands :
    (n i cnt : ℕ) (s u t : Shared) (threads later : List Pc)
    → n < top_bit
    → Reaches Step (start n) (s, threads)
    → load threads i ≡ some (write_loaded trying cnt)
    → Step s (write_loaded trying cnt) u idle
    → Reaches Step (u, set threads i idle) (t, later)
    → (t.w ≡ true) × ((j : ℕ) (p : Pc) → load later j ≡ some p → p ≢ writing)
write_fail-strands n i cnt s u t threads later h run e fail more =
    let c = Reaches-Consistent n h run in
    let all = owns-eq threads in
    let one = total-one claims threads i e in
    let same = write_fail-eq fail in
    let claimed : s.w ≡ true = ground (arith, c, one) in
    Reaches-Stranded
      (ap (λ x. x.w) same ∙ claimed, ground (arith, c, all, one, total-set owns threads i idle e))
      more
