-- ===== src/Locks/RwLock/Invariant.antt =====
-- The words of c++/utils/cache/rwlock.h, against the numbers of threads in each of its places.
use funcodes.Prelude.{
  ℕ, zero, suc, ◌+◌, ◌*◌, ◌≤◌, ◌<◌, ◌≡◌, ◌⊎◌, refl, ap, List, [], ◌∷◌, some, load, set, length,
  length-set, Bool, true, false, arith, ltb, if◌then◌else◌,
}
use funcodes.Locks.Total.{total, total-set, total-one, total-bound}
use funcodes.Locks.System.{Moves, move, Reaches, Reaches-keeps}
use funcodes.Locks.RwLock.{
  top_bit, Shared, initial, blocking, trying, Pc, idle, read_loaded, reading, write_claimed,
  write_loaded, write_waiting, writing, write_stored, Step, call_read, read_load, read_refuse,
  read_enter, read_again, read_fail, read_done, call_write, claim, claim_refuse, write_load,
  write_announce, write_again, write_fail, write_wait, write_enter, write_store, write_clear,
}

-- 1 for a thread that is counted in `l_`.
abbrev pub reads : Pc → ℕ
reads reading = 1
reads p = 0

-- 1 for a thread that has set the top bit of `l_` and waits for the readers to leave.
abbrev pub announces : Pc → ℕ
announces write_waiting = 1
announces p = 0

-- 1 for a thread that has set `w_` and not, or no longer, the top bit of `l_`.
abbrev pub claims : Pc → ℕ
claims (write_claimed m) = 1
claims (write_loaded m cnt) = 1
claims write_stored = 1
claims p = 0

abbrev pub writes : Pc → ℕ
writes writing = 1
writes p = 0

-- 1 for a thread that would count itself as a reader on a negative number, which none does.
abbrev pub mistakes : Pc → ℕ
mistakes (read_loaded m cnt) = if ltb cnt top_bit then 0 else 1
mistakes p = 0

abbrev flag : Bool → ℕ
flag true = 1
flag false = 0

reads-small : (p : Pc) → reads p ≤ 1
reads-small reading = omega arith
reads-small p = omega arith

-- For a word, the flag, and the numbers of threads, of readers, of waiting writers, of other claims, of
-- writers and of mistakes.
abbrev Fits : ℕ → Bool → ℕ → ℕ → ℕ → ℕ → ℕ → ℕ → Type 0
Fits l w n r a c v z =
    (r ≤ n)
    × (n < top_bit)
    × (l ≡ r + top_bit * (a + v))
    × (c + a + v ≤ flag w)
    × ((v ≡ 0) ⊎ (r ≡ 0))
    × (z ≡ 0)

abbrev pub Consistent : Shared × List Pc → Type 0
Consistent (s, threads) =
    Fits s.l s.w (length threads) (total reads threads) (total announces threads)
      (total claims threads) (total writes threads) (total mistakes threads)

-- The numbers after a thread has gone from `p` to `q`.
record Turn (p q : Pc) (n r a c v z r' a' c' v' z' : ℕ) : Type 0 where
  reader : r' + reads p ≡ r + reads q
  announcer : a' + announces p ≡ a + announces q
  claimer : c' + claims p ≡ c + claims q
  writer : v' + writes p ≡ v + writes q
  mistake : z' + mistakes p ≡ z + mistakes q
  one_reader : reads p ≤ r
  one_announcer : announces p ≤ a
  one_mistake : mistakes p ≤ z
  few : r' ≤ n

module _ {n r a c v z r' a' c' v' z' : ℕ} where
  -- A step that touches neither word, and after which the thread counts as before.
  Fits-quiet :
      (l : ℕ) (w : Bool) {p q : Pc}
      → Turn p q n r a c v z r' a' c' v' z'
      → reads p ≡ reads q
      → announces p ≡ announces q
      → claims p ≡ claims q
      → writes p ≡ writes q
      → mistakes q ≡ 0
      → Fits l w n r a c v z
      → Fits l w n r' a' c' v' z'
  Fits-quiet l w {p} {q} k er ea ec ev ez f =
      ground (arith, k.reader, k.announcer, k.claimer, k.writer, k.mistake, er, ea, ec, ev, ez, f)

  Fits-Step :
      {s t : Shared} {p q : Pc}
      → Step s p t q
      → Turn p q n r a c v z r' a' c' v' z'
      → Fits s.l s.w n r a c v z
      → Fits t.l t.w n r' a' c' v' z'
  Fits-Step (call_read {s} m) k f = Fits-quiet s.l s.w k refl refl refl refl refl f
  Fits-Step (read_load {s} h) k f = Fits-quiet s.l s.w k refl refl refl refl (ground arith) f
  Fits-Step (read_refuse {s} {m = blocking} h) k f = Fits-quiet s.l s.w k refl refl refl refl refl f
  Fits-Step (read_refuse {s} {m = trying} h) k f = Fits-quiet s.l s.w k refl refl refl refl refl f
  Fits-Step (read_again {s}) k f = Fits-quiet s.l s.w k refl refl refl refl refl f
  Fits-Step (read_fail {s} h) k f = Fits-quiet s.l s.w k refl refl refl refl refl f
  Fits-Step (call_write {s} m) k f = Fits-quiet s.l s.w k refl refl refl refl refl f
  Fits-Step (claim_refuse {s} {m = blocking} h) k f =
      Fits-quiet s.l s.w k refl refl refl refl refl f
  Fits-Step (claim_refuse {s} {m = trying} h) k f = Fits-quiet s.l s.w k refl refl refl refl refl f
  Fits-Step (write_load {s}) k f = Fits-quiet s.l s.w k refl refl refl refl refl f
  Fits-Step (write_again {s}) k f = Fits-quiet s.l s.w k refl refl refl refl refl f
  Fits-Step (write_wait {s} h) k f = Fits-quiet s.l s.w k refl refl refl refl refl f
  Fits-Step (write_fail h) k f =
      ground (arith, k.reader, k.announcer, k.claimer, k.writer, k.mistake, f)
  Fits-Step (read_enter h) k f =
      ground
        (arith, h, k.reader, k.announcer, k.claimer, k.writer, k.mistake, k.one_mistake, k.few, f)
  Fits-Step read_done k f =
      ground (arith, k.reader, k.announcer, k.claimer, k.writer, k.mistake, k.one_reader, f)
  Fits-Step (claim h) k f =
      ground (arith, h, k.reader, k.announcer, k.claimer, k.writer, k.mistake, f)
  Fits-Step (write_announce h) k f =
      ground (arith, h, k.reader, k.announcer, k.claimer, k.writer, k.mistake, f)
  Fits-Step (write_enter h) k f =
      ground (arith, h, k.reader, k.announcer, k.claimer, k.writer, k.mistake, k.one_announcer, f)
  Fits-Step write_store k f =
      ground (arith, k.reader, k.announcer, k.claimer, k.writer, k.mistake, k.one_announcer, f)
  Fits-Step write_clear k f =
      ground (arith, k.reader, k.announcer, k.claimer, k.writer, k.mistake, f)

Turn-set :
    {n : ℕ} (threads : List Pc) (i : ℕ) {p : Pc} (q : Pc)
    → load threads i ≡ some p
    → length threads ≤ n
    → Turn p q n
        (total reads threads)
        (total announces threads)
        (total claims threads)
        (total writes threads)
        (total mistakes threads)
        (total reads (set threads i q))
        (total announces (set threads i q))
        (total claims (set threads i q))
        (total writes (set threads i q))
        (total mistakes (set threads i q))
Turn-set threads i q e h = record {
  reader = total-set reads threads i q e;
  announcer = total-set announces threads i q e;
  claimer = total-set claims threads i q e;
  writer = total-set writes threads i q e;
  mistake = total-set mistakes threads i q e;
  one_reader = total-one reads threads i e;
  one_announcer = total-one announces threads i e;
  one_mistake = total-one mistakes threads i e;
  few = omega (arith, h, length-set threads i q, total-bound reads reads-small (set threads i q));
}

pub Consistent-Moves : (a b : Shared × List Pc) → Moves Step a b → Consistent a → Consistent b
Consistent-Moves (s, threads) _ (move {q = q} i e step) c =
    rw (length-set threads i q) (Fits-Step step (Turn-set threads i q e (omega arith)) c)

-- `n` threads that have not called the lock.
unfoldable pub outside : ℕ → List Pc
outside zero = []
outside (suc n) = idle ∷ outside n

-- The lock as the constructor makes it.
abbrev pub start : ℕ → Shared × List Pc
start n = (initial, outside n)

length-outside : (n : ℕ) → length (outside n) ≡ n
unfolding outside
length-outside zero = refl
length-outside (suc n) = ap suc (length-outside n)

total-outside : (weight : Pc → ℕ) → weight idle ≡ 0 → (n : ℕ) → total weight (outside n) ≡ 0
unfolding outside total
total-outside weight e zero = refl
total-outside weight e (suc n) = omega (arith, e, total-outside weight e n)

Consistent-start : (n : ℕ) → n < top_bit → Consistent (start n)
unfolding initial
Consistent-start n h =
    rw
      (
        length-outside n,
        total-outside reads refl n,
        total-outside announces refl n,
        total-outside claims refl n,
        total-outside writes refl n,
        total-outside mistakes refl n,
      )
      (ground (arith, h))

pub Reaches-Consistent :
    (n : ℕ) {a : Shared × List Pc} → n < top_bit → Reaches Step (start n) a → Consistent a
Reaches-Consistent n h r = Reaches-keeps Step Consistent-Moves r (Consistent-start n h)
