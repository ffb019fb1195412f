-- ===== src/Locks/Tests.antt =====
-- Runs of two threads on each lock.
use funcodes.Prelude.{
  ℕ, ◌+◌, ◌*◌, ◌<◌, ◌≡◌, ◌≢◌, refl, true, false, List, [], ◌∷◌, some, load, arith,
}
use funcodes.Locks.Total.{total}
use funcodes.Locks.System.{move, Reaches, here, then}
use funcodes.Locks.SpinMutex
use funcodes.Locks.RwLock.{
  top_bit, initial, blocking, trying, Pc, idle, reading, writing, write_loaded, Step, call_read,
  read_load, read_enter, read_done, call_write, claim, write_load, write_announce, write_fail,
  write_enter,
}
use funcodes.Locks.RwLock.Invariant.{outside, start, reads, announces, writes}
use funcodes.Locks.RwLock.Exclusion.{writing-excludes, l-eq}
use funcodes.Locks.RwLock.Strand.{write_fail-strands}

-- The first thread locks for writing.
one_writes : Reaches Step (start 2) (record { l = top_bit; w = true }, writing ∷ idle ∷ [])
unfolding outside initial load
one_writes =
    then
      (then
        (then (then (then here (move 0 refl (call_write blocking))) (move 0 refl (claim refl)))
          (move 0 refl write_load))
        (move 0 refl (write_announce refl)))
      (move 0 refl (write_enter (omega arith)))

writing-excludes_example : (idle ≢ reading) × (idle ≢ writing)
unfolding load
writing-excludes_example =
    writing-excludes 2 (omega arith) one_writes 0 1 idle (omega arith) refl refl

-- Both threads read.
abbrev two_readers : List Pc
two_readers = reading ∷ reading ∷ []

both_read : Reaches Step (start 2) (record { l = 2; w = false }, two_readers)
unfolding outside initial load
both_read =
    then
      (then
        (then
          (then
            (then (then here (move 0 refl (call_read blocking)))
              (move 0 refl (read_load (omega arith))))
            (move 0 refl (read_enter refl)))
          (move 1 refl (call_read trying)))
        (move 1 refl (read_load (omega arith))))
      (move 1 refl (read_enter refl))

l-eq_example :
    (2
      ≡ total reads two_readers
        + top_bit * (total announces two_readers + total writes two_readers))
    × (total reads two_readers < top_bit)
    × (total announces two_readers + total writes two_readers < 2)
l-eq_example = l-eq 2 (omega arith) both_read

-- The first thread tries to write, and the second one becomes a reader before it announces itself.
overtaken :
    Reaches Step (start 2) (record { l = 1; w = true }, write_loaded trying 0 ∷ reading ∷ [])
unfolding outside initial load
overtaken =
    then
      (then
        (then
          (then (then (then here (move 0 refl (call_write trying))) (move 0 refl (claim refl)))
            (move 0 refl write_load))
          (move 1 refl (call_read blocking)))
        (move 1 refl (read_load (omega arith))))
      (move 1 refl (read_enter refl))

write_fail-strands_example :
    (true ≡ true) × ((j : ℕ) (p : Pc) → load (idle ∷ idle ∷ []) j ≡ some p → p ≢ writing)
unfolding load
write_fail-strands_example =
    write_fail-strands 2 0 0 (record { l = 1; w = true }) (record { l = 1; w = true })
      (record { l = 0; w = true }) (write_loaded trying 0 ∷ reading ∷ []) (idle ∷ idle ∷ [])
      (omega arith) overtaken refl (write_fail (omega arith)) (then here (move 1 refl read_done))

abbrev first_holds : List SpinMutex.Pc
first_holds = SpinMutex.holding ∷ SpinMutex.locking ∷ []

spinning : Reaches SpinMutex.Step (false, SpinMutex.outside 2) (true, first_holds)
unfolding SpinMutex.outside load
spinning =
    then
      (then (then (then here (move 0 refl SpinMutex.call_lock)) (move 0 refl SpinMutex.lock_taken))
        (move 1 refl SpinMutex.call_lock))
      (move 1 refl SpinMutex.lock_spin)

holding-excludes_example :
    (total SpinMutex.holds first_holds ≡ 1)
    × ((i j : ℕ)
        → i ≢ j
        → load first_holds i ≡ some SpinMutex.holding
        → load first_holds j ≢ some SpinMutex.holding)
holding-excludes_example = SpinMutex.holding-excludes 2 spinning
