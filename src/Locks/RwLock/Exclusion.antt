-- ===== src/Locks/RwLock/Exclusion.antt =====
-- The sections of c++/utils/cache/rwlock.h that exclude each other.
use funcodes.Prelude.{ℕ, ◌+◌, ◌*◌, ◌<◌, ◌≡◌, ◌≢◌, List, some, load, arith}
use funcodes.Locks.Total.{total, total-one, total-two}
use funcodes.Locks.System.{Reaches}
use funcodes.Locks.RwLock.{top_bit, Shared, Pc, reading, writing, Step}
use funcodes.Locks.RwLock.Invariant.{reads, announces, writes, start, Reaches-Consistent}

module _ (n : ℕ) (h : n < top_bit) {s : Shared} {threads : List Pc}
    (run : Reaches Step (start n) (s, threads)) where
  -- For fewer than 2^31 threads and any order of their steps: while a thread is in its write section,
  -- no other thread is in a read section or in a write section.
  pub writing-excludes :
      (i j : ℕ) (p : Pc)
      → i ≢ j
      → load threads i ≡ some writing
      → load threads j ≡ some p
      → (p ≢ reading) × (p ≢ writing)
  writing-excludes i j p ne e f =
      let c = Reaches-Consistent n h run in
      (
        λ m. absurd (
            ground (arith, c, total-one writes threads i e, total-one reads threads j (rw m at f))),
        λ m. absurd (ground (arith, c, total-two writes threads i j ne e (rw m at f))),
      )

  -- For fewer than 2^31 threads and any order of their steps: `l_` is the number of threads in a read
  -- section, with the top bit set exactly while a writer has announced itself and not left, and there
  -- is at most one such writer.
  pub l-eq :
      (s.l ≡ total reads threads + top_bit * (total announces threads + total writes threads))
      × (total reads threads < top_bit)
      × (total announces threads + total writes threads < 2)
  l-eq = let c = Reaches-Consistent n h run in ground (arith, c)
