-- ===== src/Locks/RwLock.antt =====
-- c++/utils/cache/rwlock.h: LockFreeRWContention. `l_` is an int32_t that holds the number of readers
-- and, in its top bit, whether a writer has announced itself; it is kept here as the unsigned word of
-- the same bits. `w_` is the writers' flag. The atomics are taken as sequentially consistent.
pub mod Invariant
pub mod Exclusion
pub mod Strand
use funcodes.Prelude.{ℕ, ◌+◌, ◌-◌, ◌%◌, ◌≤◌, ◌<◌, ◌≡◌, ◌≢◌, Bool, true, false, ltb, if◌then◌else◌}

-- 0x80000000
abbrev pub top_bit : ℕ
top_bit = 2147483648

-- The number of values of the word.
abbrev pub words : ℕ
words = 4294967296

-- cnt | 0x80000000
abbrev pub announce : ℕ → ℕ
announce cnt = if ltb cnt top_bit then cnt + top_bit else cnt

pub record Shared : Type 0 where
  pub l : ℕ
  pub w : Bool

-- lock() waits; try_lock() gives up.
pub data Mode : Type 0 where
  blocking : Mode
  trying : Mode

-- Where a thread is, with the `cnt` that it has loaded.
pub data Pc : Type 0 where
  idle : Pc
  read_begin : Mode → Pc
  read_loaded : Mode → ℕ → Pc
  reading : Pc
  write_begin : Mode → Pc
  write_claimed : Mode → Pc
  write_loaded : Mode → ℕ → Pc
  write_waiting : Pc
  writing : Pc
  write_stored : Pc

-- Where a thread goes that finds the lock taken.
abbrev pub refused : Mode → Pc → Pc
refused blocking p = p
refused trying p = idle

pub data Step : Shared → Pc → Shared → Pc → Type 0 where
  -- Read and TryRead
  call_read : {s : Shared} (m : Mode) → Step s idle s (read_begin m)
  read_load : {s : Shared} {m : Mode} → s.l < top_bit → Step s (read_begin m) s (read_loaded m s.l)
  read_refuse :
      {s : Shared} {m : Mode} → top_bit ≤ s.l → Step s (read_begin m) s (refused m (read_begin m))
  read_enter :
      {s : Shared} {m : Mode} {cnt : ℕ}
      → s.l ≡ cnt
      → Step s (read_loaded m cnt) (record s { l = (cnt + 1) % words }) reading
  -- compare_exchange_weak may fail without a reason
  read_again : {s : Shared} {cnt : ℕ} → Step s (read_loaded blocking cnt) s (read_begin blocking)
  read_fail : {s : Shared} {cnt : ℕ} → s.l ≢ cnt → Step s (read_loaded trying cnt) s idle
  -- DoneRead
  read_done : {s : Shared} → Step s reading (record s { l = (s.l + (words - 1)) % words }) idle
  -- Write and TryWrite
  call_write : {s : Shared} (m : Mode) → Step s idle s (write_begin m)
  claim :
      {s : Shared} {m : Mode}
      → s.w ≡ false
      → Step s (write_begin m) (record s { w = true }) (write_claimed m)
  claim_refuse :
      {s : Shared} {m : Mode} → s.w ≡ true → Step s (write_begin m) s (refused m (write_begin m))
  write_load : {s : Shared} {m : Mode} → Step s (write_claimed m) s (write_loaded m s.l)
  write_announce :
      {s : Shared} {m : Mode} {cnt : ℕ}
      → s.l ≡ cnt
      → Step s (write_loaded m cnt) (record s { l = announce cnt }) write_waiting
  write_again :
      {s : Shared} {cnt : ℕ} → Step s (write_loaded blocking cnt) s (write_loaded blocking s.l)
  -- TryWrite returns false here with `w_` set.
  write_fail : {s : Shared} {cnt : ℕ} → s.l ≢ cnt → Step s (write_loaded trying cnt) s idle
  write_wait : {s : Shared} → top_bit < s.l → Step s write_waiting s write_waiting
  write_enter : {s : Shared} → s.l ≤ top_bit → Step s write_waiting s writing
  -- DoneWrite
  write_store : {s : Shared} → Step s writing (record s { l = 0 }) write_stored
  write_clear : {s : Shared} → Step s write_stored (record s { w = false }) idle

-- The constructor of the class, with `n` threads that have not called it yet.
unfoldable pub initial : Shared
initial = record { l = 0; w = false }
