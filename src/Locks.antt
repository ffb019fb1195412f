-- ===== src/Locks.antt =====
-- c++/utils/cache/rwlock.h and c++/utils/cache/spinlock.h: locks on atomic words, as step relations
-- over the threads that use them. Each access to an atomic is one step.
pub mod Total
pub mod System
pub mod SpinMutex
pub mod RwLock
mod Tests
