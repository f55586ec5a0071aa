-- ===== src/SharedMutex.antt =====
-- concurrency/shared_mutex.h: the two shared mutexes and the lock that owns one in shared mode.
pub mod Word
pub mod Spec
pub mod Timed
pub mod SharedLock
pub mod ReaderPreferring
