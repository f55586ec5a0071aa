-- ===== src/Semaphore.antt =====
-- concurrency/semaphore.h: the two semaphores, and what is built on them.
pub mod Word
pub mod Simple
pub mod Guards
pub mod WaitQueue
pub mod Queued
