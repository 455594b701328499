-- ===== src/Sync.antt =====
-- Semaphores, mutexes and channels: src/boson/boson/semaphore.h, mutex.h and channel.h.
pub mod Semaphore
pub mod Channel
pub mod Mutex
pub mod EmptyChannel
