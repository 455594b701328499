-- ===== src/Runtime.antt =====
-- Routines and the threads that run them: src/boson/boson/internal/routine.h and thread.h with their
-- .cc files. Semaphores, slots and pollers are those of Sync, Memory and Net.
pub mod State
pub mod Thread
pub mod Routine
pub mod Clock
pub mod Waits
pub mod Semaphores
pub mod Sample
pub mod Dispatch
pub mod Schedule
pub mod Loop
pub mod Engine
