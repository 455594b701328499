-- ===== src/Queues.antt =====
-- The queues of src/boson/boson/queues.
pub mod VectorizedQueue
pub mod WeakRing
pub mod Mpsc
pub mod Simple
