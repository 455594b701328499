-- ===== src/Runtime/Clock/Tests.antt =====
-- The dates of a semaphore, of `select_any`, of a sleep and of a timeout, 1.5 ms after the start.
