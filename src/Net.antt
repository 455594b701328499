-- ===== src/Net.antt =====
-- Waiting for file descriptors: src/boson/boson/internal/netpoller.h and src/boson/src/linux.
pub mod Poller
pub mod EventLoop
pub mod Dispatching
