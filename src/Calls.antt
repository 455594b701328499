-- ===== src/Calls.antt =====
-- What routines call: the system calls of src/boson/src/syscalls.cc and `select_any` of
-- src/boson/boson/select.h.
pub mod State
pub mod Sample
pub mod Syscalls
pub mod Channels
pub mod Select
pub mod Sockets
