-- ===== src/Lib.antt =====
-- The Boson framework (src/boson): routines that run on a few threads, wait for descriptors, dates and
-- semaphores at once, and talk over channels.
--
-- Parts and files. A routine that must wait starts a round, adds the events, and gives its thread the
-- control; each event holds a slot of the thread, and semaphores hold the number of that slot. The
-- first event that happens ends the round, and takes the other events back.
-- - Prelude: Boolean tests, lists over native numbers, vectors with faults out of range, machine words.
-- - Memory/SparseVector: memory::sparse_vector of src/boson/boson/memory/sparse_vector.h, a vector with
--   a free list, which keeps the slots of a thread.
-- - Memory/FlatUnorderedSet: memory::flat_unordered_set of src/boson/boson/memory/flat_unordered_set.h.
-- - Memory/LocalPtr: memory::local_ptr of src/boson/boson/memory/local_ptr.h, with its count of owners
--   and of the values that it deletes.
--   Memory/LinearAllocator: memory::linear_allocator of src/boson/boson/memory/linear_allocator.h.
-- - Queues/VectorizedQueue: queues::vectorized_queue of src/boson/boson/queues/vectorized_queue.h, a
--   doubly linked list in an array, which keeps the waiters of a semaphore.
-- - Queues/WeakRing: queues::weakrb of src/boson/boson/queues/weakrb.h, by calls and by interleaved steps.
--   Queues/Mpsc: queues::mpsc of src/boson/boson/queues/mpsc.h, the same for several writers.
--   Queues/Simple: the queues of src/boson/boson/queues/simple.h and src/boson/src/queues/simple.cc.
-- - Sync/Semaphore: semaphore of src/boson/boson/semaphore.h and src/boson/src/semaphore.cc. Each atomic
--   operation is a function; Semaphore/Protocol has the steps of any number of routines, in any order.
-- - Sync/Channel, Sync/EmptyChannel: channel_impl of src/boson/boson/channel.h and its specialisation for
--   std::nullptr_t. Sync/Mutex: mutex of src/boson/boson/mutex.h. In these
--   three a wait is not ended by another routine: it gives up after its timeout, or never returns.
-- - Net/Poller and Net/Dispatching: internal::netpoller of src/boson/boson/internal/netpoller.h, its table
--   of descriptors, and what it does with the events of its loop. Net/EventLoop: io_event_loop of
--   src/boson/src/linux/io_event_loop_impl.h and io_event_loop_impl.cc over epoll.
-- - Runtime/State: routines, threads, semaphores and references (memory::local_ptr) in one store.
--   Runtime/Thread: what routines call of src/boson/src/internal/thread.cc. Runtime/Routine: the round of
--   events of src/boson/src/internal/routine.cc. Runtime/Dispatch and Runtime/Schedule: what reaches a
--   thread and the turns that it gives, of thread.cc. A result `none` is a fault: a failed assertion, a
--   null pointer or an access out of range. Runtime/Sample: data for the tests. Runtime/Loop: the loop of a
--   thread and the turn of a routine (routine::resume). Runtime/Semaphores: post, disable and wait of
--   src/boson/src/semaphore.cc over routines and threads, with a wait that a post
--   ends (Semaphores/Posted), or its timeout (Semaphores/Timed), and
--   a wake-up that gets lost (Semaphores/Lost). Runtime/Clock: dates and how they are rounded, with
--   src/boson/boson/std/experimental/chrono.h. Runtime/Waits: what the calls below register.
-- - Calls/State and Calls/Syscalls: the calls of src/boson/src/syscalls.cc and the traits of
--   src/boson/boson/syscall_traits.h over a kernel that is a parameter. Calls/Channels: channel_impl
--   over the runtime, with a read that another routine's write ends (Channels/Handed). Calls/Select:
--   select_any of src/boson/boson/select.h with its selectors. Routines suspend by a parameter,
--   which stands for all that happens until they are resumed. Calls/Sockets:
--   create_listening_socket of src/boson/src/net/socket.cc.
-- - Runtime/Engine: engine of src/boson/boson/engine.h and src/boson/src/engine.cc. Engine/Starting: its
--   constructors, and engine_proxy of src/boson/src/internal/thread.cc.
--
-- Bounds. An `int` is 32 bits with its offset 2^31 added, a `size_t` wraps at 2^64. The protocol lets
-- less than 2^28 routines be on their way through one semaphore, so that its counter stays on its side
-- of the thresholds; a capacity, and so the size of a channel, is at most 2^30, the disabling threshold.
-- The indices of a channel are followed below 2^64 writes, those of the ring of one writer and one reader
-- below 2^62. Links of the two arrays are 64 bits in the source and are not followed to overflow. Dates are
-- not followed to overflow either, but the milliseconds until a date are narrowed to an int as the loop of a
-- thread does. The loops over the queue of commands, of a thread and of the engine, and
-- over the schedule are on fuel; the loop of the engine needs a unit per command and one more, that of a call
-- that would block a unit more than there are waits, that of the event loop a unit more than there are
-- interruptions, and that of disable as many as the queue has cells and one more, which it is given.
--
-- Not modelled: the switch of contexts and the stacks, epoll and the system calls, which are outside the
-- source or are parameters; the memory orders of atomics, since steps are sequentially consistent; what
-- a routine does in its turn, which is a parameter;
-- lcrq, which is an adaptation of another project's queue; mpmc, which has no bodies; shared buffers; the
-- shim that picks between these calls and those of the C library; logging, exceptions and the JSON library.
pub mod Prelude
pub mod Memory
pub mod Queues
pub mod Sync
pub mod Net
pub mod Runtime
pub mod Calls
