-- ===== src/Memory.antt =====
-- The containers of src/boson/boson/memory.
pub mod SparseVector
pub mod FlatUnorderedSet
pub mod LocalPtr
pub mod LinearAllocator
