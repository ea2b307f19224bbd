-- ===== src/SharedMemory/RefCount.antt =====
-- Who has what mapped: the pointers that the callers of src/sharedMemory.cpp hold, beside the
-- counters of `mapCounter`. The steps are those of a caller that unmaps only what it has mapped.
pub mod Objects
pub mod Mappings
pub mod Steps
pub mod Mapping
pub mod Allocating
pub mod Unmapping
pub mod Invariant
pub mod Stale
pub mod Release
