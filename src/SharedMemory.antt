-- ===== src/SharedMemory.antt =====
-- artdaq-core/Core/SharedMemoryManager.hh and SharedMemoryManager.cc: the segment of buffers through
-- which processes hand events on.
pub mod State
pub mod Access
pub mod Reset
pub mod Writing
pub mod Reading
pub mod Counting
pub mod Marks
pub mod Transfer
pub mod Attach
pub mod Isolation
pub mod Samples
mod Tests
mod Holding
