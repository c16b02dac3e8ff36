-- ===== src/Common.antt =====
-- The helpers of the crate foyer-common.
pub mod Range
pub mod Batch
mod Tests
