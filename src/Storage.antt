-- ===== src/Storage.antt =====
-- The disk cache of the crate foyer-storage.
pub mod Indices
pub mod Catalog
pub mod Buffer
pub mod Device
pub mod Entry
pub mod Flusher
pub mod Recovery
pub mod Format
mod Tests
