-- ===== src/Memory/Eviction/S3Fifo/Stuck.antt =====
-- foyer-memory/src/eviction/s3fifo.rs: when the debug assertion of `pop` fails.
use foyer.Prelude.{◌≤◌, ◌<◌, ◌≡◌, [], length}
use foyer.Memory.Eviction.S3Fifo.{S3Fifo}

-- Handles wait in the small queue alone, and their charges are within its capacity.
pub record IsStuck (s : S3Fifo) : Type 0 where
  pub main_empty : s.main_queue ≡ []
  pub some_small : 0 < length s.small_queue
  pub within : s.small_charges ≤ s.small_capacity
