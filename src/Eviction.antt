-- ===== src/Eviction.antt =====
-- internal/eviction: the parts of the S3-FIFO policy.
pub mod Ghost
pub mod Queue
pub mod S3Fifo
