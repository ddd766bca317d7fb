-- ===== src/Persist.antt =====
-- internal/arena/persist: the write-ahead log, the superblock, and recovery from them.
pub mod Wal
pub mod Recovery
pub mod Superblock
pub mod Checkpoint
pub mod Manager
pub mod Examples
