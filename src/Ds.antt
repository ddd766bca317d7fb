-- ===== src/Ds.antt =====
-- internal/ds: the list, set and hash values that are kept as one byte payload in the arena.
pub mod Deque
pub mod ListPayload
pub mod SetPayload
pub mod HashPayload
