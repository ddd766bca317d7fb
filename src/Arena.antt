-- ===== src/Arena.antt =====
-- internal/arena: the memory that the cache's values stand in.
pub mod Allocator
pub mod Apart
pub mod Fresh
pub mod Region
pub mod Keeps
pub mod Manager
pub mod Live
pub mod Release
pub mod Restart
pub mod Meta
pub mod Examples
