-- ===== src/PagedKvCache.antt =====
-- src/minigpt/paged_kv_cache.py: the pool of fixed-size K/V blocks.
pub mod Types
pub mod Blocks
pub mod Accounts
pub mod Allocator
pub mod Checks
pub mod Reservation
pub mod Storage
pub mod Requests
pub mod Rebuild
pub mod Soundness
pub mod Construct
mod Tests
pub mod Prefix
