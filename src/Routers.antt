-- ===== src/Routers.antt =====
-- app/routers: the data handlers.
pub mod Batch
pub mod Fixtures
pub mod Kv
pub mod Map
pub mod Queue
pub mod Group
pub mod Rank
pub mod Event
pub mod Pubsub
pub mod Admin
