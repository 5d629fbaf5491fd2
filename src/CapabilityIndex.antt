-- ===== src/CapabilityIndex.antt =====
-- The index of capabilities in Redis: backend/app/core/capability_index.py. Redis answers; a failure of
-- it is logged and not modelled. A sorted set is a table of its members with their scores; its order is
-- never used. `quote` gives different names different keys, so the names are the keys.
pub mod Redis
pub mod Candidates
pub mod Ranks
pub mod Catalog
pub mod Refines
mod Tests
