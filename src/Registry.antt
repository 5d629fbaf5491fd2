-- ===== src/Registry.antt =====
-- The registry of agents: backend/app/services/registry/service.py.
pub mod State
pub mod Service
pub mod Revisions
pub mod Keys
pub mod Requests
mod Tests
