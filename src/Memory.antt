-- ===== src/Memory.antt =====
-- Shared memories of agents: backend/app/services/memory/service.py with
-- backend/app/models/memory.py.
pub mod State
pub mod Service
pub mod Access
pub mod Write
mod Tests
