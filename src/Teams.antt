-- ===== src/Teams.antt =====
-- Teams of agents: backend/app/services/team/service.py with backend/app/models/team.py.
pub mod State
pub mod Service
pub mod Invariant
pub mod Requests
pub mod Membership
mod Tests
