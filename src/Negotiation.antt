-- ===== src/Negotiation.antt =====
-- Negotiations between two agents (backend/app/services/negotiation/service.py and the tables of
-- backend/app/models/negotiation.py, negotiation_round.py and task_contract.py). `State` is the data,
-- `Service` the operations; the other modules prove.
pub mod State
pub mod Service
mod Responded
mod Decided
pub mod Invariant
pub mod Requests
pub mod Outcome
mod Tests
