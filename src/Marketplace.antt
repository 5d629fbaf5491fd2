-- ===== src/Marketplace.antt =====
-- The marketplace (backend/app/services/marketplace/service.py and the tables of
-- backend/app/models/marketplace.py). `State` is the data, `Escrow` and `Usage` the operations,
-- `Links` what the foreign keys do; the other modules prove.
pub mod State
pub mod Escrow
mod Settled
mod Opened
mod Links
mod Deleted
pub mod Requests
pub mod Usage
pub mod Metered
pub mod Payment
mod Tests
