-- ===== src/Workers.antt =====
-- The workers of backend/app/core/workers.py that change tasks: delivery and expiry.
pub mod Passes
pub mod Rows
pub mod Delivery
pub mod Outcomes
mod Tests
