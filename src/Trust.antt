-- ===== src/Trust.antt =====
-- Trust and reputation: backend/app/services/trust/service.py and components.py with
-- backend/app/models/trust.py.
pub mod Numbers
pub mod State
pub mod Score
pub mod Service
pub mod Bounds
pub mod Effects
pub mod Requests
pub mod Samples
mod Tests
