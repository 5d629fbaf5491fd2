-- ===== src/Messaging.antt =====
-- Messages and heartbeats: backend/app/services/messaging/service.py.
pub mod State
pub mod Guards
pub mod Send
pub mod Team
pub mod Read
pub mod Presence
mod Order
pub mod Pages
pub mod Sent
pub mod Growth
pub mod Spread
pub mod Replay
pub mod Reports
mod Tests
mod PageTests
