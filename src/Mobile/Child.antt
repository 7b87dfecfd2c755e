-- ===== src/Mobile/Child.antt =====
-- apps/mobile/src/app/child/home.tsx: the work that the home screen of a child's device does.
pub mod Events
pub mod Delivered
pub mod Reputation
pub mod Fetches
pub mod Received
pub mod Usage
mod Tests
