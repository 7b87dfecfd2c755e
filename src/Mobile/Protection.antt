-- ===== src/Mobile/Protection.antt =====
-- `ChildHomeRoute` of apps/mobile/src/app/child/home.tsx: the protection of a child's device, what
-- the screen says of it, and what the service is told.
pub mod View
pub mod Calls
pub mod Sync
pub mod Native
pub mod Honest
pub mod Protocol
mod Tests
