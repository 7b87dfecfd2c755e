-- ===== src/Mobile.antt =====
-- apps/mobile/src: the state of the application outside its screens, and its calls of the API.
pub mod Outbox
pub mod Session
pub mod Repair
pub mod Sync
pub mod Child
pub mod Provider
pub mod Recovery
pub mod Protection
pub mod Endpoints
pub mod Signing
pub mod Pairing
pub mod Requests
pub mod Time
