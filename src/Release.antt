-- ===== src/Release.antt =====
-- apps/mobile/scripts/release-admission.mjs: whether the configuration of a release build is safe.
pub mod Patterns
pub mod Admission
pub mod Artifact
