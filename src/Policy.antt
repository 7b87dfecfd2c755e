-- ===== src/Policy.antt =====
-- packages/policy-schema: the signed policy bundle and its evaluation.
pub mod Bundle
pub mod Platform
pub mod Window
pub mod Domain
pub mod Rules
pub mod Budget
pub mod Routines
pub mod Validation
pub mod Canonical
pub mod Signature
pub mod Layers
pub mod Evaluator
pub mod Tests
