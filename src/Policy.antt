-- ===== src/Policy.antt =====
-- The completion policy: internal/verification/policy.go.
pub mod Obligation
pub mod Derive
pub mod Assess
pub mod Support
