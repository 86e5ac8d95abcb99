-- ===== src/Ledger.antt =====
-- The evidence ledger of one task: internal/execution/ledger.go and verification_inputs.go.
pub mod Event
pub mod Scope
pub mod Inside
pub mod SharedPath
pub mod Reduce
pub mod Step
pub mod Currency
pub mod History
pub mod Store
pub mod Recording
pub mod Recorded
pub mod FileStore
pub mod Recovery
