-- ===== src/Security.antt =====
-- The security policy: internal/security/policy.go.
pub mod Paths
pub mod Rules
pub mod Shell
pub mod Command
pub mod Unbroken
pub mod Auto
pub mod Pieces
pub mod Overlay
pub mod Sets
mod Allowed
pub mod Ratchet
pub mod Resolve
pub mod Mcp
