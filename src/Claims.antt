-- ===== src/Claims.antt =====
-- Claims about the workspace, anchored in spans of its files: internal/claims.
pub mod Anchor
pub mod Store
pub mod Window
pub mod Locate
pub mod Ordered
pub mod Refreshed
pub mod Kept
pub mod Added
