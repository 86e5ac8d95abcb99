-- ===== src/Budget.antt =====
-- Token and cost budgets of sessions: internal/budget/budget.go.
pub mod Price
pub mod Tracker
pub mod Sum
pub mod Cap
pub mod Reserve
pub mod Settle
