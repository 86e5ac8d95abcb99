-- ===== src/Queue.antt =====
-- The durable queue of deliveries: internal/execution/delivery_queue.go over the tables of
-- internal/execution/delivery_store.go.
pub mod Rows
pub mod Cases
pub mod Journal
pub mod Loading
pub mod Worker
pub mod Selection
pub mod Service
pub mod Admit
pub mod Append
pub mod Outcome
pub mod Epochs
mod Evolution
mod Endings
pub mod Steps
pub mod Claimed
pub mod Fencing
pub mod Replay
pub mod Projection
mod Replays
pub mod Refinement
pub mod Claiming
mod Order
pub mod Due
pub mod Sorted
mod Admitted
