-- ===== src/Examples.antt =====
-- The definitions run on concrete inputs, and the theorems applied to them.
mod Ledgers
mod Policies
mod Budgets
mod Deliveries
mod Streams
mod Securities
mod Beliefs
mod Commands
mod Records
mod Coding
mod Codecs
mod Queues
