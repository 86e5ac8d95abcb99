-- ===== src/Delivery.antt =====
-- Durable deliveries: internal/execution/delivery_domain.go.
pub mod Domain
pub mod Lifecycle
pub mod Requirements
