-- ===== src/Idempotency.antt =====
-- idempotency/checker.go: the idempotency checker.
pub mod Defs
pub mod Laws
