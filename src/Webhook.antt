-- ===== src/Webhook.antt =====
-- The webhook strategy (internal/gitops/webhook.go).
pub mod Limiter
pub mod Signature
pub mod Handler
mod Tests
