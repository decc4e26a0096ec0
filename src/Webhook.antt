-- ===== src/Webhook.antt =====
-- pkg/webhook: what the webhooks make of objects of shoot clusters.
pub mod Nodes
pub mod Texts
pub mod ShootService
