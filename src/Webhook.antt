-- ===== src/Webhook.antt =====
-- The WeCom callback (src/webhook).
pub mod EventKey
pub mod Event
pub mod Click
pub mod Callback
