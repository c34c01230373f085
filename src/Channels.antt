-- ===== src/Channels.antt =====
-- The channel workers (domains/channels) and what they share.
pub mod Types
pub mod Outbox
pub mod Fallback
pub mod Notify
pub mod Gate
pub mod Rendering
pub mod Routing
pub mod Email
pub mod Sms
pub mod WhatsApp
pub mod Webhook
pub mod InApp
pub mod Erasure
