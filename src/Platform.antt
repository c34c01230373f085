-- ===== src/Platform.antt =====
-- The shared platform: database tables, the message bus, and actions on them.
pub mod Tables
pub mod World
pub mod Cache
pub mod Database
pub mod Messaging
pub mod Security
pub mod Samples
