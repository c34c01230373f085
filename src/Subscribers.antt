-- ===== src/Subscribers.antt =====
-- The subscribers' side (domains/subscribers).
pub mod Consent
pub mod Federation
pub mod Preferences
