-- ===== src/Compliance.antt =====
-- Checks that regulation asks for before a message is sent (domains/compliance).
pub mod Dlt
pub mod Ndnc
mod Tests
