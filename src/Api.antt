-- ===== src/Api.antt =====
-- The HTTP API (platform/api): its middleware and its handlers.
pub mod Oidc
pub mod Http
pub mod Rows
pub mod Middleware
pub mod Events
pub mod Subscribers
pub mod Webhooks
pub mod Keys
pub mod Workflows
pub mod Dlt
pub mod Providers
pub mod Templates
pub mod Audit
pub mod Notifications
pub mod AuditLogs
pub mod Routes
