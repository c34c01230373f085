-- ===== src/Lib.antt =====
-- Verification library of qeet-notify: notifications sent to the subscribers of many tenants, along
-- workflows that events trigger.
--
-- The parts and how they interact. An event on the tenant's stream reaches the workflow engine, which
-- looks up the tenant's workflow, creates a run and walks its steps: a channel step publishes a job
-- for a worker when the subscriber has not opted out, a delay step pauses the run in the database, a
-- condition step branches. The scheduler puts runs whose delay has passed back on the event stream,
-- and the engine resumes them. A worker looks up the address, asks the suppression list and, for SMS,
-- the registered templates, the national registry and the hour, and sends through the first provider
-- that accepts. All work of a message runs in one transaction scoped to the tenant. The HTTP API
-- takes in events, keeps subscribers and their opt-outs, and hears from the providers of bounces.
--
-- Which file models which code:
--   Base.antt, Base/*: Booleans, lists, integers and byte texts; strings.Index, TrimSpace, Split and
--     SplitN (Base/Text/Search.antt).
--   Platform/Tables.antt: rows of the tables of migrations/.
--   Platform/World.antt: the state of a process, its calls of PostgreSQL and NATS and their failures.
--   Platform/Database.antt: RunInTenant of platform/database/querier.go.
--   Platform/Messaging.antt: subjects of platform/messaging/streams.go; Platform/Messaging/Failure.antt:
--     HandleFailure of platform/messaging/consume.go.
--   Platform/Security.antt: the masks of platform/security/pii.go.
--   Subscribers/Preferences.antt: IsOptedIn, Unsubscribe, IsSuppressed, AddSuppression and
--     EraseSubscriber of domains/subscribers/preferences/preferences.go.
--   Workflows/Types.antt, Workflows/Condition.antt, Workflows/Engine.antt and
--     Workflows/Engine/Runs.antt: types.go, condition.go and engine.go of domains/workflows/engine;
--     execute_from is executeFrom, dispatch_channel is dispatchChannel, resume is Resume.
--   Channels/Email.antt, Channels/Sms.antt and Channels/WhatsApp.antt: worker.go and routing.go of
--     domains/channels/email, sms and whatsapp; Channels/Fallback.antt and Channels/Notify.antt: what
--     these workers share, the loop over providers and the recording of a job; Channels/Outbox.antt
--     and Channels/Gate.antt: lemmas on what leaves through the providers.
--   Channels/Routing.antt, with its order in Channels/Routing/Order.antt, and Channels/Rendering.antt:
--     domains/routing/router.go and domains/templates/rendering.
--   Channels/Webhook.antt and Channels/InApp.antt: domains/channels/webhook/worker.go and
--     domains/channels/inapp/worker.go.
--   Channels/Erasure.antt: the erasure of a subscriber with the workers.
--   Compliance/Dlt.antt and Compliance/Ndnc.antt: domains/compliance/dlt/dlt.go and
--     domains/compliance/ndnc/ndnc.go.
--   Subscribers/Consent.antt and Subscribers/Federation.antt: consent/consent.go and
--     federation/federation.go of domains/subscribers.
--   Platform/Cache.antt: the commands of Redis that the program calls.
--   Api/Middleware.antt: tenant.go, ratelimit.go and tenant_tx.go of platform/api/middleware and
--     LookupTenantByKey of platform/database/tenant.go.
--   Api/Routes.antt: `serve` is the middleware of api.Route("/v1") in cmd/server/main.go, Audit
--     included. The public unsubscribe link and the webhooks of the email providers are routes of
--     their own and have none of it.
--   Api/Events.antt: platform/api/handler/events.go. Api/Subscribers.antt and its children Choices and
--     Changes: subscribers.go; Api/Webhooks.antt: webhooks.go.
--   Api/Keys.antt, Api/Workflows.antt, Api/Templates.antt, Api/Dlt.antt and Api/Providers.antt:
--     apikeys.go, workflows.go, templates.go, dlt.go and providers.go of platform/api/handler;
--     Api/Rows.antt: the statements on a tenant's rows and the paging that these handlers share.
--   Api/Notifications.antt: notifications.go, and NotificationFeed and MarkNotificationRead of sse.go.
--   Api/Audit.antt and Api/AuditLogs.antt: platform/api/middleware/audit.go and handler/auditlogs.go.
--   Api/Oidc.antt: platform/api/middleware/oidc.go.
--   Analytics.antt: aggregator.go and query.go of domains/analytics, and handler/analytics.go.
--   Scheduler.antt: Tick of domains/scheduler/scheduler.go; `scan` is the body of its transaction.
--     Scheduler/Order.antt: the order of its query.
--
-- How it is modelled. An action is a function from the world to a result and a world. SQL statements
-- are functions on lists of rows; a query with LIMIT 1 and no order takes the first row. Which calls
-- fail is a list of outcomes in the world, so the theorems can speak of every pattern of failures. A
-- failed statement aborts its transaction, and a rollback restores the tables but not the messages
-- already published and the messages already sent. Row-level security is applied where a query has
-- no filter on the tenant.
-- Strings are lists of bytes and an empty text stands for NULL, but for the sender_id of a DLT
-- template, which is an option. float64, JSON, SHA-256 and generated
-- ids are parameters. The loop of executeFrom runs on fuel 2 n + 12 for n steps, one more than the
-- rounds that its own guard allows, and it is proved that this is always enough.
--
-- A message leaves when the adapter of a provider reports that it was accepted: an adapter that
-- returns an error, also where it cannot read the body of an answer with a status below 300, counts
-- as a refusal, as it does for the code, which then tries the next provider. The check of the column
-- channel and the reference of subscriber_id in notifications are not modelled.
--
-- Redis holds keys that expire and counters. The goroutine of a webhook or of an audit entry is
-- modelled as its work behind the answer, and the clock is read once where the code reads it twice.
-- Encoders of responses are parameters. The rows of a table stand in the order in which they were
-- inserted, so that the newest first is the list from its end; created_at and updated_at are left out
-- where no code reads them for anything else. Any other check of a table, or a unique key, that
-- refuses a row fails the statement and aborts its transaction.
--
-- Not modelled: the stream of NotificationStream, QueryDelivery (which no code calls), the provider
-- adapters, the loops that receive messages, start-up and configuration, logging, the health checks,
-- and the metadata of a step.
pub mod Base
pub mod Platform
pub mod Subscribers
pub mod Workflows
pub mod Scheduler
pub mod Analytics
pub mod Compliance
pub mod Channels
pub mod Api
