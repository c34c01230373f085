-- ===== src/Channels/Webhook.antt =====
-- domains/channels/webhook/worker.go: a job becomes a signed request to the tenant's endpoint.
use qeet_notify.Base.{ℕ, Option, none, some, List, [], ◌∷◌, ◌++◌, if◌then◌else◌, ltb}
use qeet_notify.Base.Int.{ℤ}
use qeet_notify.Base.Text.{Str, str}
use qeet_notify.Workflows.Json.{Fields}
use qeet_notify.Workflows.Types.{ChannelJob}
use qeet_notify.Channels.Types.{WebhookRequest, webhook_out}
use qeet_notify.Channels.Notify.{update_notification, record_delivery}
use qeet_notify.Channels.Routing.{Record, active_records}
use qeet_notify.Platform.Database.{run_in_tenant}
use qeet_notify.Platform.Tables.{delivered}
use qeet_notify.Platform.World.{
  M, decode_failed, not_found, bad_config, provider_failed, pure, raise, gets, modify, tx_call,
  deliver, ◌>>=◌, ◌>>◌,
}

pub record EndpointConfig : Type 0 where
  pub url : Str
  pub secret : Str

-- What is encoded and signed; `timestamp` is the time of the request, which the encoder
-- writes in seconds.
pub record Payload (F : Type 0) : Type 0 where
  pub notification_id : Str
  pub tenant_id : Str
  pub subscriber_id : Str
  pub payload : Fields F
  pub timestamp : ℤ

-- Outside the code: the decryption of the database, JSON, HMAC-SHA256, the reading of URLs, and the
-- status with which an endpoint answers.
pub record Outside (F : Type 0) : Type 0 where
  pub decrypt : Str → Str → Option Str
  pub decode_endpoint : Str → Option EndpointConfig
  pub encode : Payload F → Str
  pub hmac_sign : Str → Str → Str
  pub parses : Str → Option Str
  pub answer : WebhookRequest → ℕ

abbrev first_config : List Record → Option Str
first_config [] = none
first_config (r ∷ rs) = some r.config

module _ {F : Type 0} (o : Outside F) (enc_key : Str) where
  abbrev config_or_error : Option Str → M F EndpointConfig
  config_or_error none = raise not_found
  config_or_error (some c) = decoded (o.decode_endpoint c)
    where
      decoded : Option EndpointConfig → M F EndpointConfig
      decoded none = raise bad_config
      decoded (some cfg) = pure cfg

  -- The endpoint of least priority.
  unfoldable pub load_endpoint : Str → M F EndpointConfig
  load_endpoint tenant_id = do
    tx_call
    found ← gets (λ w.
        first_config
          (active_records o.decrypt tenant_id (str "webhook") enc_key w.db.provider_configs))
    config_or_error found

  abbrev pub payload_of : ChannelJob F → ℤ → Payload F
  payload_of job now = record {
    notification_id = job.notification_id;
    tenant_id = job.tenant_id;
    subscriber_id = job.subscriber_id;
    payload = job.payload;
    timestamp = now;
  }

  abbrev pub request_for : EndpointConfig → Str → ChannelJob F → ℤ → WebhookRequest
  request_for cfg url job now = record {
    url = url;
    body = o.encode (payload_of job now);
    signature = str "sha256=" ++ o.hmac_sign cfg.secret (o.encode (payload_of job now));
  }

  abbrev url_or_error : Option Str → M F Str
  url_or_error none = raise bad_config
  url_or_error (some url) = pure url

  -- The event's status code is not kept.
  unfoldable pub mark_delivered : ChannelJob F → M F (Unit {0})
  mark_delivered job = do
    record_delivery job (str "delivered") (str "webhook") none
    tx_call
    modify (update_notification job.notification_id (λ n. record n { status = delivered }))

  unfoldable pub process : ChannelJob F → M F (Unit {0})
  process job = do
    cfg ← load_endpoint job.tenant_id
    url ← url_or_error (o.parses cfg.url)
    now ← gets (λ w. w.now)
    deliver (webhook_out (request_for cfg url job now))
    (if ltb (o.answer (request_for cfg url job now)) 400
        then mark_delivered job
        else raise provider_failed)

  unfoldable pub handle : Option (ChannelJob F) → M F (Unit {0})
  handle none = raise decode_failed
  handle (some job) = run_in_tenant job.tenant_id (process job)
