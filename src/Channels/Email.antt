-- ===== src/Channels/Email.antt =====
-- domains/channels/email (worker.go, routing.go): a job becomes an email of at most one provider.
pub mod Once
pub mod Sent
mod Tests
use qeet_notify.Base.{
  ℕ, Bool, true, false, ◌&&◌, Option, none, some, List, [], ◌∷◌, ◌++◌, map, if◌then◌else◌,
}
use qeet_notify.Base.Text.{Str, str, str_eq, is_empty}
use qeet_notify.Workflows.Json.{Fields}
use qeet_notify.Workflows.Types.{ChannelJob}
use qeet_notify.Channels.Types.{EmailMessage, email_out}
use qeet_notify.Channels.Fallback.{Sending, try_each, static_from, build_each, choose_providers}
use qeet_notify.Channels.Notify.{
  address_or_error, mark_suppressed, record_delivery, finish, event_type_of,
}
use qeet_notify.Channels.Rendering.{Rendered, render_email}
use qeet_notify.Channels.Routing.{Record, load, notify_decrypt}
use qeet_notify.Subscribers.Preferences.{is_suppressed}
use qeet_notify.Platform.Tables.{Subscriber, Notification, NotificationStatus, sent, suppressed}
use qeet_notify.Platform.Messaging.{delivery_subject}
use qeet_notify.Platform.Database.{run_in_tenant}
use qeet_notify.Platform.World.{
  World, M, Result, ok, err, Error, decode_failed, not_found, bad_config, provider_failed, panicked,
  Message, delivery_body, pure, raise, gets, try, modify, tx_call, publish, deliver, visible, ◌>>=◌,
  ◌>>◌,
}

pub data Provider : Type 0 where
  ses : Str → Str → Str → Provider
  resend : Str → Provider

abbrev pub name : Provider → Str
name (ses region access_key secret_key) = str "ses"
name (resend api_key) = str "resend"

-- What the worker takes from outside: decryption and hashing of the database and the crypto library,
-- Handlebars, the decoding of credentials, the AWS configuration, and the ids that providers give.
pub record Outside (F : Type 0) : Type 0 where
  pub decrypt : Str → Str → Option Str
  pub hash_value : Str → Str
  pub render : Str → Fields F → Option Str
  pub decode_ses : Str → Option (Str × Str × Str)
  pub decode_resend : Str → Option Str
  pub loads_aws : Str → Str → Str → Bool
  pub receipt : Str → EmailMessage → Str

pub record Worker : Type 0 where
  pub primary : Option Provider
  pub fallback : Option Provider
  pub enc_key : Str

abbrev pub static_providers : Worker → List Provider
static_providers worker = static_from worker.primary worker.fallback

module _ {F : Type 0} (o : Outside F) (worker : Worker) where
  new_ses : Str × Str × Str → Option Provider
  new_ses (region, access_key, secret_key) =
      if o.loads_aws region access_key secret_key
      then some (ses region access_key secret_key)
      else none

  abbrev ses_of : Option (Str × Str × Str) → Option Provider
  ses_of none = none
  ses_of (some c) = new_ses c

  abbrev resend_of : Option Str → Option Provider
  resend_of none = none
  resend_of (some k) = some (resend k)

  unfoldable pub build_provider : Record → Option Provider
  unfolding new_ses
  build_provider r =
      if str_eq r.provider_name (str "ses")
      then ses_of (o.decode_ses r.config)
      else if str_eq r.provider_name (str "resend")
      then resend_of (o.decode_resend r.config)
      else none

  abbrev pub build_providers : List Record → Option (List Provider)
  build_providers = build_each build_provider

  abbrev pub providers_from : Result (List Record) → List Provider
  providers_from = choose_providers (static_providers worker) build_provider

  -- Each provider in turn until one accepts; the last one's name and error where none does.
  abbrev pub send_each : List Provider → Str → Option Error → EmailMessage → M F Sending
  send_each = try_each name email_out o.receipt

  unfoldable pub send_with_fallback : EmailMessage → Str → M F Sending
  send_with_fallback msg tenant_id = do
    records ← try (load o.decrypt tenant_id (str "email") worker.enc_key)
    send_each (providers_from records) [] none msg

  -- SELECT COALESCE(notify_decrypt(email_encrypted, $3), '') … WHERE id = $1 AND tenant_id = $2.
  unfoldable pub find_email : Str → Str → List (Subscriber F) → Option Str
  find_email id tenant_id [] = none
  find_email id tenant_id (s ∷ ss) =
      if str_eq s.id id && str_eq s.tenant_id tenant_id
      then some (notify_decrypt o.decrypt s.email_encrypted worker.enc_key)
      else find_email id tenant_id ss

  abbrev pub email_for : ChannelJob F → Str → Rendered → EmailMessage
  email_for job to rendered = record {
    from = str "noreply@qeet.in";
    from_name = str "Qeet Notify";
    to = to;
    subject = rendered.subject;
    html_body = rendered.body;
    text_body = [];
    reply_to = [];
    tags = (str "notification_id", job.notification_id) ∷ (str "tenant_id", job.tenant_id) ∷ [];
  }

  unfoldable pub conclude : ChannelJob F → Sending → M F (Unit {0})
  conclude job s = do
    record_delivery job (event_type_of s.error) s.provider s.error
    finish job s.provider s.result s.error

  unfoldable pub send_rendered : ChannelJob F → Str → M F (Unit {0})
  send_rendered job to = do
    rendered ← render_email o.render job.tenant_id job.template_id job.payload
    s ← send_with_fallback (email_for job to rendered) job.tenant_id
    conclude job s

  unfoldable pub handle_job : ChannelJob F → M F (Unit {0})
  handle_job job = do
    tx_call
    found ← gets (λ w. find_email job.subscriber_id job.tenant_id w.db.subscribers)
    to ← address_or_error found
    stopped ← is_suppressed o.hash_value job.tenant_id (str "email") to
    if stopped then mark_suppressed job else send_rendered job to

  unfoldable pub handle : Option (ChannelJob F) → M F (Unit {0})
  handle none = raise decode_failed
  handle (some job) = run_in_tenant job.tenant_id (handle_job job)
