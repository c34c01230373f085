-- ===== src/Channels/WhatsApp.antt =====
-- domains/channels/whatsapp (worker.go, routing.go): a job becomes a WhatsApp message, or is skipped.
pub mod Once
mod Tests
use qeet_notify.Base.{
  ℕ, ◌*◌, Bool, true, false, not, ◌&&◌, Option, none, some, List, [], ◌∷◌, ◌++◌, if◌then◌else◌,
}
use qeet_notify.Base.Text.{Str, str, str_eq, is_empty}
use qeet_notify.Workflows.Json.{Value, text, array, Items, nil, cons, Fields, get_key}
use qeet_notify.Workflows.Types.{ChannelJob}
use qeet_notify.Channels.Types.{WhatsAppMessage, whatsapp_out}
use qeet_notify.Channels.Fallback.{Sending, try_each, build_each, choose_providers}
use qeet_notify.Channels.Notify.{
  address_or_error, mark_suppressed, record_delivery, finish, event_type_of,
}
use qeet_notify.Channels.Routing.{Record, load}
use qeet_notify.Subscribers.Preferences.{is_suppressed}
use qeet_notify.Platform.Cache.{lookup, set}
use qeet_notify.Platform.Tables.{Subscriber, DltRow}
use qeet_notify.Platform.Database.{run_in_tenant}
use qeet_notify.Platform.World.{
  World, M, Result, ok, err, Error, decode_failed, not_found, redis_failed, call, pure, raise, gets,
  try, tx_call, ◌>>=◌, ◌>>◌,
}

-- Meta's Cloud API, with a token and the id of a phone number.
pub data Provider : Type 0 where
  meta : Str → Str → Provider

abbrev pub name : Provider → Str
name (meta token phone_id) = str "meta"

pub record Outside (F : Type 0) : Type 0 where
  pub decrypt : Str → Str → Option Str
  pub hash_value : Str → Str
  pub decode_meta : Str → Option (Str × Str)
  pub receipt : Str → WhatsAppMessage → Str

pub record Worker : Type 0 where
  pub provider : Option Provider
  pub enc_key : Str

abbrev pub static_providers : Worker → List Provider
static_providers worker = one (worker.provider)
  where
    one : Option Provider → List Provider
    one none = []
    one (some p) = p ∷ []

abbrev pub category_marketing : Str
category_marketing = str "MARKETING"

abbrev pub session_key : Str → Str → Str
session_key subscriber_id tenant_id = str "wa:session:" ++ (subscriber_id ++ (str ":" ++ tenant_id))

-- 24 hours in nanoseconds.
abbrev pub session_ttl : ℕ
session_ttl = 86400 * 1000000000

-- The texts of payload["params"], in order.
unfoldable pub texts_of : {F : Type 0} → Items F → List Str
texts_of nil = []
texts_of (cons (text s) items) = s ∷ texts_of items
texts_of (cons v items) = texts_of items

abbrev params_of : {F : Type 0} → Value F → List Str
params_of (array items) = texts_of items
params_of v = []

abbrev pub build_components : {F : Type 0} → Fields F → List Str
build_components payload = params_of (get_key (str "params") payload)

unfoldable pub find_template_row : Str → Str → List DltRow → Option DltRow
find_template_row id tenant_id [] = none
find_template_row id tenant_id (r ∷ rs) =
    if str_eq r.id id && str_eq r.tenant_id tenant_id
    then some r
    else find_template_row id tenant_id rs

abbrev pub language_of : DltRow → Str
language_of r = if is_empty r.language_code then str "en_US" else r.language_code

abbrev row_or_error : {F : Type 0} → Option DltRow → M F DltRow
row_or_error none = raise not_found
row_or_error (some r) = pure r

abbrev has_session : Result (Unit {0}) → Option Str → Bool
has_session (err e) found = false
has_session (ok _) none = false
has_session (ok _) (some v) = true

-- EXISTS; an error counts as no session.
unfoldable pub session_open : {F : Type 0} → Str → M F Bool
session_open key = do
  r ← try (call redis_failed)
  found ← gets (λ w. lookup w.now key w.redis)
  pure (has_session r found)

-- InboundWebhook: a message of the user opens the session.
unfoldable pub open_session : {F : Type 0} → Str → Str → M F (Unit {0})
open_session subscriber_id tenant_id =
    try (set (session_key subscriber_id tenant_id) (str "1") session_ttl) >> pure tt

module _ {F : Type 0} (o : Outside F) (worker : Worker) where
  abbrev meta_of : Option (Str × Str) → Option Provider
  meta_of none = none
  meta_of (some (token, phone_id)) = some (meta token phone_id)

  unfoldable pub build_provider : Record → Option Provider
  build_provider r =
      if str_eq r.provider_name (str "meta") then meta_of (o.decode_meta r.config) else none

  abbrev pub providers_from : Result (List Record) → List Provider
  providers_from = choose_providers (static_providers worker) build_provider

  unfoldable pub send_with_fallback : WhatsAppMessage → Str → M F Sending
  send_with_fallback msg tenant_id = do
    records ← try (load o.decrypt tenant_id (str "whatsapp") worker.enc_key)
    try_each name whatsapp_out o.receipt (providers_from records) [] none msg

  -- SELECT COALESCE(whatsapp_id, '') … WHERE id = $1 AND tenant_id = $2.
  unfoldable pub find_whatsapp : Str → Str → List (Subscriber F) → Option Str
  find_whatsapp id tenant_id [] = none
  find_whatsapp id tenant_id (s ∷ ss) =
      if str_eq s.id id && str_eq s.tenant_id tenant_id
      then some s.whatsapp_id
      else find_whatsapp id tenant_id ss

  abbrev pub message_for : ChannelJob F → Str → DltRow → WhatsAppMessage
  message_for job to r = record {
    to = to;
    template_name = r.template_id_ext;
    language_code = language_of r;
    category = r.category;
    parameters = build_components job.payload;
  }

  unfoldable pub conclude : ChannelJob F → Sending → M F (Unit {0})
  conclude job s = do
    record_delivery job (event_type_of s.error) s.provider none
    finish job s.provider s.result s.error

  unfoldable pub send_template : ChannelJob F → Str → DltRow → M F (Unit {0})
  send_template job to r = do
    s ← send_with_fallback (message_for job to r) job.tenant_id
    conclude job s

  unfoldable pub send_marketing : ChannelJob F → Str → DltRow → M F (Unit {0})
  send_marketing job to r = do
    opened ← session_open (session_key job.subscriber_id job.tenant_id)
    (if opened
        then send_template job to r
        else record_delivery job (str "skipped") (str "no_wa_session") none)

  unfoldable pub send_categorised : ChannelJob F → Str → M F (Unit {0})
  unfolding find_template_row
  send_categorised job to = do
    tx_call
    found ← gets (λ w. find_template_row job.template_id job.tenant_id w.db.dlt_templates)
    r ← row_or_error found
    (if str_eq r.category category_marketing
        then send_marketing job to r
        else send_template job to r)

  unfoldable pub process : ChannelJob F → M F (Unit {0})
  process job = do
    tx_call
    found ← gets (λ w. find_whatsapp job.subscriber_id job.tenant_id w.db.subscribers)
    to ← address_or_error found
    stopped ← is_suppressed o.hash_value job.tenant_id (str "whatsapp") to
    if stopped then mark_suppressed job else send_categorised job to

  unfoldable pub handle : Option (ChannelJob F) → M F (Unit {0})
  handle none = raise decode_failed
  handle (some job) = run_in_tenant job.tenant_id (process job)
