-- ===== src/Channels/Sms.antt =====
-- domains/channels/sms (worker.go, routing.go): a job becomes an SMS, is blocked, or is deferred.
pub mod Reading
pub mod Accepted
pub mod Once
pub mod Promotional
pub mod Unchecked
pub mod Samples
mod Tests
use qeet_notify.Base.{
  ℕ, zero, suc, Bool, false, ◌&&◌, Option, none, some, List, [], ◌∷◌, ◌++◌, map, if◌then◌else◌,
}
use qeet_notify.Base.Text.{Str, str, str_eq, is_empty}
use qeet_notify.Workflows.Json.{Fields}
use qeet_notify.Workflows.Types.{ChannelJob}
use qeet_notify.Compliance.Dlt.{
  load_approved_templates, match_template, is_promotional_window_open, until_next_window,
}
use qeet_notify.Compliance.Ndnc.{is_registered}
use qeet_notify.Channels.Types.{SmsMessage, sms_out}
use qeet_notify.Channels.Fallback.{Sending, try_each, static_from, build_each, choose_providers}
use qeet_notify.Channels.Notify.{
  address_or_error, mark_stopped, mark_suppressed, record_delivery, finish, event_type_of,
}
use qeet_notify.Channels.Rendering.{fetch, render_text}
use qeet_notify.Channels.Routing.{Record, load, notify_decrypt}
use qeet_notify.Subscribers.Preferences.{is_suppressed}
use qeet_notify.Platform.Tables.{Subscriber, Template, DltRow}
use qeet_notify.Platform.Database.{run_in_tenant}
use qeet_notify.Platform.World.{
  World, M, Result, ok, err, Error, decode_failed, not_found, pure, raise, gets, try, tx_call,
  visible, ◌>>=◌, ◌>>◌,
}

pub data Provider : Type 0 where
  msg91 : Str → Provider
  two_factor : Str → Provider

abbrev pub name : Provider → Str
name (msg91 api_key) = str "msg91"
name (two_factor api_key) = str "2factor"

-- What the worker takes from outside. The credentials of both providers decode to a key; `compile`
-- and `match_string` are those of regular expressions.
pub record Outside (F R : Type 0) : Type 0 where
  pub decrypt : Str → Str → Option Str
  pub hash_value : Str → Str
  pub render : Str → Fields F → Option Str
  pub decode_api_key : Str → Option Str
  pub receipt : Str → SmsMessage → Str
  pub compile : Str → Option R
  pub match_string : R → Str → Bool

pub record Worker : Type 0 where
  pub primary : Option Provider
  pub fallback : Option Provider
  pub enc_key : Str

abbrev pub static_providers : Worker → List Provider
static_providers worker = static_from worker.primary worker.fallback

-- The row of a template by its id alone, under row-level security.
unfoldable pub find_row : {F : Type 0} → World F → Str → List DltRow → Option DltRow
find_row w id [] = none
find_row w id (r ∷ rs) =
    if str_eq r.id id && visible w r.tenant_id then some r else find_row w id rs

-- A text that is read into an empty variable; an error and a missing row leave it empty.
abbrev read_or_empty : (DltRow → Str) → Result (Unit {0}) → Option DltRow → Str
read_or_empty f (err e) row = []
read_or_empty f (ok _) none = []
read_or_empty f (ok _) (some r) = f r

unfoldable pub query_text : {F : Type 0} → (DltRow → Str) → Str → M F Str
unfolding find_row
query_text f id = do
  r ← try tx_call
  row ← gets (λ w. find_row w id w.db.dlt_templates)
  pure (read_or_empty f r row)

-- COALESCE(sender_id, 'QEET'): a stored empty text is no NULL.
abbrev pub sender_of : DltRow → Str
sender_of r = or_qeet r.sender_id
  where
    or_qeet : Option Str → Str
    or_qeet none = str "QEET"
    or_qeet (some s) = s

module _ {F R : Type 0} (o : Outside F R) (worker : Worker) where
  abbrev with_key : (Str → Provider) → Option Str → Option Provider
  with_key f none = none
  with_key f (some key) = some (f key)

  unfoldable pub build_provider : Record → Option Provider
  build_provider r =
      if str_eq r.provider_name (str "msg91")
      then with_key msg91 (o.decode_api_key r.config)
      else if str_eq r.provider_name (str "2factor")
      then with_key two_factor (o.decode_api_key r.config)
      else none

  abbrev pub build_providers : List Record → Option (List Provider)
  build_providers = build_each build_provider

  abbrev pub providers_from : Result (List Record) → List Provider
  providers_from = choose_providers (static_providers worker) build_provider

  unfoldable pub send_with_fallback : SmsMessage → Str → M F Sending
  send_with_fallback msg tenant_id = do
    records ← try (load o.decrypt tenant_id (str "sms") worker.enc_key)
    try_each name sms_out o.receipt (providers_from records) [] none msg

  -- SELECT COALESCE(notify_decrypt(phone_encrypted, $3), '') … WHERE id = $1 AND tenant_id = $2.
  unfoldable pub find_phone : Str → Str → List (Subscriber F) → Option Str
  find_phone id tenant_id [] = none
  find_phone id tenant_id (s ∷ ss) =
      if str_eq s.id id && str_eq s.tenant_id tenant_id
      then some (notify_decrypt o.decrypt s.phone_encrypted worker.enc_key)
      else find_phone id tenant_id ss

  abbrev pub sms_for : Str → Str → Str → Str → SmsMessage
  sms_for phone rendered sender_id dlt_id = record {
    to = phone;
    body = rendered;
    sender_id = sender_id;
    dlt_tmpl_id = dlt_id;
    is_unicode = false;
    tags = [];
  }

  unfoldable pub conclude : ChannelJob F → Sending → M F ℕ
  conclude job s = do
    record_delivery job (event_type_of s.error) s.provider none
    finish job s.provider s.result s.error
    pure 0

  unfoldable pub send_now : ChannelJob F → Str → Str → Str → M F ℕ
  send_now job phone rendered dlt_id = do
    sender_id ← query_text sender_of dlt_id
    s ← send_with_fallback (sms_for phone rendered sender_id dlt_id) job.tenant_id
    conclude job s

  -- Outside the window the job is deferred; the model reads the clock once.
  unfoldable pub send_in_window : ChannelJob F → Str → Str → Str → M F ℕ
  send_in_window job phone rendered dlt_id = do
    now ← gets (λ w. w.now)
    (if is_promotional_window_open now
        then send_now job phone rendered dlt_id
        else pure (until_next_window now))

  unfoldable pub send_promotional : ChannelJob F → Str → Str → Str → M F ℕ
  send_promotional job phone rendered dlt_id = do
    dnd ← is_registered o.hash_value phone
    (if dnd
        then mark_stopped job (str "ndnc_blocked") (str "ndnc") >> pure 0
        else send_in_window job phone rendered dlt_id)

  unfoldable pub send_matched : ChannelJob F → Str → Str → Str → M F ℕ
  send_matched job phone rendered [] =
      record_delivery job (str "failed") (str "dlt_no_match") none >> pure 0
  send_matched job phone rendered (c ∷ id) = do
    category ← query_text (λ r. r.category) (c ∷ id)
    (if str_eq category (str "promotional")
        then send_promotional job phone rendered (c ∷ id)
        else send_now job phone rendered (c ∷ id))

  unfoldable pub match_and_send : ChannelJob F → Str → M F ℕ
  match_and_send job phone = do
    t ← fetch job.tenant_id job.template_id
    rendered ← render_text o.render t.body job.payload
    templates ← load_approved_templates o.compile o.match_string job.tenant_id (str "all")
    send_matched job phone rendered (match_template o.compile o.match_string templates rendered)

  -- The result is the delay of a deferred job, else 0.
  unfoldable pub handle_job : ChannelJob F → M F ℕ
  handle_job job = do
    tx_call
    found ← gets (λ w. find_phone job.subscriber_id job.tenant_id w.db.subscribers)
    phone ← address_or_error found
    stopped ← is_suppressed o.hash_value job.tenant_id (str "sms") phone
    if stopped then mark_suppressed job >> pure 0 else match_and_send job phone

  unfoldable pub handle : Option (ChannelJob F) → M F ℕ
  handle none = raise decode_failed
  handle (some job) = run_in_tenant job.tenant_id (handle_job job)
