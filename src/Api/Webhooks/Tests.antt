-- ===== src/Api/Webhooks/Tests.antt =====
-- A bounce at a concrete message.
use qeet_notify.Base.{false, ℕ, ◌≡◌, refl, true, none, some, [], ◌∷◌}
use qeet_notify.Base.Text.{str, str_eq}
use qeet_notify.Workflows.Json.{Fields, end, field, text, get_key}
use qeet_notify.Workflows.Types.{ChannelJob}
use qeet_notify.Api.Webhooks.{extract_email_event, find_message, find_plain, receive_email_webhook}
use qeet_notify.Api.Webhooks.Bounces.{receive_email_webhook-silences}
use qeet_notify.Channels.Email
use qeet_notify.Platform.Samples.{empty_db, calm_world, sample_subscriber}
use qeet_notify.Platform.Tables.{Notification, sent}
use qeet_notify.Platform.World.{World}

abbrev payload : Fields ℕ
payload =
    field (str "type") (text (str "email.bounced")) (field (str "email_id") (text (str "m1")) end)

resend_bounce : extract_email_event (λ s. none) (str "resend") payload ≡ (str "bounced", str "m1")
unfolding extract_email_event str_eq get_key
resend_bounce = refl

abbrev outside : Email.Outside ℕ
outside = record {
  decrypt = λ c k. none;
  hash_value = λ v. v;
  render = λ t payload. some t;
  decode_ses = λ c. none;
  decode_resend = λ c. none;
  loads_aws = λ r a s. true;
  receipt = λ p m. str "id";
}

abbrev worker : Email.Worker
worker = record { primary = none; fallback = none; enc_key = str "k" }

abbrev job : ChannelJob ℕ
job = record {
  tenant_id = str "t";
  notification_id = str "n2";
  subscriber_id = str "u";
  channel = str "email";
  template_id = str "m";
  payload = end;
}

abbrev row : Notification
row = record {
  id = str "n";
  tenant_id = str "t";
  workflow_run_id = [];
  subscriber_id = str "u";
  channel = str "email";
  template_id = str "m";
  status = sent;
  provider = str "resend";
  provider_message_id = str "m1";
  content = str "{}";
  is_read = false;
}

abbrev before : World ℕ
before =
    calm_world (record empty_db { subscribers = sample_subscriber ∷ []; notifications = row ∷ [] })

abbrev after : World ℕ
after = record before {
  db = record before.db {
    suppressions =
        (receive_email_webhook (λ c k. none) (λ v. v) (λ s. some payload) (str "k") (str "resend")
          (some (str "{}")) before).1.db.suppressions;
  };
}

receive_email_webhook-silences_example : (Email.handle_job outside worker job after).1.outbox ≡ []
unfolding find_message find_plain str_eq Email.find_email extract_email_event get_key
receive_email_webhook-silences_example =
    receive_email_webhook-silences outside worker job (λ s. some payload) (str "{}") payload
      (str "resend") (str "bounced") 109 (str "1") row 97 (str "@b") before after
      (record { healthy = refl; answers = refl }) refl refl refl refl refl refl refl refl
